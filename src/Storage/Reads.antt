-- ===== src/Storage/Reads.antt =====
-- The reads of `MediaStorage` (src/storage/mod.rs): metadata, bytes by a pinned version, and the check
-- of stored bytes against the ones at hand.
use divine_upload_server.Prelude.{
  String, ℕ, ◌+◌, not, ◌||◌, Option, none, some, List, [], ◌∷◌, ◌++◌, ltb, ◌==◌, map, if◌then◌else◌,
  length,
}
use divine_upload_server.Result.{Result, ok, err, ok_or, refuse_if}
use divine_upload_server.Result
use divine_upload_server.Exec.{Exec, pure, lift, call, ◌>>=◌, ◌>>◌}
use divine_upload_server.Text.{Text, text, str_eq}
use divine_upload_server.Text.Decimal.{max_u64}
use divine_upload_server.Text.Signed.{ℤ, parse_i64, show_i64, as_u64}
use divine_upload_server.Storage.Objects.{
  ObjectRef, StorageProvider, WriteMode, dual, same_provider,
}
use divine_upload_server.Storage.Media.{
  StoredObject, GcsError, response, no_response, GcsObject, Machine, MediaStorage, is_dual, gcs_of,
  b2_of,
}
use divine_upload_server.Resumable.Traits.{Failure, other, Bytes}

abbrev pub failure : {A : Type 0} → String → A → Failure
failure message error = other (text message)

-- A value in the metadata map.
unfoldable pub get : Text → List (Text × Text) → Option Text
get key [] = none
get key (entry ∷ entries) =
    let rest = get key entries in if str_eq entry.0 key then some entry.1 else rest

unfoldable pub owner_of : Option (List (Text × Text)) → Option Text
owner_of none = none
owner_of (some metadata) = get (text "owner") metadata

unfoldable pub or_octets : Option Text → Text
or_octets none = text "application/octet-stream"
or_octets (some content_type) = content_type

abbrev pub gcs_reference : Text → Text → ℤ → ObjectRef
gcs_reference bucket key generation = record {
  provider = StorageProvider.gcs;
  bucket = bucket;
  key = key;
  version = some (show_i64 generation);
}

abbrev pub stored_of : Text → Text → GcsObject → StoredObject
stored_of bucket key o = record {
  reference = gcs_reference bucket key o.generation;
  size = as_u64 o.size;
  content_type = or_octets o.content_type;
  owner = owner_of o.metadata;
}

-- A 404 is an object that is not there.
unfoldable pub stat_answer :
    Text → Text → Result GcsError GcsObject → Result Failure (Option StoredObject)
stat_answer bucket key (ok o) = ok (some (stored_of bucket key o))
stat_answer bucket key (err (response code)) =
    if code == 404 then ok none else err (other (text "GCS metadata request failed"))
stat_answer bucket key (err no_response) = err (other (text "GCS metadata request failed"))

unfoldable pub delete_answer : Result GcsError Unit → Result Failure Unit
delete_answer (ok u) = ok tt
delete_answer (err (response code)) =
    if code == 404 then ok tt else err (other (text "GCS delete failed"))
delete_answer (err no_response) = err (other (text "GCS delete failed"))

abbrev pub answering : {W E F A B : Type 0} → (Result F A → Result E B) → Exec W F A → Exec W E B
answering f m w = let (r, w') = m w in (f r, w')

-- The bytes of a stream and their number, unless it fails or passes `limit`.
unfoldable pub bounded :
    String → List (Result Failure Bytes) → ℕ → Bytes → ℕ → Result Failure (Bytes × ℕ)
bounded message [] limit acc total = ok (acc, total)
bounded message (err e ∷ chunks) limit acc total = err e
bounded message (ok chunk ∷ chunks) limit acc total =
    let rest = bounded message chunks limit (acc ++ chunk) (total + length chunk) in
    if ltb max_u64 (total + length chunk)
    then err (other (text "Media length overflow"))
    else if ltb limit (total + length chunk)
    then err (other (text message))
    else rest

-- The generation of a reference that must have one.
unfoldable pub exact_generation : String → String → ObjectRef → Result Failure ℤ
exact_generation missing invalid reference =
    Result.◌>>=◌ (ok_or reference.version (other (text missing)))
      (λ v. ok_or (parse_i64 v) (other (text invalid)))

-- The generation of a reference that may have one.
unfoldable pub optional_generation : Option Text → Result Failure (Option ℤ)
optional_generation none = ok none
optional_generation (some v) = elim (parse_i64 v) [
  | none ↦ err (other (text "Invalid GCS generation"))
  | some generation ↦ ok (some generation)
]

module _ {W : Type 0} (machine : Machine W) (s : MediaStorage W) where
  unfoldable pub gcs_stat : Text → Exec W Failure (Option StoredObject)
  gcs_stat key = do
    gcs ← lift (gcs_of s)
    answering (stat_answer s.gcs_bucket key) (gcs.get_object s.gcs_bucket key)

  b2_stat : Text → Exec W Failure (Option StoredObject)
  b2_stat key = do b2 ← lift (b2_of s); b2.stat key

  unfoldable pub stat : Text → Exec W Failure (Option StoredObject)
  unfolding b2_stat
  stat key = elim s.mode [
    | WriteMode.gcs ↦ gcs_stat key
    | WriteMode.b2 ↦ b2_stat key
    | dual ↦ gcs_stat key
  ]

  unfoldable pub read_gcs : ObjectRef → Exec W Failure Bytes
  read_gcs reference = do
    lift (
        refuse_if (not (str_eq reference.bucket s.gcs_bucket)) (other (text "GCS bucket mismatch")))
    generation ← lift (optional_generation reference.version)
    gcs ← lift (gcs_of s)
    call (failure "GCS media read failed")
        (gcs.download_object reference.bucket reference.key generation)

  unfoldable pub read_b2 : ObjectRef → Exec W Failure Bytes
  read_b2 reference = do b2 ← lift (b2_of s); b2.read reference

  unfoldable pub read_ref : ObjectRef → Exec W Failure Bytes
  unfolding read_gcs read_b2
  read_ref reference = elim reference.provider [
    | StorageProvider.gcs ↦ read_gcs reference
    | StorageProvider.b2 ↦ read_b2 reference
  ]

  unfoldable pub read : Text → Exec W Failure Bytes
  read key = do
    found ← stat key
    object ← lift (ok_or found (other (text "Media object not found")))
    bytes ← read_ref object.reference
    lift (
        refuse_if (not (length bytes == object.size)) (other (text "Stored media length mismatch")))
    pure bytes

  stream_gcs : ObjectRef → Exec W Failure (List (Result Failure Bytes))
  stream_gcs reference = do
    lift (
        refuse_if (not (str_eq reference.bucket s.gcs_bucket)) (other (text "GCS bucket mismatch")))
    generation ←
        lift (exact_generation "Exact GCS generation required" "Invalid GCS generation" reference)
    gcs ← lift (gcs_of s)
    stream ←
        call (failure "GCS media stream failed")
          (gcs.download_streamed_object reference.bucket reference.key generation)
    pure (map (Result.map_err (failure "GCS media body failed")) stream)

  stream_b2 : ObjectRef → Exec W Failure (List (Result Failure Bytes))
  stream_b2 reference = do b2 ← lift (b2_of s); b2.stream reference

  unfoldable pub stream_ref : ObjectRef → Exec W Failure (List (Result Failure Bytes))
  unfolding stream_gcs stream_b2
  stream_ref reference = elim reference.provider [
    | StorageProvider.gcs ↦ stream_gcs reference
    | StorageProvider.b2 ↦ stream_b2 reference
  ]

  -- The check that both passes of a comparison end with.
  unfoldable pub same_bytes : String → Bytes → Bytes → ℕ → Result Failure Unit
  same_bytes message expected got total =
      refuse_if
        (not (total == length expected)
          || not (str_eq (machine.sha256 got) (machine.sha256 expected)))
        (other (text message))

  unfoldable pub second_copy : Text → Bytes → Exec W Failure Bytes
  second_copy key bytes = do
    b2 ← lift (b2_of s)
    found ← b2.stat key
    copy ← lift (ok_or found (other (text "B2 copy missing")))
    lift (
        refuse_if (not (copy.size == length bytes))
          (other (text "Dual storage copies differ in size")))
    stream ← stream_ref copy.reference
    got ← lift (bounded "Dual storage copies differ in size" stream (length bytes) [] 0)
    lift (same_bytes "Dual storage copies failed integrity verification" bytes got.0 got.1)
    pure bytes

  unfoldable pub read_verified : Text → Exec W Failure Bytes
  read_verified key = do
    bytes ← read key
    if not (is_dual s.mode) then pure bytes else second_copy key bytes

  unfoldable pub verify_gcs : ObjectRef → Bytes → Exec W Failure Unit
  verify_gcs reference bytes = do
    generation ← lift (exact_generation "Exact generation required" "invalid digit" reference)
    gcs ← lift (gcs_of s)
    stream ←
        call (failure "GCS verification read failed")
          (gcs.download_streamed_object reference.bucket reference.key generation)
    got ← lift (
        bounded "GCS stored media length mismatch"
          (map (Result.map_err (failure "GCS verification body failed")) stream) (length bytes) []
          0)
    lift (same_bytes "Stored media integrity verification failed" bytes got.0 got.1)

  verify_b2 : ObjectRef → Bytes → Exec W Failure Unit
  verify_b2 reference bytes = do b2 ← lift (b2_of s); b2.verify reference bytes

  unfoldable pub verify : ObjectRef → Bytes → Exec W Failure Unit
  unfolding verify_b2
  verify reference bytes =
      if same_provider reference.provider StorageProvider.b2
      then verify_b2 reference bytes
      else verify_gcs reference bytes

  -- The file is hashed, and then the stream.
  unfoldable pub verify_stream : List (Result Failure Bytes) → Text → Exec W Failure Unit
  verify_stream stream path = do
    machine.open_file path
    expected ← machine.file_len path
    local ← machine.read_file path
    lift (
        refuse_if (not (length local == expected))
          (other (text "Upload source changed while hashing")))
    got ← lift (bounded "Stored media length mismatch" stream expected [] 0)
    lift (same_bytes "Stored media integrity verification failed" local got.0 got.1)
