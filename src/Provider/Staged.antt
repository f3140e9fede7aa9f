-- ===== src/Provider/Staged.antt =====
-- The staged chunks of src/resumable_storage.rs: where an upload is staged, and how its chunks become
-- one file.
use divine_upload_server.Prelude.{
  ℕ, ◌+◌, ◌-◌, Bool, true, false, not, ◌||◌, Option, none, some, List, [], ◌∷◌, ◌==◌, leb, ltb,
  length,
}
use divine_upload_server.Query.{filter, order_by}
use divine_upload_server.Result.{Result, ok_or, refuse_if, map_err}
use divine_upload_server.Exec.{Exec, pure, lift, ◌>>=◌, ◌>>◌}
use divine_upload_server.Text.{Text, text, str_eq}
use divine_upload_server.Text.Decimal.{max_u64}
use divine_upload_server.Text.Signed.{ℤ, pos, negsuc, as_u64}
use divine_upload_server.Resources.{Env, message, check_size}
use divine_upload_server.Storage.Objects.{ObjectRef}
use divine_upload_server.Storage.Media.{Machine, MediaStorage}
use divine_upload_server.Storage.Reads.{read_ref}
use divine_upload_server.Resumable.Traits.{Failure, other, Bytes, ResumableBackend}
use divine_upload_server.Provider.Identity.{staged_store}
use divine_upload_server.Provider.Tables.{Coordination, ChunkRow, Database, statement, reading}

-- Temporary files, by their path.
pub record TempFiles (W : Type 0) : Type 0 where
  pub create : Exec W Failure Text
  pub append : Text → Bytes → Exec W Failure Unit
  pub sync : Text → Exec W Failure Unit

-- The older backend, with the two calls of the trait that its `finalize` makes.
pub record LegacyBackend (W : Type 0) : Type 0 where
  pub backend : ResumableBackend W
  pub object_exists : Text → Exec W Failure Bool
  pub copy_to_final : Text → Text → Text → Text → Exec W Failure Unit

pub record MediaResumableBackend (W : Type 0) : Type 0 where
  pub storage : MediaStorage W
  pub legacy : Option (LegacyBackend W)
  pub database : Option (Database W)

-- What the backend asks of its host: files, the machine of the storage, hexadecimal and the settings.
pub record Surroundings (W : Type 0) : Type 0 where
  pub files : TempFiles W
  pub machine : Machine W
  pub hex : Bytes → Text
  pub env : Env

-- `start<0 || end<start || start as u64 != offset`
unfoldable pub is_gap : ℤ → ℤ → ℕ → Bool
is_gap (negsuc n) end offset = true
is_gap (pos a) (negsuc n) offset = true
is_gap (pos a) (pos b) offset = ltb b a || not (a == offset)

-- `end - start + 1` of a range that has no gap before it
unfoldable pub span : ℤ → ℤ → ℕ
span (pos a) (pos b) = b - a + 1
span _ _ = 0

unfoldable pub before_i64 : ℤ → ℤ → Bool
before_i64 (pos a) (pos b) = leb a b
before_i64 (negsuc a) (pos b) = true
before_i64 (pos a) (negsuc b) = false
before_i64 (negsuc a) (negsuc b) = leb b a

unfoldable pub chunks_of : Text → Coordination → List ChunkRow
chunks_of key t =
    order_by (λ a b. before_i64 a.start_offset b.start_offset)
      (filter (λ r. str_eq r.temp_key key) t.chunks)

abbrev first_reference : List ObjectRef → Option ObjectRef
first_reference [] = none
first_reference (r ∷ rs) = some r

module _ {W : Type 0} (host : Surroundings W) (b : MediaResumableBackend W) where
  abbrev pub legacy_of : Result Failure (LegacyBackend W)
  legacy_of = ok_or b.legacy (other (text "Legacy GCS session requires GCS compatibility"))

  abbrev pub database_of : Result Failure (Database W)
  database_of = ok_or b.database (other (text "Upload coordination unavailable"))

  abbrev pub staged : Text → Result Failure (MediaStorage W)
  staged = staged_store host.hex b.storage

  abbrev pub sized : ℕ → Result Failure Unit
  sized size = map_err (λ e. other (message e)) (check_size host.env size)

  abbrev pub digest : Bytes → Text
  digest bytes = host.hex (host.machine.sha256 bytes)

  -- The loop over the chunks of an upload, at an offset of the file.
  unfoldable pub assemble : Text → List ChunkRow → ℕ → Exec W Failure Unit
  assemble path [] offset = pure tt
  assemble path (row ∷ rows) offset = do
    lift (
        refuse_if (is_gap row.start_offset row.end_offset offset)
          (other (text "Upload chunks are not contiguous")))
    lift (sized (as_u64 row.end_offset + 1))
    reference ←
        lift (
          ok_or (first_reference row.objects)
            (other (text "Upload chunk has no storage reference")))
    bytes ← read_ref host.machine b.storage reference
    lift (
        refuse_if
          (not (length bytes == span row.start_offset row.end_offset)
            || not (str_eq (digest bytes) row.sha256))
          (other (text "Upload chunk integrity mismatch")))
    lift (refuse_if (ltb max_u64 (offset + length bytes)) (other (text "Upload size overflow")))
    lift (sized (offset + length bytes))
    host.files.append path bytes
    assemble path rows (offset + length bytes)

  -- The path of the file.
  unfoldable pub assemble_file : Text → Exec W Failure Text
  assemble_file key = do
    path ← host.files.create
    db ← lift database_of
    rows ← statement db (text "Upload chunk lookup failed") (reading (chunks_of key))
    assemble path rows 0
    host.files.sync path
    pure path
