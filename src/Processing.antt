-- ===== src/Processing.antt =====
-- src/processing.rs: the event that announces stored media, and its identity.
use divine_upload_server.Prelude.{
  ℕ, Bool, not, ◌&&◌, ◌||◌, Option, none, some, List, [], leb, ◌==◌, if◌then◌else◌,
}
use divine_upload_server.Result.{Result, ok, refuse_if, ◌>>◌}
use divine_upload_server.Text.{
  Text, text, str_eq, byte_len, all_bytes, is_ascii_digit, is_ascii_hexdigit,
}
use divine_upload_server.Storage.Objects.{ObjectRef}

pub record MediaFinalizedV1 : Type 0 where
  pub schema_version : ℕ
  pub job_id : Text
  pub source : ObjectRef
  pub replicas : List ObjectRef
  pub sha256 : Text
  pub size : ℕ
  pub content_type : Text
  pub owner : Option Text
  pub pipeline_version : ℕ

-- SHA-256, hexadecimal and the JSON encodings of what is hashed are functions of other crates.
pub record Encoding : Type 0 where
  pub digest : List ℕ → List ℕ
  pub hex : List ℕ → Text
  pub json_reference : ObjectRef → List ℕ
  pub json_event : ℕ → ObjectRef → List ObjectRef → Option Text → List ℕ
  pub json_work : Text → ℕ → ObjectRef → List ℕ

-- The bytes of a lower-case hexadecimal string.
unfoldable pub is_lower_hexdigit : ℕ → Bool
is_lower_hexdigit c = is_ascii_digit c || leb b'a' c && leb c b'f'

unfoldable pub version_or_empty : ObjectRef → Text
version_or_empty r = elim r.version [ none ↦ [] | some v ↦ v ]

unfoldable pub refresh_job_id : Encoding → MediaFinalizedV1 → MediaFinalizedV1
refresh_job_id e event = record event {
  job_id =
      e.hex
        (e.digest (e.json_event event.pipeline_version event.source event.replicas event.owner));
}

unfoldable pub is_empty : Text → Bool
is_empty s = byte_len s == 0

abbrev pub is_hash_invalid : Text → ObjectRef → Bool
is_hash_invalid hash source =
    not (byte_len hash == 64)
    || not (all_bytes is_lower_hexdigit hash)
    || not (str_eq source.key hash)

abbrev pub is_metadata_incomplete : Text → Text → ObjectRef → Bool
is_metadata_incomplete content_type owner source =
    (not (is_empty owner)
      && (not (byte_len owner == 64) || not (all_bytes is_ascii_hexdigit owner)))
    || is_empty content_type
    || is_empty source.bucket
    || is_empty (version_or_empty source)

abbrev pub event_with : Text → ℕ → Text → Text → ObjectRef → MediaFinalizedV1
event_with hash size content_type owner source = record {
  schema_version = 1;
  job_id = [];
  source = source;
  replicas = [];
  sha256 = hash;
  size = size;
  content_type = content_type;
  owner = if is_empty owner then none else some owner;
  pipeline_version = 1;
}

-- `MediaFinalizedV1::new`
unfoldable pub new_event :
    Encoding → Text → ℕ → Text → Text → ObjectRef → Result Text MediaFinalizedV1
new_event e hash size content_type owner source = do
  refuse_if (is_hash_invalid hash source) (text "processing source hash is invalid")
  refuse_if (is_metadata_incomplete content_type owner source)
      (text "processing source metadata is incomplete")
  ok (refresh_job_id e (event_with hash size content_type owner source))
