-- ===== src/Inbox/Validate.antt =====
-- The checks of src/inbox.rs on what clients and workers send.
use divine_upload_server.Prelude.{
  ℕ, Bool, false, not, ◌||◌, ◌&&◌, Option, none, some, List, [], ◌∷◌, ◌++◌, ltb, leb, ◌==◌, any,
  length,
}
use divine_upload_server.Result.{Result, ok, refuse_if, ◌>>◌}
use divine_upload_server.Text.{
  Text, text, str_eq, byte_len, all_bytes, is_ascii_hexdigit, is_ascii_alphanumeric, contains,
  contains_char, starts_with, ends_with, split,
}
use divine_upload_server.Text.Decimal.{parse_u64}
use divine_upload_server.Storage.Objects.{ObjectRef, StorageProvider, same_provider}
use divine_upload_server.Processing.{
  MediaFinalizedV1, Encoding, is_lower_hexdigit, version_or_empty, refresh_job_id, is_empty,
}

abbrev pub max_i64 : ℕ
max_i64 = 9223372036854775807

unfoldable pub is_hash : Text → Bool
is_hash value = byte_len value == 64 && all_bytes is_lower_hexdigit value

-- `version.parse::<i64>().is_ok_and(|v| v > 0)`: a positive `i64` has no minus sign, so it is read as
-- a `u64` is.
unfoldable pub is_positive_i64 : Text → Bool
is_positive_i64 s = elim (parse_u64 s) [ none ↦ false | some v ↦ ltb 0 v && leb v max_i64 ]

abbrev invalid_identity : Text
invalid_identity = text "invalid pinned storage identity"

unfoldable pub validate_reference : ObjectRef → Result Text Unit
validate_reference value = do
  let version = version_or_empty value
  refuse_if
      (not (
          (leb 3 (byte_len value.bucket) && leb (byte_len value.bucket) 222)
          && all_bytes (λ b. is_ascii_alphanumeric b || contains_char b (text "._-")) value.bucket)
        || is_empty version
        || str_eq version (text "null")
        || ltb 1024 (byte_len version)
        || contains (text "://") version
        || not (all_bytes (λ b. leb 33 b && leb b 126) version))
      invalid_identity
  refuse_if (same_provider value.provider StorageProvider.gcs && not (is_positive_i64 version))
      (text "invalid GCS generation")

unfoldable pub validate_copies : Text → List ObjectRef → Result Text Unit
validate_copies sha256 [] = ok tt
validate_copies sha256 (object ∷ objects) =
    let rest = validate_copies sha256 objects in
    do
      validate_reference object
      refuse_if (not (str_eq object.key sha256)) (text "source identity does not match content")
      rest

unfoldable pub is_bad_owner : Option Text → Bool
is_bad_owner none = false
is_bad_owner (some owner) = not (byte_len owner == 64) || not (all_bytes is_ascii_hexdigit owner)

unfoldable pub validate_event : Encoding → MediaFinalizedV1 → Text → Result Text Text
validate_event e event idempotency_key = do
  refuse_if
      (not (event.schema_version == 1)
        || event.pipeline_version == 0
        || not (is_hash event.sha256)
        || not (is_hash event.job_id)
        || not (str_eq idempotency_key event.job_id)
        || ltb max_i64 event.size
        || is_empty event.content_type
        || ltb 255 (byte_len event.content_type)
        || not (contains_char b'/' event.content_type)
        || not (all_bytes (λ b. leb 32 b && leb b 126) event.content_type)
        || is_bad_owner event.owner
        || ltb 1 (length event.replicas))
      (text "invalid finalization envelope")
  validate_copies event.sha256 (event.source ∷ event.replicas)
  refuse_if (any (λ copy. same_provider copy.provider event.source.provider) event.replicas)
      (text "duplicate storage provider")
  refuse_if (not (str_eq (refresh_job_id e event).job_id event.job_id))
      (text "finalization identity mismatch")
  ok (
      e.hex (
        e.digest
          (e.json_work (text "divine-media-processing-v1") event.pipeline_version event.source)))

-- The key that a completion marker must have for content of the hash `sha256`.
unfoldable pub is_marker_key : Text → Text → Bool
is_marker_key sha256 key =
    starts_with (text "_private/artifact-families/v1/" ++ (sha256 ++ text "/")) key
    && ends_with (text "/complete.json") key
    && leb (byte_len key) 1024
    && all_bytes (λ b. is_ascii_alphanumeric b || contains_char b (text "/_-.")) key
    && not (
        any (λ segment. is_empty segment || str_eq segment (text "..") || str_eq segment (text "."))
          (split b'/' key))
