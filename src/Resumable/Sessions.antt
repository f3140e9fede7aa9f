-- ===== src/Resumable/Sessions.antt =====
-- `ResumableManager` of src/resumable.rs: its fields, the checks of a request, and what its methods
-- share: the session lock, the removal of expired sessions and the authorization of a client.
use divine_upload_server.Prelude.{
  ℕ, ◌+◌, min, Bool, true, false, not, ◌||◌, Option, none, some, List, [], ◌∷◌, ◌++◌, leb, ◌==◌,
  if◌then◌else◌, all, reverse, length,
}
use divine_upload_server.Result.{Result, ok, err, ok_or}
use divine_upload_server.Exec.{
  Exec, pure, raise, lift, act, effect, call, ignore, ◌>>=◌, ◌>>◌, holding,
}
use divine_upload_server.Text.{
  Text, text, str_eq, trim, strip_prefix, starts_with, byte_len, is_ascii_hexdigit,
}
use divine_upload_server.Text.Decimal.{max_u64}
use divine_upload_server.MediaType
use divine_upload_server.Resumable.Data.{
  ResumableUploadInitRequest, UploadSessionStatus, UploadSession, ResumableError, unauthorized,
  bad_request, not_found, gone,
}
use divine_upload_server.Resumable.Traits.{
  Failure, internal_error, Bytes, SessionStore, ResumableBackend, SessionOutbox, Host,
}

pub record ResumableManager (W : Type 0) : Type 0 where
  pub backend : ResumableBackend W
  pub store : SessionStore W
  pub upload_base_url : Text
  pub cdn_base_url : Text
  pub chunk_size : ℕ
  pub session_ttl_secs : ℕ
  pub outbox : Option (SessionOutbox W)

unfoldable pub drop_slashes : Text → Text
drop_slashes [] = []
drop_slashes (c ∷ s) = if c == b'/' then drop_slashes s else c ∷ s

-- `trim_end_matches('/')`
unfoldable pub trim_end_slashes : Text → Text
unfolding drop_slashes
trim_end_slashes s = reverse (drop_slashes (reverse s))

-- `new` and `with_outbox`
unfoldable pub new :
    {W : Type 0} → ResumableBackend W → SessionStore W → Text → Text → ℕ → ℕ → ResumableManager W
unfolding trim_end_slashes
new backend store upload_base_url cdn_base_url chunk_size session_ttl_secs = record {
  backend = backend;
  store = store;
  upload_base_url = trim_end_slashes upload_base_url;
  cdn_base_url = trim_end_slashes cdn_base_url;
  chunk_size = chunk_size;
  session_ttl_secs = session_ttl_secs;
  outbox = none;
}

unfoldable pub with_outbox :
    {W : Type 0} → ResumableManager W → Option (SessionOutbox W) → ResumableManager W
with_outbox m outbox = record m { outbox = outbox }

unfoldable pub validate_init_request : ResumableUploadInitRequest → Result ResumableError Unit
validate_init_request request =
    if request.size == 0
    then err (bad_request (text "Upload size must be greater than zero"))
    else if byte_len (trim request.content_type) == 0
    then err (bad_request (text "Content type is required"))
    else if not (byte_len request.sha256 == 64) || not (all is_ascii_hexdigit request.sha256)
    then err (bad_request (text "sha256 must be a 64-character hexadecimal string"))
    else ok tt

unfoldable pub parse_bearer_token : Option Text → Option Text
parse_bearer_token none = none
parse_bearer_token (some value) = strip_prefix (text "Bearer ") value

unfoldable pub is_video_content_type : Text → Bool
is_video_content_type content_type = starts_with (text "video/") (MediaType.normalize content_type)

-- `size.saturating_add(chunk.len())`, and `hasher.update` as one more piece of the input.
unfoldable pub hash_stream : List (Result Failure Bytes) → Bytes → ℕ → Result Failure (Bytes × ℕ)
hash_stream [] input size = ok (input, size)
hash_stream (err e ∷ rest) input size = err e
hash_stream (ok chunk ∷ rest) input size =
    hash_stream rest (input ++ chunk) (min (size + length chunk) max_u64)

abbrev pub is_some {ℓ} : {A : Type ℓ} → Option A → Bool
is_some none = false
is_some (some a) = true

-- `.map_err(internal_error)?`
abbrev pub service : {W A : Type 0} → Exec W Failure A → Exec W ResumableError A
service = call internal_error

module _ {W : Type 0} (m : ResumableManager W) (host : Host W) where
  unfoldable pub locked : {A : Type 0} → Text → Exec W ResumableError A → Exec W ResumableError A
  locked upload_id = holding (service (m.store.lock upload_id)) (m.store.unlock upload_id)

  unfoldable pub session_status : UploadSession → UploadSessionStatus
  session_status s = record {
    next_offset = s.next_offset;
    declared_size = s.declared_size;
    expires_at = host.rfc3339 s.expires_at_epoch_secs;
    chunk_size = if s.chunk_size == 0 then m.chunk_size else s.chunk_size;
  }

  unfoldable pub forget_receipt : Option (SessionOutbox W) → UploadSession → Exec W Failure Unit
  forget_receipt none s = pure tt
  forget_receipt (some outbox) s = outbox.forget_session_receipt s.upload_id

  -- Each early `return` drops the error, as `ignore` does.
  unfoldable pub cleanup_expired_session : UploadSession → W → W
  cleanup_expired_session s = ignore do
    if is_some s.finalized_object
        then pure tt
        else do m.backend.cancel_session s; m.backend.delete_object s.temp_object
    forget_receipt m.outbox s
    m.store.delete s.upload_id

  unfoldable pub expired : UploadSession → {A : Type 0} → Exec W ResumableError A
  expired s = do effect (cleanup_expired_session s); raise (gone (text "Upload session expired"))

  unfoldable pub find_session : Text → Exec W ResumableError UploadSession
  find_session upload_id = do
    found ← service (m.store.load upload_id)
    lift (ok_or found (not_found (text "Upload session not found")))

  unfoldable pub check_token : UploadSession → Option Text → Exec W ResumableError UploadSession
  check_token s authorization = do
    token ← lift (
        ok_or (parse_bearer_token authorization)
          (unauthorized (text "Bearer upload token required")))
    if str_eq token s.session_token
        then pure s
        else raise (unauthorized (text "Invalid upload session token"))

  unfoldable pub authorize_session : Text → Option Text → Exec W ResumableError UploadSession
  authorize_session upload_id authorization = do
    s ← find_session upload_id
    now ← act host.now_epoch_secs
    if leb s.expires_at_epoch_secs now then expired s else check_token s authorization
