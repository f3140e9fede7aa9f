-- ===== src/Resumable/Completion.antt =====
-- `complete_session` and `abort_session` of src/resumable.rs.
use divine_upload_server.Prelude.{
  ℕ, Bool, true, false, not, Option, none, some, [], ◌++◌, leb, ◌==◌, if◌then◌else◌,
}
use divine_upload_server.Result.{Result, ok, err, ok_or, is_err, refuse_if}
use divine_upload_server.Result
use divine_upload_server.Exec.{
  Exec, pure, raise, lift, act, effect, call, ignore, ◌>>=◌, ◌>>◌, holding,
}
use divine_upload_server.Text.{Text, text, str_eq}
use divine_upload_server.Text.Decimal.{show}
use divine_upload_server.Resources.{message, check_size}
use divine_upload_server.Resumable.Data.{
  CompleteUploadResponse, UploadSession, ResumableError, unauthorized, conflict,
  unprocessable_entity, payload_too_large, unavailable,
}
use divine_upload_server.Resumable.Traits.{Failure, SessionOutbox, Host}
use divine_upload_server.Resumable.Sessions.{
  ResumableManager, is_video_content_type, hash_stream, is_some, service, locked, expired,
  find_session, authorize_session,
}

-- The session after its bytes are verified and stored.
unfoldable pub finalized : UploadSession → UploadSession
finalized s = record s { storage_complete = true; finalized_object = some s.final_sha256 }

module _ {W : Type 0} (m : ResumableManager W) (host : Host W) where
  unfoldable pub hash_temp_object : Text → Exec W Failure (Text × ℕ)
  hash_temp_object object_key = do
    stream ← m.backend.stream_object object_key
    total ← lift (hash_stream stream [] 0)
    pure (host.hex (host.sha256 total.0), total.1)

  unfoldable pub build_complete_upload_response : Text → ℕ → Text → Bool → CompleteUploadResponse
  build_complete_upload_response sha256 size content_type newly_stored =
      let canonical_url = m.cdn_base_url ++ (text "/" ++ sha256) in
      record {
        sha256 = sha256;
        size = size;
        content_type = content_type;
        thumbnail_url = none;
        dim = none;
        url = canonical_url;
        fallback_url = some canonical_url;
        thumbnail = none;
        streaming =
            if is_video_content_type content_type
            then some (record {
              hls_url = none;
              mp4_url = none;
              thumbnail_url = none;
              status = some (text "processing");
            })
            else none;
        newly_stored = newly_stored;
      }

  unfoldable pub response_of : UploadSession → Bool → CompleteUploadResponse
  response_of s = build_complete_upload_response s.final_sha256 s.declared_size s.content_type

  unfoldable pub announce : Option (SessionOutbox W) → UploadSession → Exec W ResumableError Unit
  announce none s = pure tt
  announce (some outbox) s = do
    objects ← service (m.backend.final_objects s)
    service (
        outbox.enqueue_completed_session s.upload_id s.final_sha256 s.declared_size s.owner objects)

  unfoldable pub completed_response :
      UploadSession → Bool → Exec W ResumableError CompleteUploadResponse
  completed_response s newly_stored = do announce m.outbox s; pure (response_of s newly_stored)

  unfoldable pub has_receipt : Option (SessionOutbox W) → UploadSession → Exec W ResumableError Bool
  has_receipt none s = pure false
  has_receipt (some outbox) s =
      service (outbox.has_session_receipt s.upload_id s.final_sha256 s.declared_size s.owner)

  -- A session that is already finalized: a committed receipt answers without asking storage.
  unfoldable pub replay : UploadSession → Exec W ResumableError CompleteUploadResponse
  replay s = do
    receipt ← has_receipt m.outbox s
    if receipt then pure (response_of s false) else completed_response s false

  unfoldable pub reserve_intent :
      Option (SessionOutbox W) → UploadSession → Exec W ResumableError Unit
  reserve_intent none s = pure tt
  reserve_intent (some outbox) s = service (m.backend.begin_finalization s)

  unfoldable pub discard : Text → UploadSession → W → W
  discard upload_id s w =
      ignore (m.store.delete upload_id) (ignore (m.backend.delete_object s.temp_object) w)

  -- After the save: the staged bytes are dropped and the upload is announced.
  unfoldable pub record_final : UploadSession → Bool → Exec W ResumableError CompleteUploadResponse
  record_final s newly_stored = do
    service (m.store.save (finalized s))
    effect (ignore (m.backend.delete_object s.temp_object))
    completed_response (finalized s) newly_stored

  -- Once the bytes have the declared hash and size.
  unfoldable pub store_verified : UploadSession → Exec W ResumableError CompleteUploadResponse
  store_verified s = do
    reserve_intent m.outbox s
    newly_stored ← service (m.backend.finalize s)
    record_final s newly_stored

  -- What is done under the upload permit.
  unfoldable pub verify_and_store :
      Text → UploadSession → Exec W ResumableError CompleteUploadResponse
  verify_and_store upload_id s = do
    computed ← service (hash_temp_object s.temp_object)
    if not (str_eq computed.0 s.final_sha256)
        then (do
          effect (discard upload_id s)
          raise (
              unprocessable_entity (
                text "Uploaded bytes hashed to "
                ++ (computed.0 ++ (text ", expected " ++ s.final_sha256)))))
        else (do
          lift (
              refuse_if (not (computed.1 == s.declared_size)) (
                unprocessable_entity (
                  text "Uploaded bytes totalled "
                  ++ (show computed.1 ++ (text " bytes, expected " ++ show s.declared_size)))))
          store_verified s)

  unfoldable pub finish : Text → UploadSession → Exec W ResumableError CompleteUploadResponse
  finish upload_id s = do
    lift (Result.map_err (λ e. payload_too_large (message e)) (check_size host.env s.declared_size))
    holding (call (λ e. unavailable (message e)) host.acquire) host.release
        (verify_and_store upload_id s)

  unfoldable pub complete_session : Text → Text → Exec W ResumableError CompleteUploadResponse
  complete_session upload_id owner = locked m host upload_id do
    s ← find_session m host upload_id
    lift (
        refuse_if (not (str_eq s.owner owner))
          (unauthorized (text "Upload session does not belong to the authenticated user")))
    now ← act host.now_epoch_secs
    if leb s.expires_at_epoch_secs now then expired m host s else (do
      lift (
          refuse_if (not (s.next_offset == s.declared_size)) (
            conflict (
              text "Upload incomplete: "
              ++ (show s.next_offset
                  ++ (text " of " ++ (show s.declared_size ++ text " bytes committed"))))))
      if is_some s.finalized_object then replay s else finish upload_id s)

  unfoldable pub abort_session : Text → Option Text → Exec W ResumableError Unit
  abort_session upload_id authorization = locked m host upload_id do
    s ← authorize_session m host upload_id authorization
    lift (
        refuse_if (is_some s.finalized_object) (conflict (text "Upload session already finalized")))
    service (m.backend.cancel_session s)
    effect (ignore (m.backend.delete_object s.temp_object))
    service (m.store.delete upload_id)
