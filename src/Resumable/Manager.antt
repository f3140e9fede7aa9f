-- ===== src/Resumable/Manager.antt =====
-- The methods of `ResumableManager` in src/resumable.rs that clients call while they upload.
use divine_upload_server.Prelude.{
  ◌+◌, ◌*◌, ◌%◌, min, Bool, true, false, not, ◌&&◌, Option, none, [], ◌∷◌, ◌++◌, ltb, ◌==◌,
  if◌then◌else◌, length,
}
use divine_upload_server.Result.{Result, ok, err, ok_or, is_err, refuse_if}
use divine_upload_server.Result
use divine_upload_server.Exec.{Exec, pure, raise, lift, act, ◌>>=◌, ◌>>◌}
use divine_upload_server.Text.{Text, text, to_ascii_lowercase}
use divine_upload_server.Text.Decimal.{show, max_u64}
use divine_upload_server.Resources.{message, check_size}
use divine_upload_server.Resumable.Data.{
  ResumableUploadInitRequest, ResumableUploadInitResponse, UploadSessionStatus, UploadSession,
  ContentRange, len, u64_mod, BackendUploadState, in_progress, completed, ResumableError, conflict,
  range_not_satisfiable, unprocessable_entity, payload_too_large,
}
use divine_upload_server.Resumable.Range.{parse_content_range}
use divine_upload_server.Resumable.Traits.{Bytes, Host}
use divine_upload_server.Resumable.Sessions.{
  ResumableManager, validate_init_request, is_some, service, locked, session_status,
  authorize_session,
}

module _ {W : Type 0} (m : ResumableManager W) (host : Host W) where
  unfoldable pub init_session :
      Text → ResumableUploadInitRequest → Exec W ResumableError ResumableUploadInitResponse
  init_session owner request = do
    lift (Result.map_err (λ e. payload_too_large (message e)) (check_size host.env request.size))
    lift (validate_init_request request)
    id_bytes ← act (host.random_bytes 12)
    token_bytes ← act (host.random_bytes 24)
    let upload_id = text "up_" ++ host.hex id_bytes
    let session_token = text "tok_" ++ host.hex token_bytes
    created ← service (m.backend.create_session upload_id owner request.content_type request.size)
    now ← act host.now_epoch_secs
    let expires = min (now + m.session_ttl_secs) max_u64
    service (
        m.store.save (record {
          revision = 0;
          chunk_size = m.chunk_size;
          upload_id = upload_id;
          owner = owner;
          final_sha256 = to_ascii_lowercase request.sha256;
          declared_size = request.size;
          content_type = request.content_type;
          file_name = request.file_name;
          expires_at_epoch_secs = expires;
          next_offset = 0;
          session_url = created.session_url;
          session_token = session_token;
          temp_object = created.temp_object;
          storage_complete = false;
          finalized_object = none;
        }))
    pure (record {
      upload_id = upload_id;
      upload_url = m.upload_base_url ++ (text "/sessions/" ++ upload_id);
      expires_at = host.rfc3339 expires;
      chunk_size = m.chunk_size;
      next_offset = 0;
      required_headers =
          (text "Authorization", text "Bearer " ++ session_token)
          ∷ (text "Content-Type", request.content_type)
          ∷ [];
      capabilities = record { resume = true; query_offset = true };
    })

  unfoldable pub head_session : Text → Option Text → Exec W ResumableError UploadSessionStatus
  head_session upload_id authorization =
      locked m host upload_id
        do s ← authorize_session m host upload_id authorization; pure (session_status m host s)

  unfoldable pub retry_chunk :
      UploadSession → ContentRange → Bytes → Exec W ResumableError UploadSessionStatus
  retry_chunk s range chunk = do
    committed ←
        if ltb range.end s.next_offset
        then service (m.backend.is_committed_retry s range chunk)
        else pure false
    if committed
        then pure (session_status m host s)
        else raise (
            range_not_satisfiable (
              text "Expected next offset "
              ++ (show s.next_offset ++ (text ", got " ++ show range.start))))

  unfoldable pub store_state : BackendUploadState → Bool → Bool
  store_state completed b = true
  store_state in_progress b = b

  -- `commit_chunk` from the backend's call on.
  unfoldable pub send_chunk :
      UploadSession → ContentRange → Bytes → Exec W ResumableError UploadSessionStatus
  send_chunk s range chunk = do
    state ← service (m.backend.upload_chunk s range chunk)
    let s' = record s {
      next_offset = (range.end + 1) % u64_mod;
      storage_complete = store_state state s.storage_complete;
    }
    service (m.store.save s')
    pure (session_status m host s')

  unfoldable pub commit_chunk :
      UploadSession → ContentRange → Bytes → Exec W ResumableError UploadSessionStatus
  commit_chunk s range chunk = do
    lift (
        refuse_if (not (len range == length chunk)) (
          range_not_satisfiable (
            text "Content-Range length "
            ++ (show (len range) ++ (text " does not match body length " ++ show (length chunk))))))
    lift (
        refuse_if
          (not ((range.end + 1) % u64_mod == s.declared_size)
            && not (len range % (256 * 1024) == 0))
          (unprocessable_entity
            (text "Chunk size must be a multiple of 256 KiB unless it completes the upload")))
    send_chunk s range chunk

  unfoldable pub upload_chunk :
      Text → Option Text → Text → Bytes → Exec W ResumableError UploadSessionStatus
  upload_chunk upload_id authorization content_range chunk = locked m host upload_id do
    s ← authorize_session m host upload_id authorization
    lift (
        refuse_if (is_some s.finalized_object) (conflict (text "Upload session already finalized")))
    range ← lift (parse_content_range content_range s.declared_size)
    if range.start == s.next_offset then commit_chunk s range chunk else retry_chunk s range chunk
