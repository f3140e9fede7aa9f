-- ===== src/Resumable/Traits.antt =====
-- The traits `SessionStore` and `ResumableBackend` of src/resumable.rs, the outbox calls that the
-- manager makes, and what it asks of the host. `W` is the state of everything outside the manager.
use divine_upload_server.Prelude.{ℕ, Bool, true, false, Option, List}
use divine_upload_server.Result.{Result}
use divine_upload_server.Exec.{Exec, pure, ◌>>=◌, ◌>>◌}
use divine_upload_server.Prelude.{if◌then◌else◌}
use divine_upload_server.Text.{Text, text}
use divine_upload_server.Resources.{Env, ResourceError}
use divine_upload_server.Storage.Objects.{ObjectRef}
use divine_upload_server.Resumable.Data.{
  UploadSession, ContentRange, BackendCreateSession, BackendUploadState, ResumableError,
  unavailable, conflict, internal,
}

-- An `anyhow::Error`, by what `internal_error` asks of it.
pub data Failure : Type 0 where
  session_busy intent_conflict : Failure
  other : Text → Failure

unfoldable pub internal_error : Failure → ResumableError
internal_error session_busy = unavailable (text "Upload session is busy; retry the request")
internal_error intent_conflict = conflict (
    text
      "Upload intent requires its recorded storage policy and destination mapping; retain the required providers or reconcile the intent")
internal_error (other m) = internal m

abbrev pub Bytes : Type 0
Bytes = List ℕ

-- `unlock` is the drop of the guard that `lock` returns.
pub record SessionStore (W : Type 0) : Type 0 where
  pub lock : Text → Exec W Failure Unit
  pub unlock : Text → W → W
  pub load : Text → Exec W Failure (Option UploadSession)
  pub save : UploadSession → Exec W Failure Unit
  pub delete : Text → Exec W Failure Unit

-- A stream is the list of what it yields.
pub record ResumableBackend (W : Type 0) : Type 0 where
  pub is_committed_retry : UploadSession → ContentRange → Bytes → Exec W Failure Bool
  pub final_objects : UploadSession → Exec W Failure (List ObjectRef)
  pub begin_finalization : UploadSession → Exec W Failure Unit
  pub finalize : UploadSession → Exec W Failure Bool
  pub create_session : Text → Text → Text → ℕ → Exec W Failure BackendCreateSession
  pub upload_chunk : UploadSession → ContentRange → Bytes → Exec W Failure BackendUploadState
  pub cancel_session : UploadSession → Exec W Failure Unit
  pub stream_object : Text → Exec W Failure (List (Result Failure Bytes))
  pub delete_object : Text → Exec W Failure Unit

-- The default method `finalize`, over `object_exists` and `copy_to_final`.
pub default_finalize :
    {W : Type 0}
    → (Text → Exec W Failure Bool)
    → (Text → Text → Text → Text → Exec W Failure Unit)
    → UploadSession
    → Exec W Failure Bool
default_finalize object_exists copy_to_final s = do
  exists ← object_exists s.final_sha256
  if exists
      then pure false
      else do copy_to_final s.temp_object s.final_sha256 s.content_type s.owner; pure true

pub record SessionOutbox (W : Type 0) : Type 0 where
  pub has_session_receipt : Text → Text → ℕ → Text → Exec W Failure Bool
  pub enqueue_completed_session : Text → Text → ℕ → Text → List ObjectRef → Exec W Failure Unit
  pub forget_session_receipt : Text → Exec W Failure Unit

-- The clock, the random source and the upload slots change the world; SHA-256, hexadecimal and
-- RFC 3339 printing are functions of other crates. `release` is the drop of an upload permit.
pub record Host (W : Type 0) : Type 0 where
  pub now_epoch_secs : W → ℕ × W
  pub random_bytes : ℕ → W → Bytes × W
  pub acquire : Exec W ResourceError Unit
  pub release : W → W
  pub env : Env
  pub sha256 : Bytes → Bytes
  pub hex : Bytes → Text
  pub rfc3339 : ℕ → Text
