-- ===== src/Resumable/Contract.antt =====
-- What the manager relies on in its session store, as a view of the world: the session that is
-- stored under an identifier. A save or a delete that fails may still have happened, and a store
-- may give a saved session a revision of its own. No other call touches a stored session.
use divine_upload_server.Prelude.{ℕ, ◌≡◌, ◌⊎◌, Option, none, some, List}
use divine_upload_server.Result.{ok}
use divine_upload_server.Exec.{Exec}
use divine_upload_server.Text.{Text}
use divine_upload_server.Storage.Objects.{ObjectRef}
use divine_upload_server.Resumable.Data.{UploadSession, ContentRange}
use divine_upload_server.Resumable.Traits.{
  SessionStore, ResumableBackend, SessionOutbox, Host, Bytes,
}
use divine_upload_server.Resumable.Sessions.{ResumableManager}

abbrev pub Sessions : Type 0 → Type 0
Sessions W = W → Text → Option UploadSession

-- A change of the world that no reader of the sessions can see.
abbrev pub Quiet : {W : Type 0} → Sessions W → (W → W) → Type 0
Quiet {W} at f = (w : W) (id : Text) → at (f w) id ≡ at w id

abbrev pub QuietCall : {W E A : Type 0} → Sessions W → Exec W E A → Type 0
QuietCall at m = Quiet at (λ w. (m w).1)

pub record StoreLaws {W : Type 0} (store : SessionStore W) (at : Sessions W) : Type 0 where
  pub lock_quiet : (id : Text) → QuietCall at (store.lock id)
  pub unlock_quiet : (id : Text) → Quiet at (store.unlock id)
  pub load_quiet : (id : Text) → QuietCall at (store.load id)
  pub load_reads :
      (id : Text) (w : W) (o : Option UploadSession) → (store.load id w).0 ≡ ok o → at w id ≡ o
  pub keyed : (w : W) (id : Text) (s : UploadSession) → at w id ≡ some s → s.upload_id ≡ id
  pub save_effect :
      (s : UploadSession) (w : W) (id : Text)
      → (at (store.save s w).1 id ≡ at w id)
        ⊎ ((id ≡ s.upload_id)
            × ((r : ℕ) × (at (store.save s w).1 id ≡ some (record s { revision = r }))))
  pub save_done :
      (s : UploadSession) (w : W)
      → (store.save s w).0 ≡ ok tt
      → (r : ℕ) × (at (store.save s w).1 s.upload_id ≡ some (record s { revision = r }))
  pub delete_effect :
      (gone : Text) (w : W) (id : Text)
      → (at (store.delete gone w).1 id ≡ at w id)
        ⊎ ((id ≡ gone) × (at (store.delete gone w).1 id ≡ none))

pub record BackendLaws {W : Type 0} (backend : ResumableBackend W) (at : Sessions W) : Type 0 where
  pub retry_quiet :
      (s : UploadSession) (r : ContentRange) (c : Bytes)
      → QuietCall at (backend.is_committed_retry s r c)
  pub objects_quiet : (s : UploadSession) → QuietCall at (backend.final_objects s)
  pub begin_quiet : (s : UploadSession) → QuietCall at (backend.begin_finalization s)
  pub finalize_quiet : (s : UploadSession) → QuietCall at (backend.finalize s)
  pub create_quiet :
      (id owner content_type : Text) (size : ℕ)
      → QuietCall at (backend.create_session id owner content_type size)
  pub chunk_quiet :
      (s : UploadSession) (r : ContentRange) (c : Bytes) → QuietCall at (backend.upload_chunk s r c)
  pub cancel_quiet : (s : UploadSession) → QuietCall at (backend.cancel_session s)
  pub stream_quiet : (key : Text) → QuietCall at (backend.stream_object key)
  pub delete_quiet : (key : Text) → QuietCall at (backend.delete_object key)

pub record OutboxLaws {W : Type 0} (outbox : SessionOutbox W) (at : Sessions W) : Type 0 where
  pub receipt_quiet :
      (id hash : Text) (size : ℕ) (owner : Text)
      → QuietCall at (outbox.has_session_receipt id hash size owner)
  pub enqueue_quiet :
      (id hash : Text) (size : ℕ) (owner : Text) (objects : List ObjectRef)
      → QuietCall at (outbox.enqueue_completed_session id hash size owner objects)
  pub forget_quiet : (id : Text) → QuietCall at (outbox.forget_session_receipt id)

pub record HostLaws {W : Type 0} (host : Host W) (at : Sessions W) : Type 0 where
  pub now_quiet : Quiet at (λ w. (host.now_epoch_secs w).1)
  pub random_quiet : (n : ℕ) → Quiet at (λ w. (host.random_bytes n w).1)
  pub acquire_quiet : QuietCall at host.acquire
  pub release_quiet : Quiet at host.release

abbrev pub OptionLaws : {W : Type 0} → Option (SessionOutbox W) → Sessions W → Type 0
OptionLaws none at = Unit
OptionLaws (some outbox) at = OutboxLaws outbox at

pub record Contract {W : Type 0} (m : ResumableManager W) (host : Host W) (at : Sessions W)
    : Type 0 where
  pub store : StoreLaws m.store at
  pub backend : BackendLaws m.backend at
  pub outbox : OptionLaws m.outbox at
  pub host_quiet : HostLaws host at
