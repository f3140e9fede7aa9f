-- ===== src/Provider/Store.antt =====
-- `ProviderSessionStore` of src/resumable_storage.rs: sessions by compare-and-set on a revision, with
-- tombstones of those that were deleted.
use divine_upload_server.Prelude.{
  ℕ, ◌+◌, Bool, not, ◌&&◌, Option, none, some, [], ◌∷◌, ◌++◌, ◌==◌, leb, map, if◌then◌else◌,
}
use divine_upload_server.Query.{filter}
use divine_upload_server.Query.Keyed.{placed}
use divine_upload_server.Result.{ok_or, refuse_if}
use divine_upload_server.Exec.{Exec, pure, lift, ◌>>=◌, ◌>>◌}
use divine_upload_server.Text.{Text, text, str_eq}
use divine_upload_server.Text.Signed.{max_i64}
use divine_upload_server.Resumable.Data.{UploadSession}
use divine_upload_server.Resumable.Traits.{Failure, other, session_busy, SessionStore}
use divine_upload_server.Provider.Tables.{
  Coordination, SessionRow, session_key, find_session, is_deleted, Database, statement, reading,
}

-- The advisory lock of a session, on a connection of its own: whether it was free.
pub record Locks (W : Type 0) : Type 0 where
  pub try_lock : Text → Exec W Failure Bool
  pub unlock : Text → W → W

-- `database_url` is given when the locks are.
pub record ProviderSessionStore (W : Type 0) : Type 0 where
  pub database : Option (Database W)
  pub locks : Option (Locks W)
  pub legacy : Option (SessionStore W)

abbrev pub with_revision : SessionRow → UploadSession
with_revision r = record r.state { revision = r.revision }

-- The insert of a session of revision 0, and the update of one that has the revision still; the count of
-- rows.
unfoldable pub insert_session : UploadSession → Coordination → ℕ × Coordination
insert_session s t = elim (find_session s.upload_id t.sessions) [
  | none ↦ if is_deleted s.upload_id t then (0, t) else (
    1,
    record t {
      sessions =
          t.sessions
          ++ record { revision = s.revision + 1; state = s; cleanup_checked_at = 0 } ∷ [];
    },
  )
  | some row ↦ (0, t)
]

unfoldable pub update_session : UploadSession → Coordination → ℕ × Coordination
update_session s t = elim (find_session s.upload_id t.sessions) [
  | none ↦ (0, t)
  | some row ↦
      if row.revision == s.revision && not (is_deleted s.upload_id t)
      then (
        1,
        record t {
          sessions =
              map (placed session_key (record row { revision = s.revision + 1; state = s }))
                t.sessions;
        },
      )
      else (0, t)
]

unfoldable pub write_session : UploadSession → Coordination → ℕ × Coordination
write_session s t = if s.revision == 0 then insert_session s t else update_session s t

-- A tombstone, also where there was no session.
unfoldable pub bury : Text → Coordination → Coordination
bury id t = record t {
  sessions = filter (λ r. not (str_eq (session_key r) id)) t.sessions;
  tombstones = if is_deleted id t then t.tombstones else t.tombstones ++ id ∷ [];
}

module _ {W : Type 0} (store : ProviderSessionStore W) where
  unfoldable pub load_legacy : Text → Exec W Failure (Option UploadSession)
  load_legacy id = elim store.legacy [ none ↦ pure none | some legacy ↦ legacy.load id ]

  unfoldable pub load_row : Database W → Text → Exec W Failure (Option UploadSession)
  load_row db id = do
    row ← statement db (text "Session lookup failed") (reading λ t. find_session id t.sessions)
    elim row [ some row ↦ pure (some (with_revision row)) | none ↦ load_legacy id ]

  unfoldable pub load : Text → Exec W Failure (Option UploadSession)
  load id = elim store.database [
    | none ↦ load_legacy id
    | some db ↦ do
      deleted ← statement db (text "Session deletion lookup failed") (reading (is_deleted id))
      if deleted then pure none else load_row db id
  ]

  unfoldable pub save_row : Database W → UploadSession → Exec W Failure Unit
  save_row db s = do
    lift (refuse_if (leb max_i64 s.revision) (other (text "Session revision exhausted")))
    changed ← statement db (text "Session persistence failed") (write_session s)
    lift (refuse_if (not (changed == 1)) (other (text "Session changed concurrently; retry")))

  unfoldable pub save : UploadSession → Exec W Failure Unit
  save s = elim store.database [
    | some db ↦ save_row db s
    | none ↦ do
      legacy ← lift (ok_or store.legacy (other (text "Session storage unavailable")))
      legacy.save s
  ]

  unfoldable pub delete : Text → Exec W Failure Unit
  delete id = elim store.database [
    | some db ↦ statement db (text "Session cleanup failed") (λ t. (tt, bury id t))
    | none ↦ elim store.legacy [ none ↦ pure tt | some legacy ↦ legacy.delete id ]
  ]

  unfoldable pub lock : Text → Exec W Failure Unit
  lock id = elim store.locks [
    | none ↦ pure tt
    | some locks ↦ do locked ← locks.try_lock id; lift (refuse_if (not locked) session_busy)
  ]

  unfoldable pub unlock : Text → W → W
  unlock id w = elim store.locks [ none ↦ w | some locks ↦ locks.unlock id w ]

  -- The implementation of `SessionStore`.
  abbrev pub session_store : SessionStore W
  session_store = record { lock = lock; unlock = unlock; load = load; save = save; delete = delete }
