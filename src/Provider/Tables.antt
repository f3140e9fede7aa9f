-- ===== src/Provider/Tables.antt =====
-- The tables of database/migrations/001_upload_coordination.sql, as lists of rows, in a world that a
-- statement may fail to reach.
use divine_upload_server.Prelude.{ℕ, Bool, Option, List, any, if◌then◌else◌}
use divine_upload_server.Query.{first}
use divine_upload_server.Result.{ok, err}
use divine_upload_server.Exec.{Exec}
use divine_upload_server.Text.{Text, str_eq}
use divine_upload_server.Text.Signed.{ℤ}
use divine_upload_server.Storage.Objects.{ObjectRef}
use divine_upload_server.Resumable.Data.{UploadSession}
use divine_upload_server.Resumable.Traits.{Failure, other}

-- A row of upload_sessions; its key is the `upload_id` of its state, with which alone rows are written.
pub record SessionRow : Type 0 where
  pub revision : ℕ
  pub state : UploadSession
  pub cleanup_checked_at : ℕ

pub record ChunkRow : Type 0 where
  pub temp_key : Text
  pub start_offset : ℤ
  pub end_offset : ℤ
  pub sha256 : Text
  pub objects : List ObjectRef

pub record FinalRow : Type 0 where
  pub temp_key : Text
  pub objects : List ObjectRef

pub record Coordination : Type 0 where
  pub sessions : List SessionRow
  pub tombstones : List Text
  pub chunks : List ChunkRow
  pub finals : List FinalRow

abbrev pub session_key : SessionRow → Text
session_key r = r.state.upload_id

unfoldable pub find_session : Text → List SessionRow → Option SessionRow
find_session id = first (λ r. str_eq (session_key r) id)

unfoldable pub is_deleted : Text → Coordination → Bool
is_deleted id t = any (λ gone. str_eq gone id) t.tombstones

-- The database: its tables in the world, and whether the next statement reaches it.
pub record Database (W : Type 0) : Type 0 where
  pub tables : W → Coordination
  pub set : Coordination → W → W
  pub available : W → Bool × W

-- A statement, which commits by itself, or fails and changes nothing.
unfoldable pub statement :
    {W A : Type 0} → Database W → Text → (Coordination → A × Coordination) → Exec W Failure A
statement db message f w =
    let (up, w') = db.available w in
    if up
    then (ok (f (db.tables w')).0, db.set (f (db.tables w')).1 w')
    else (err (other message), w')

abbrev pub reading : {A : Type 0} → (Coordination → A) → Coordination → A × Coordination
reading f t = (f t, t)
