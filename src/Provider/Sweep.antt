-- ===== src/Provider/Sweep.antt =====
-- `ResumableRuntime::sweep_expired` of src/resumable_storage.rs: a bounded page of expired sessions is
-- cleaned, each under its lock.
use divine_upload_server.Prelude.{
  ℕ, ◌+◌, Bool, true, false, not, ◌&&◌, ◌||◌, Option, none, some, List, [], ◌∷◌, ◌++◌, ◌==◌, leb,
  ltb, map, take, min, if◌then◌else◌,
}
use divine_upload_server.Query.{filter, order_by, text_le}
use divine_upload_server.Result.{Result, ok, err}
use divine_upload_server.Exec.{Exec, pure, lift, act, ◌>>=◌, ◌>>◌, holding}
use divine_upload_server.Text.{Text, text, str_eq}
use divine_upload_server.Text.Decimal.{show}
use divine_upload_server.Resumable.Data.{UploadSession}
use divine_upload_server.Resumable.Traits.{Failure, other}
use divine_upload_server.Provider.Tables.{
  Coordination, SessionRow, session_key, Database, statement, reading,
}
use divine_upload_server.Provider.Store.{ProviderSessionStore, load, delete, lock, unlock}
use divine_upload_server.Provider.Staged.{Surroundings, MediaResumableBackend}
use divine_upload_server.Provider.Backend.{is_staged_session, cancel_session, delete_object}

pub record ResumableRuntime (W : Type 0) : Type 0 where
  pub backend : MediaResumableBackend W
  pub store : ProviderSessionStore W

abbrev by_check : SessionRow → SessionRow → Bool
by_check a b =
    ltb a.cleanup_checked_at b.cleanup_checked_at
    || a.cleanup_checked_at == b.cleanup_checked_at && text_le (session_key a) (session_key b)

-- `limit.clamp(1,1000)`
unfoldable pub page_size : ℕ → ℕ
page_size limit = if limit == 0 then 1 else min limit 1000

unfoldable pub expired_page : ℕ → ℕ → Coordination → List Text
expired_page now limit t = map session_key (
    take (page_size limit)
      (order_by by_check (filter (λ r. leb r.state.expires_at_epoch_secs now) t.sessions)))

-- The session was looked at; the clock is the database's.
unfoldable pub mark_checked : Text → ℕ → Coordination → Coordination
mark_checked id now t = record t {
  sessions =
      map (λ r. if str_eq (session_key r) id then record r { cleanup_checked_at = now } else r)
        t.sessions;
}

unfoldable pub forget_final : Text → Coordination → Coordination
forget_final key t = record t { finals = filter (λ r. not (str_eq r.temp_key key)) t.finals }

abbrev is_absent : Option Text → Bool
is_absent none = true
is_absent (some a) = false

abbrev forget : {W : Type 0} → Option (Text → Exec W Failure Unit) → Text → Exec W Failure Unit
forget none id = pure tt
forget (some f) id = f id

-- What a sweep works with: the clocks of the host and of the database, and the outbox's
-- `forget_session_receipt`, where there is an outbox.
pub record Sweeper (W : Type 0) : Type 0 where
  pub now_epoch_secs : W → ℕ × W
  pub clock_timestamp : W → ℕ × W
  pub forget_session_receipt : Option (Text → Exec W Failure Unit)

module _ {W : Type 0} (host : Surroundings W) (r : ResumableRuntime W) (sweeper : Sweeper W) where
  -- The staged bytes of a session.
  clean_staging : UploadSession → Exec W Failure Unit
  clean_staging s = if is_staged_session s then delete_object host r.backend s.temp_object else do
    if not (is_absent s.finalized_object)
        then pure tt
        else do cancel_session host r.backend s; delete_object host r.backend s.temp_object

  -- The receipt goes before the session, so that a failure leaves the session for a later sweep.
  clean_session : Database W → Text → UploadSession → Exec W Failure Bool
  clean_session db id s = do
    clean_staging s
    forget sweeper.forget_session_receipt id
    delete r.store id
    statement db (text "Final reference cleanup failed") (λ t. (tt, forget_final s.temp_object t))
    pure true

  clean_found : Database W → Text → Option UploadSession → Exec W Failure Bool
  clean_found db id none = pure false
  clean_found db id (some s) = do
    now ← act sweeper.now_epoch_secs
    if ltb now s.expires_at_epoch_secs then pure false else clean_session db id s

  unfoldable pub sweep_session : Database W → Text → Exec W Failure Bool
  unfolding clean_found clean_session clean_staging
  sweep_session db id =
      holding (lock r.store id) (unlock r.store id)
        do found ← load r.store id; clean_found db id found

  -- A check of the session, and then its cleanup, of which an error is only counted.
  checked_sweep : Database W → Text → Exec W Failure Bool
  checked_sweep db id = do
    now ← act sweeper.clock_timestamp
    statement db (text "Session check failed") (λ t. (tt, mark_checked id now t))
    sweep_session db id

  abbrev counted : Result Failure Bool → ℕ × ℕ → ℕ × ℕ
  counted (ok true) (count, errors) = (count + 1, errors)
  counted (ok false) (count, errors) = (count, errors)
  counted (err e) (count, errors) = (count, errors + 1)

  sweep_all : Database W → List Text → ℕ × ℕ → W → (ℕ × ℕ) × W
  unfolding checked_sweep
  sweep_all db [] counts w = (counts, w)
  sweep_all db (id ∷ ids) counts w =
      let (result, w') = checked_sweep db id w in sweep_all db ids (counted result counts) w'

  sweep_report : ℕ × ℕ → Result Failure ℕ
  sweep_report (count, errors) =
      if not (errors == 0)
      then err (
          other (
            text "Expired session cleanup had "
            ++ (show errors ++ (text " errors; " ++ (show count ++ text " sessions cleaned")))))
      else ok count

  sweep_database : Database W → ℕ → Exec W Failure ℕ
  sweep_database db limit = do
    now ← act sweeper.now_epoch_secs
    ids ← statement db (text "Expired session lookup failed") (reading (expired_page now limit))
    counts ← act (sweep_all db ids (0, 0))
    lift (sweep_report counts)

  unfoldable pub sweep_expired : ℕ → Exec W Failure ℕ
  unfolding sweep_database sweep_all sweep_report
  sweep_expired limit = elim r.store.database [ none ↦ pure 0 | some db ↦ sweep_database db limit ]
