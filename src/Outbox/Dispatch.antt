-- ===== src/Outbox/Dispatch.antt =====
-- `dispatch_once` of src/outbox.rs and its statements: an event is leased under a random token, offered
-- to the consumer, and then acknowledged or put off.
use divine_upload_server.Prelude.{
  ℕ, zero, suc, ◌+◌, ◌*◌, ◌^◌, min, Bool, true, false, not, ◌&&◌, Option, none, some, List, [], ◌∷◌,
  leb, if◌then◌else◌,
}
use divine_upload_server.Query.{filter, order_by}
use divine_upload_server.Result.{ok, is_ok}
use divine_upload_server.Exec.{Exec, pure, act, ◌>>=◌, ◌>>◌}
use divine_upload_server.Text.{Text}
use divine_upload_server.Text.Signed.{ℤ, pos, negsuc, max_i64}
use divine_upload_server.Storage.Objects.{same_version}
use divine_upload_server.Processing.{MediaFinalizedV1}
use divine_upload_server.Outbox.Data.{OutboxRow, find_row, put_row}
use divine_upload_server.Resumable.Traits.{Failure}

-- `attempt.clamp(0, 14)` of an `i32`
unfoldable pub clamp_attempt : ℤ → ℕ
clamp_attempt (pos n) = min n 14
clamp_attempt (negsuc n) = 0

-- Seconds; the product is far from saturating.
unfoldable pub retry_delay : ℤ → ℕ
unfolding clamp_attempt
retry_delay attempt = min (min (5 * 2 ^ clamp_attempt attempt) max_i64) 86400

-- What a claim returns of its row.
pub record Claimed : Type 0 where
  pub job_id : Text
  pub payload : MediaFinalizedV1
  pub attempts : ℕ

abbrev pub undelivered : Option ℕ → Bool
undelivered none = true
undelivered (some at) = false

-- `delivered_at IS NULL AND next_attempt_at<=now()`, and not held by another statement.
unfoldable pub is_due : ℕ → (Text → Bool) → OutboxRow → Bool
is_due now locked r =
    undelivered r.delivered_at && leb r.next_attempt_at now && not (locked r.job_id)

abbrev pub first_due : List OutboxRow → Option OutboxRow
first_due [] = none
first_due (r ∷ rows) = some r

unfoldable pub select_due : ℕ → (Text → Bool) → List OutboxRow → Option OutboxRow
select_due now locked rows =
    first_due
      (order_by (λ a b. leb a.next_attempt_at b.next_attempt_at) (filter (is_due now locked) rows))

abbrev pub claimed_row : Text → ℕ → OutboxRow → OutboxRow
claimed_row token now r = record r {
  lease_token = some token;
  next_attempt_at = now + 60 * 1000000;
  attempts = r.attempts + 1;
}

-- The claim of a row: the row that is returned is the one after the update.
unfoldable pub claim_selected :
    Text → ℕ → List OutboxRow → Option OutboxRow → Option Claimed × List OutboxRow
claim_selected token now rows none = (none, rows)
claim_selected token now rows (some r) = (
  some (record { job_id = r.job_id; payload = r.payload; attempts = r.attempts + 1 }),
  put_row (claimed_row token now r) rows,
)

unfoldable pub claim_event :
    Text → ℕ → (Text → Bool) → List OutboxRow → Option Claimed × List OutboxRow
claim_event token now locked rows = claim_selected token now rows (select_due now locked rows)

-- `UPDATE ... WHERE job_id=$1 AND lease_token=$2`, and the count of its rows.
unfoldable pub update_leased :
    Text → (OutboxRow → OutboxRow) → List OutboxRow → Option OutboxRow → ℕ × List OutboxRow
update_leased token change rows none = (0, rows)
update_leased token change rows (some r) =
    if same_version r.lease_token (some token) then (1, put_row (change r) rows) else (0, rows)

abbrev pub delivered_row : ℕ → OutboxRow → OutboxRow
delivered_row now r = record r { delivered_at = some now; lease_token = none }

abbrev pub deferred_row : ℕ → ℕ → OutboxRow → OutboxRow
deferred_row now seconds r = record r {
  next_attempt_at = now + seconds * 1000000;
  lease_token = none;
}

unfoldable pub acknowledge : Text → Text → ℕ → List OutboxRow → ℕ × List OutboxRow
acknowledge job_id token now rows =
    update_leased token (delivered_row now) rows (find_row job_id rows)

unfoldable pub defer : Text → Text → ℕ → ℕ → List OutboxRow → ℕ × List OutboxRow
defer job_id token now attempts rows =
    update_leased token (deferred_row now (retry_delay (pos attempts))) rows (find_row job_id rows)

-- What a dispatcher works with: the three statements, each of which may fail, the random token and the
-- consumer.
pub record Dispatcher (W : Type 0) : Type 0 where
  pub token : W → Text × W
  pub claim : Text → Exec W Failure (Option Claimed)
  pub acknowledge : Text → Text → Exec W Failure ℕ
  pub defer : Text → Text → ℕ → Exec W Failure ℕ
  pub deliver : MediaFinalizedV1 → Exec W Failure Unit

-- A delivery, of which only the success counts.
abbrev pub attempt : {W E A : Type 0} → Exec W Failure A → Exec W E Bool
attempt m w = let (r, w') = m w in (ok (is_ok r), w')

module _ {W : Type 0} (d : Dispatcher W) where
  unfoldable pub settle : Text → Claimed → Bool → Exec W Failure ℕ
  settle token c true = d.acknowledge c.job_id token
  settle token c false = do d.defer c.job_id token c.attempts; pure 0

  unfoldable pub offer : Text → Claimed → Exec W Failure ℕ
  unfolding settle
  offer token c = do success ← attempt (d.deliver c.payload); settle token c success

  -- The rounds of the loop that are left, and the events that were delivered.
  unfoldable pub rounds : ℕ → ℕ → Exec W Failure ℕ
  rounds zero delivered = pure delivered
  rounds (suc n) delivered = do
    token ← act d.token
    row ← d.claim token
    elim row [
      | none ↦ pure delivered
      | some c ↦ do count ← offer token c; rounds n (delivered + count)
    ]

  unfoldable pub dispatch_once : ℕ → Exec W Failure ℕ
  dispatch_once limit = rounds (min limit 100) 0
