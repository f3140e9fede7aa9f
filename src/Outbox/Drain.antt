-- ===== src/Outbox/Drain.antt =====
-- A dispatcher on the table itself, whose consumer takes every event: `dispatch_once` of src/outbox.rs
-- leaves nothing that is due.
use mathlib.Core.Option.{some-injective}
use divine_upload_server.Prelude.{
  ℕ, zero, suc, ◌+◌, ◌≤◌, ◌<◌, min, ◌≡◌, refl, sym, ap, subst, ◌∙◌, inl, inr, Bool, true, false,
  none, some, List, [], ◌∷◌, map, arith, any, Bool-cases, Option-cases, length,
}
use divine_upload_server.Query.{filter, first}
use divine_upload_server.Query.Keyed.{placed, find-put-same, IsKeyed-put}
use divine_upload_server.Result.{ok}
use divine_upload_server.Exec.{pure, act, ◌>>=◌}
use divine_upload_server.Text.{Text, str_eq}
use divine_upload_server.Text.Laws.{str_eq_refl}
use divine_upload_server.Storage.Objects.{same_version}
use divine_upload_server.Outbox.Data.{OutboxRow, find_row, put_row}
use divine_upload_server.Outbox.Delivery.{row_key, IsKeyed, select_due-first}
use divine_upload_server.Outbox.Fencing.{update-held}
use divine_upload_server.Outbox.Progress.{select_due-Progresses}
use divine_upload_server.Outbox.Dispatch.{
  is_due, select_due, claimed_row, claim_selected, claim_event, acknowledge, defer, delivered_row,
  Dispatcher, offer, settle, rounds, dispatch_once,
}

-- No other statement holds a row.
abbrev pub free : Text → Bool
free id = false

-- How many rows are due.
abbrev pub due_count : ℕ → List OutboxRow → ℕ
due_count now rows = length (filter (is_due now free) rows)

-- The statements at one moment, and a consumer that takes every event.
abbrev pub table_dispatcher : Text → ℕ → Dispatcher (List OutboxRow)
table_dispatcher token now = record {
  token = λ rows. (token, rows);
  claim = λ t. act (claim_event t now free);
  acknowledge = λ id t. act (acknowledge id t now);
  defer = λ id t attempts. act (defer id t now attempts);
  deliver = λ event. pure tt;
}

module _ (now : ℕ) (q : OutboxRow) (settled : is_due now free q ≡ false) where
  due : OutboxRow → Bool
  due = is_due now free

  count-put-le :
      (rows : List OutboxRow) → due_count now (map (placed row_key q) rows) ≤ due_count now rows
  unfolding filter
  count-put-le [] = omega arith
  count-put-le (x ∷ xs) = elim (Bool-cases (str_eq x.job_id q.job_id)) [
    | inl hit ↦ elim (Bool-cases (is_due now free x)) [
      | inl is ↦ rw (hit, settled, is) (omega (arith, count-put-le xs))
      | inr isnt ↦ rw (hit, settled, isnt) (count-put-le xs)
    ]
    | inr miss ↦ elim (Bool-cases (is_due now free x)) [
      | inl is ↦ rw (miss, is) (omega (arith, count-put-le xs))
      | inr isnt ↦ rw (miss, isnt) (count-put-le xs)
    ]
  ]

  -- A due row is settled.
  count-put-lt :
      (rows : List OutboxRow) (r : OutboxRow)
      → first (λ x. str_eq x.job_id q.job_id) rows ≡ some r
      → is_due now free r ≡ true
      → due_count now (map (placed row_key q) rows) < due_count now rows
  unfolding filter first
  count-put-lt [] r e is = cc
  count-put-lt (x ∷ xs) r e is = elim (Bool-cases (str_eq x.job_id q.job_id)) [
    | inl hit ↦
        let is_x =
          subst (λ y. is_due now free y ≡ true) (sym (some-injective _ _ (rw hit at e))) is in
        rw (hit, settled, is_x) (omega (arith, count-put-le xs))
    | inr miss ↦ elim (Bool-cases (is_due now free x)) [
      | inl is_x ↦ rw (miss, is_x) (omega (arith, count-put-lt xs r (rw miss at e) is))
      | inr isnt ↦ rw (miss, isnt) (count-put-lt xs r (rw miss at e) is)
    ]
  ]

module _ (token : Text) (now : ℕ) where
  abbrev after_claim : OutboxRow → List OutboxRow → List OutboxRow
  after_claim r = put_row (claimed_row token now r)

  abbrev after_round : OutboxRow → List OutboxRow → List OutboxRow
  after_round r rows = put_row (delivered_row now (claimed_row token now r)) (after_claim r rows)

  round-none :
      (n k : ℕ) (rows : List OutboxRow)
      → select_due now free rows ≡ none
      → rounds (table_dispatcher token now) (suc n) k rows ≡ (ok k, rows)
  unfolding rounds ◌>>=◌ act claim_event claim_selected pure
  round-none n k rows e = rw e refl

  round-some :
      (n k : ℕ) (rows : List OutboxRow) (r : OutboxRow)
      → select_due now free rows ≡ some r
      → find_row r.job_id (after_claim r rows) ≡ some (claimed_row token now r)
      → rounds (table_dispatcher token now) (suc n) k rows
        ≡ rounds (table_dispatcher token now) n (k + 1) (after_round r rows)
  unfolding rounds ◌>>=◌ act claim_event claim_selected pure offer settle acknowledge same_version
  round-some n k rows r e found = rw e (
      rw
        (update-held token (delivered_row now) (after_claim r rows) r.job_id
          (claimed_row token now r) found (str_eq_refl token))
        refl)

  count-any : (rows : List OutboxRow) → any (is_due now free) rows ≡ false → due_count now rows ≡ 0
  unfolding filter
  count-any [] h = refl
  count-any (x ∷ xs) h = elim (Bool-cases (is_due now free x)) [
    | inl is ↦ cc (rw is at h)
    | inr isnt ↦ rw isnt (count-any xs (rw isnt at h))
  ]

  none-selected : (rows : List OutboxRow) → select_due now free rows ≡ none → due_count now rows ≡ 0
  none-selected rows e = elim (Bool-cases (any (is_due now free) rows)) [
    | inl some_due ↦
        let (r, selected, _) = select_due-Progresses now free rows some_due in cc (sym e ∙ selected)
    | inr none_due ↦ count-any rows none_due
  ]

  -- A lease is for later, and a delivered event is not due.
  claimed-settled : (r : OutboxRow) → is_due now free (claimed_row token now r) ≡ false
  unfolding is_due
  claimed-settled r = ground arith

  delivered-settled : (r : OutboxRow) → is_due now free (delivered_row now r) ≡ false
  unfolding is_due
  delivered-settled r = refl

  after_claim-finds :
      (r : OutboxRow) (rows : List OutboxRow)
      → find_row r.job_id rows ≡ some r
      → find_row r.job_id (after_claim r rows) ≡ some (claimed_row token now r)
  unfolding find_row put_row
  after_claim-finds r rows found =
      find-put-same row_key (claimed_row token now r) r r.job_id rows found refl

  after_round-IsKeyed :
      (r : OutboxRow) (rows : List OutboxRow) → IsKeyed rows → IsKeyed (after_round r rows)
  unfolding put_row
  after_round-IsKeyed r rows keyed =
      IsKeyed-put row_key _ _ (IsKeyed-put row_key (claimed_row token now r) rows keyed)

  fewer :
      (r : OutboxRow) (rows : List OutboxRow)
      → find_row r.job_id rows ≡ some r
      → is_due now free r ≡ true
      → due_count now (after_round r rows) < due_count now rows
  unfolding put_row find_row
  fewer r rows found is =
      let claimed = claimed_row token now r in
      omega (
        arith,
        count-put-le now (delivered_row now claimed) (delivered-settled claimed)
            (after_claim r rows),
        count-put-lt now claimed (claimed-settled r) rows r found is,
      )

  Drained : ℕ → ℕ → List OutboxRow → Type 0
  Drained n k rows =
      (m : ℕ) × ((rounds (table_dispatcher token now) n k rows).0 ≡ ok m)
      × (due_count now (rounds (table_dispatcher token now) n k rows).1 ≡ 0)

  rounds-drains :
      (n k : ℕ) (rows : List OutboxRow) → IsKeyed rows → due_count now rows ≤ n → Drained n k rows
  unfolding rounds Drained pure
  rounds-drains zero k rows keyed few = (k, refl, omega (arith, few))
  rounds-drains (suc n) k rows keyed few = elim (Option-cases (select_due now free rows)) [
    | inl e ↦
        let stop = round-none n k rows e in
        (k, ap (λ x. x.0) stop, ap (λ x. due_count now x.1) stop ∙ none-selected rows e)
    | inr (r, e) ↦
        let (found, is) = select_due-first now free rows r keyed e in
        let mid = after_claim r rows in
        let (m, same, none_left) =
          rounds-drains n (k + 1) (after_round r rows) (after_round-IsKeyed r rows keyed)
            (omega (arith, few, fewer r rows found is)) in
        let go = round-some n k rows r e (after_claim-finds r rows found) in
        (m, ap (λ x. x.0) go ∙ same, ap (λ x. due_count now x.1) go ∙ none_left)
  ]

-- A dispatch on a table of one row for each job, whose consumer takes every event, at one reading of the
-- clock and with no row held by another statement, returns, and when no more rows are due than it is
-- asked for, and at most 100, it leaves no row that is due.
pub dispatch_once-drains :
    (token : Text) (now limit : ℕ) (rows : List OutboxRow)
    → IsKeyed rows
    → due_count now rows ≤ limit
    → due_count now rows ≤ 100
    → (m : ℕ) × ((dispatch_once (table_dispatcher token now) limit rows).0 ≡ ok m)
      × (due_count now (dispatch_once (table_dispatcher token now) limit rows).1 ≡ 0)
unfolding dispatch_once Drained
dispatch_once-drains token now limit rows keyed few fewer =
    rounds-drains token now (min limit 100) 0 rows keyed (omega (arith, few, fewer))
