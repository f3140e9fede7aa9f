-- ===== src/Outbox/Progress.antt =====
-- A claim takes an event that is due, and the one that is due for the longest: `dispatch_once` of
-- src/outbox.rs makes progress, and stops.
use mathlib.Core.List.{Memᴰ}
use mathlib.Core.Option.{some-injective}
use divine_upload_server.Prelude.{
  ℕ, zero, suc, ◌+◌, ◌≤◌, min, ◌≡◌, refl, sym, ap, subst, ◌∙◌, inl, inr, Bool, true, false, Option,
  none, some, List, [], ◌∷◌, arith, All, any, Bool-cases, leb, leb→le, le→leb, not, &&-true,
}
use divine_upload_server.Query.{filter, insert_by, order_by}
use divine_upload_server.Query.Laws.{All-query, All-imp, any_of}
use divine_upload_server.Text.{Text}
use divine_upload_server.Resumable.Traits.{Failure}
use divine_upload_server.Outbox.Data.{OutboxRow}
use divine_upload_server.Exec.{pure, ◌>>=◌}
use divine_upload_server.Exec.Success.{Succeeds, bind-Succeeds, pure-Succeeds}
use divine_upload_server.Outbox.Dispatch.{
  Claimed, undelivered, is_due, select_due, first_due, claim_selected, claim_event, Dispatcher,
  offer, settle, rounds, dispatch_once,
}

abbrev by_attempt : OutboxRow → OutboxRow → Bool
by_attempt a b = leb a.next_attempt_at b.next_attempt_at

-- The first of a list, which is due no later than the others.
abbrev Earliest : List OutboxRow → OutboxRow → Type 0
Earliest rows r = All (λ q. r.next_attempt_at ≤ q.next_attempt_at) rows

All-later :
    (a b : OutboxRow) (rows : List OutboxRow)
    → a.next_attempt_at ≤ b.next_attempt_at
    → Earliest rows b
    → Earliest rows a
All-later a b [] h hs = tt
All-later a b (r ∷ rows) h (hr, hs) = (omega (arith, h, hr), All-later a b rows h hs)

leb-false : (a b : ℕ) → leb a b ≡ false → b ≤ a
leb-false a b h = ground arith

insert-first :
    (x z : OutboxRow) (ys rows : List OutboxRow)
    → first_due ys ≡ some z
    → Earliest rows z
    → (r : OutboxRow) × (first_due (insert_by by_attempt x ys) ≡ some r) × Earliest (x ∷ rows) r
unfolding insert_by
insert-first x z [] rows e least = cc
insert-first x z (y ∷ ys) rows e least =
    let least' = subst (Earliest rows) (sym (some-injective _ _ e)) least in
    elim (Bool-cases (by_attempt x y)) [
      | inl hit ↦ (x, rw hit refl, (omega arith, All-later x y rows (leb→le _ _ hit) least'))
      | inr miss ↦ (y, rw miss refl, (leb-false _ _ miss, least'))
    ]

order-first :
    (x : OutboxRow) (rows : List OutboxRow)
    → (r : OutboxRow) × (first_due (order_by by_attempt (x ∷ rows)) ≡ some r)
      × Earliest (x ∷ rows) r
unfolding order_by insert_by
order-first x [] = (x, refl, (omega arith, tt))
order-first x (y ∷ rows) =
    let (z, e, least) = order-first y rows in
    insert-first x z (order_by by_attempt (y ∷ rows)) (y ∷ rows) e least

All-unfilter :
    (P : OutboxRow → Type 0) (p : OutboxRow → Bool) (rows : List OutboxRow)
    → All P (filter p rows)
    → All (λ q. p q ≡ true → P q) rows
unfolding filter
All-unfilter P p [] h = tt
All-unfilter P p (r ∷ rows) h = elim (Bool-cases (p r)) [
  | inl hit ↦ let both = rw hit at h in ((λ _. both.0), All-unfilter P p rows both.1)
  | inr miss ↦ ((λ hit. cc (sym hit ∙ miss)), All-unfilter P p rows (rw miss at h))
]

filter-any :
    (p : OutboxRow → Bool) (rows : List OutboxRow)
    → any p rows ≡ true
    → (x : OutboxRow) × (xs : List OutboxRow) × (filter p rows ≡ x ∷ xs)
unfolding filter
filter-any p [] h = cc
filter-any p (r ∷ rows) h = elim (Bool-cases (p r)) [
  | inl hit ↦ (r, filter p rows, rw hit refl)
  | inr miss ↦ let (x, xs, e) = filter-any p rows (rw miss at h) in (x, xs, rw miss e)
]

first-All :
    (P : OutboxRow → Type 0) (rows : List OutboxRow) (r : OutboxRow)
    → All P rows
    → first_due rows ≡ some r
    → P r
first-All P [] r h e = cc
first-All P (x ∷ xs) r (h, hs) e = subst P (some-injective _ _ e) h

-- A row that no worker has, and whose next attempt may be made.
abbrev pub Waiting : ℕ → (Text → Bool) → OutboxRow → Type 0
Waiting now locked r =
    (r.delivered_at ≡ none) × (r.next_attempt_at ≤ now) × (locked r.job_id ≡ false)

due-Waiting :
    (now : ℕ) (locked : Text → Bool) (r : OutboxRow)
    → is_due now locked r ≡ true
    → Waiting now locked r
unfolding is_due
due-Waiting now locked r h =
    let (rest, free) = &&-true _ (not (locked r.job_id)) h in
    let (fresh, timely) = &&-true (undelivered r.delivered_at) (leb r.next_attempt_at now) rest in
    (not_delivered r.delivered_at fresh, leb→le _ _ timely, not-true (locked r.job_id) free)
  where
    not_delivered : (at : Option ℕ) → undelivered at ≡ true → at ≡ none
    not_delivered none e = refl
    not_delivered (some t) e = cc

    not-true : (b : Bool) → not b ≡ true → b ≡ false
    not-true true e = cc
    not-true false e = refl

Waiting-due :
    (now : ℕ) (locked : Text → Bool) (r : OutboxRow)
    → Waiting now locked r
    → is_due now locked r ≡ true
unfolding is_due
Waiting-due now locked r (fresh, timely, free) = rw (fresh, le→leb _ _ timely, free) refl

-- A row of the table that waits for the longest.
abbrev pub LongestDue : ℕ → (Text → Bool) → List OutboxRow → OutboxRow → Type 0
LongestDue now locked rows r =
    Memᴰ r rows
    × Waiting now locked r
    × All (λ q. Waiting now locked q → r.next_attempt_at ≤ q.next_attempt_at) rows

pub select_due-Progresses :
    (now : ℕ) (locked : Text → Bool) (rows : List OutboxRow)
    → any (is_due now locked) rows ≡ true
    → (r : OutboxRow) × (select_due now locked rows ≡ some r) × LongestDue now locked rows r
unfolding select_due
select_due-Progresses now locked rows h =
    let due = is_due now locked in
    let (x, xs, e) = filter-any due rows h in
    let (r, selected, least) = order-first x xs in
    let here = subst (λ l. first_due (order_by by_attempt l) ≡ some r) (sym e) selected in
    let (there, is) = first-All _ _ r (All-query due by_attempt rows) here in
    (
      r,
      here,
      (
        there,
        due-Waiting now locked r is,
        All-imp (λ q. due q ≡ true → r.next_attempt_at ≤ q.next_attempt_at)
            (λ q. Waiting now locked q → r.next_attempt_at ≤ q.next_attempt_at)
            (λ q no_later waits. no_later (Waiting-due now locked q waits)) rows
            (All-unfilter (λ q. r.next_attempt_at ≤ q.next_attempt_at) due rows
              (subst (λ l. Earliest l r) (sym e) least)),
      ),
    )

-- When a row of the table is not delivered, its next attempt may be made, and no other statement holds
-- it, a claim returns an event, and it is that of such a row of the table whose next attempt is no later
-- than that of any other.
pub claim_event-Progresses :
    (token : Text) (now : ℕ) (locked : Text → Bool) (rows : List OutboxRow) (q : OutboxRow)
    → Memᴰ q rows
    → Waiting now locked q
    → (c : Claimed) × (r : OutboxRow) × ((claim_event token now locked rows).0 ≡ some c)
      × (c.job_id ≡ r.job_id)
      × (c.payload ≡ r.payload)
      × LongestDue now locked rows r
unfolding claim_event claim_selected
claim_event-Progresses token now locked rows q here waits =
    let (r, selected, longest) =
      select_due-Progresses now locked rows
        (any_of (is_due now locked) rows q here (Waiting-due now locked q waits)) in
    (
      record { job_id = r.job_id; payload = r.payload; attempts = r.attempts + 1 },
      r,
      ap (λ o. (claim_selected token now rows o).0) selected,
      refl,
      refl,
      longest,
    )

module _ {W : Type 0} (d : Dispatcher W) where
  -- An acknowledgement counts at most one row.
  abbrev pub CountsOnce : Type 0
  CountsOnce =
      (job_id token : Text) (w : W) (n : ℕ) → Succeeds (d.acknowledge job_id token) w n → n ≤ 1

  settle-le :
      (token : Text) (c : Claimed) (b : Bool) (w : W) (n : ℕ)
      → CountsOnce
      → Succeeds (settle d token c b) w n
      → n ≤ 1
  unfolding settle
  settle-le token c true w n once h = once c.job_id token w n h
  settle-le token c false w n once h =
      let (u, _, done, _) = bind-Succeeds (d.defer c.job_id token c.attempts) _ w n h in
      omega (arith, pure-Succeeds 0 _ n done)

  offer-le :
      (token : Text) (c : Claimed) (w : W) (n : ℕ)
      → CountsOnce
      → Succeeds (offer d token c) w n
      → n ≤ 1
  unfolding offer
  offer-le token c w n once h =
      let (b, _, rest, _) = bind-Succeeds _ _ w n h in settle-le token c b _ n once rest

  rounds-le :
      (fuel delivered : ℕ) (w : W) (n : ℕ)
      → CountsOnce
      → Succeeds (rounds d fuel delivered) w n
      → n ≤ delivered + fuel
  unfolding rounds
  rounds-le zero delivered w n once h = omega (arith, pure-Succeeds delivered w n h)
  rounds-le (suc fuel) delivered w n once h =
      let (token, _, h1, _) = bind-Succeeds _ _ w n h in
      let (row, _, h2, _) = bind-Succeeds (d.claim token) _ _ n h1 in
      round token row _ (λ count v. rounds-le fuel (delivered + count) v n once) h2
    where
      round :
          (token : Text) (row : Option Claimed) (v : W)
          → ((count : ℕ) (u : W)
              → Succeeds (rounds d fuel (delivered + count)) u n
              → n ≤ (delivered + count) + fuel)
          → Succeeds {E = Failure}
              (elim row [
                | none ↦ pure delivered
                | some c ↦ offer d token c >>= λ count. rounds d fuel (delivered + count)
              ])
              v
              n
          → n ≤ delivered + suc fuel
      round token none v rest_le h = omega (arith, pure-Succeeds delivered v n h)
      round token (some c) v rest_le h =
          let (count, counted, rest, _) = bind-Succeeds (offer d token c) _ v n h in
          omega (arith, offer-le token c v count once counted, rest_le count _ rest)

  -- A dispatch that returns has delivered no more events than it was asked for, and at most 100, when
  -- an acknowledgement counts at most one row.
  pub dispatch_once-le :
      (limit : ℕ) (w : W) (n : ℕ)
      → CountsOnce
      → Succeeds (dispatch_once d limit) w n
      → (n ≤ limit) × (n ≤ 100)
  unfolding dispatch_once
  dispatch_once-le limit w n once h =
      let bound = rounds-le (min limit 100) 0 w n once h in
      (omega (arith, bound), omega (arith, bound))
