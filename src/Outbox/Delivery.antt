-- ===== src/Outbox/Delivery.antt =====
-- What any run of statements on the outbox leaves of a row: commits, claims, acknowledgements and
-- deferrals, by any number of dispatchers.
use mathlib.Core.Option.{some-injective}
use divine_upload_server.Prelude.{
  ℕ, ◌≤◌, ◌≡◌, refl, sym, ap, subst, ◌∙◌, inl, inr, Bool, true, Option, none, some, List, [], ◌∷◌,
  arith, All, Bool-cases, &&-true, leb, not, ◌&&◌,
}
use divine_upload_server.Query.Laws.{All-filter, All-order_by}
use divine_upload_server.Query.Keyed
use divine_upload_server.Query.Keyed.{
  find-key, find-put, find-put-same, IsKeyed-put, find-appended, find-fresh, IsKeyed-appended,
}
use divine_upload_server.Text.{Text, str_eq}
use divine_upload_server.Text.Laws.{str_eq_iff}
use divine_upload_server.Text.Signed.{pos}
use divine_upload_server.Storage.Objects.{same_version}
use divine_upload_server.Processing.{MediaFinalizedV1}
use divine_upload_server.Outbox.Data.{OutboxRow, find_row, put_row}
use divine_upload_server.Outbox.Enqueue.{fresh_row, commit_row}
use divine_upload_server.Outbox.Dispatch.{
  undelivered, is_due, select_due, first_due, claimed_row, claim_selected, claim_event,
  update_leased, acknowledge, defer, retry_delay, delivered_row, deferred_row,
}

abbrev pub row_key : OutboxRow → Text
row_key r = r.job_id

-- `job_id` is a primary key.
abbrev pub IsKeyed : List OutboxRow → Type 0
IsKeyed = Keyed.IsKeyed row_key

-- A statement on the table, at any time and with any arguments.
pub data OutboxStep : List OutboxRow → List OutboxRow → Type 0 where
  commits :
      (now : ℕ) (event : MediaFinalizedV1) (rows : List OutboxRow)
      → OutboxStep rows (commit_row now event rows (find_row event.job_id rows))
  claims :
      (token : Text) (now : ℕ) (locked : Text → Bool) (rows : List OutboxRow)
      → OutboxStep rows (claim_event token now locked rows).1
  acknowledges :
      (job_id token : Text) (now : ℕ) (rows : List OutboxRow)
      → OutboxStep rows (acknowledge job_id token now rows).1
  defers :
      (job_id token : Text) (now attempts : ℕ) (rows : List OutboxRow)
      → OutboxStep rows (defer job_id token now attempts rows).1

pub data OutboxRun : List OutboxRow → List OutboxRow → Type 0 where
  here : (rows : List OutboxRow) → OutboxRun rows rows
  there :
      (rows next last : List OutboxRow)
      → OutboxStep rows next
      → OutboxRun next last
      → OutboxRun rows last

-- The event stays, attempts are only added, and a delivered row stays as it is delivered: it has no
-- lease and no further attempts.
pub record Evolves (r q : OutboxRow) : Type 0 where
  pub event : q.payload ≡ r.payload
  pub attempts : r.attempts ≤ q.attempts
  pub settled :
      (at : ℕ)
      → r.delivered_at ≡ some at
      → r.lease_token ≡ none
      → (q.delivered_at ≡ some at) × (q.lease_token ≡ none) × (q.attempts ≡ r.attempts)

Evolves-refl : (r : OutboxRow) → Evolves r r
Evolves-refl r = record { event = refl; attempts = omega arith; settled = λ at d l. (d, l, refl) }

Evolves-joined : (r q s : OutboxRow) → Evolves r q → Evolves q s → Evolves r s
Evolves-joined r q s a b = record {
  event = b.event ∙ a.event;
  attempts = omega (arith, a.attempts, b.attempts);
  settled = λ at d l.
      let (d', l', n) = a.settled at d l in
      let (d'', l'', n') = b.settled at d' l' in (d'', l'', n' ∙ n);
}

-- A row that is found is kept, or is found as `q`.
abbrev pub Keeps : List OutboxRow → List OutboxRow → Type 0
Keeps rows after =
    (id : Text) (r : OutboxRow)
    → find_row id rows ≡ some r
    → (q : OutboxRow) × (find_row id after ≡ some q) × Evolves r q

-- The row of a key is replaced by a later one of the key.
put-Keeps :
    (rows : List OutboxRow) (id : Text) (r q : OutboxRow)
    → find_row id rows ≡ some r
    → q.job_id ≡ r.job_id
    → Evolves r q
    → IsKeyed rows
    → IsKeyed (put_row q rows) × Keeps rows (put_row q rows)
unfolding put_row find_row
put-Keeps rows id r q found same later keyed = (
  IsKeyed-put row_key q rows keyed,
  λ other k e. elim (Bool-cases (str_eq k.job_id q.job_id)) [
    | inl hit ↦
        let same_id =
          sym (find-key row_key other rows k e)
          ∙ (str_eq_iff _ _).0 hit
          ∙ same
          ∙ find-key row_key id rows r found in
        let k_is_r =
          some-injective _ _ (sym e ∙ ap (λ x. Keyed.find row_key x rows) same_id ∙ found) in
        (
          q,
          find-put row_key q k other rows e ∙ rw hit refl,
          subst (λ x. Evolves x q) (sym k_is_r) later,
        )
    | inr miss ↦ (k, find-put row_key q k other rows e ∙ rw miss refl, Evolves-refl k)
  ],
)

abbrev Kept : List OutboxRow → List OutboxRow → Type 0
Kept rows after = IsKeyed after × Keeps rows after

Kept-same : (rows : List OutboxRow) → IsKeyed rows → Kept rows rows
Kept-same rows keyed = (keyed, λ id r e. (r, e, Evolves-refl r))

commit-Kept :
    (now : ℕ) (event : MediaFinalizedV1) (rows : List OutboxRow)
    → IsKeyed rows
    → Kept rows (commit_row now event rows (find_row event.job_id rows))
unfolding commit_row find_row
commit-Kept now event rows keyed = found (find_row event.job_id rows) refl
  where
    found :
        (o : Option OutboxRow)
        → find_row event.job_id rows ≡ o
        → Kept rows (commit_row now event rows o)
    found none e = (
      IsKeyed-appended row_key (fresh_row now event) rows e keyed,
      λ id r there.
          (r, find-appended row_key (fresh_row now event) rows id r there, Evolves-refl r),
    )
    found (some r) e =
        put-Keeps rows event.job_id r (record r { finalized_at = now }) e refl
          (record { event = refl; attempts = omega arith; settled = λ at d l. (d, l, refl) }) keyed

update-Kept :
    (job_id token : Text) (change : OutboxRow → OutboxRow) (rows : List OutboxRow)
    → ((r : OutboxRow) → (change r).job_id ≡ r.job_id)
    → ((r : OutboxRow) → same_version r.lease_token (some token) ≡ true → Evolves r (change r))
    → IsKeyed rows
    → Kept rows (update_leased token change rows (find_row job_id rows)).1
unfolding update_leased
update-Kept job_id token change rows same later keyed = found (find_row job_id rows) refl
  where
    found :
        (o : Option OutboxRow)
        → find_row job_id rows ≡ o
        → Kept rows (update_leased token change rows o).1
    found none e = Kept-same rows keyed
    found (some r) e = elim (Bool-cases (same_version r.lease_token (some token))) [
      | inl hit ↦ rw hit (put-Keeps rows job_id r (change r) e (same r) (later r hit) keyed)
      | inr miss ↦ rw miss (Kept-same rows keyed)
    ]

-- A row that has a lease is not settled.
leased-Evolves :
    (r q : OutboxRow) (token : Text)
    → same_version r.lease_token (some token) ≡ true
    → q.payload ≡ r.payload
    → r.attempts ≤ q.attempts
    → Evolves r q
unfolding same_version
leased-Evolves r q token held event attempts = record {
  event = event;
  attempts = attempts;
  settled = λ at d l. cc (subst (λ x. same_version x (some token) ≡ true) l held);
}

-- The row that a claim selects is due, and is the row of its key.
pub select_due-first :
    (now : ℕ) (locked : Text → Bool) (rows : List OutboxRow) (r : OutboxRow)
    → IsKeyed rows
    → select_due now locked rows ≡ some r
    → (find_row r.job_id rows ≡ some r) × (is_due now locked r ≡ true)
unfolding select_due find_row
select_due-first now locked rows r keyed e =
    first-of _
      (All-order_by _ (λ a b. leb a.next_attempt_at b.next_attempt_at) _
        (All-filter _ (is_due now locked) rows keyed))
      e
  where
    first-of :
        (xs : List OutboxRow)
        → All (λ x. (Keyed.find row_key x.job_id rows ≡ some x) × (is_due now locked x ≡ true)) xs
        → first_due xs ≡ some r
        → (Keyed.find row_key r.job_id rows ≡ some r) × (is_due now locked r ≡ true)
    first-of [] h e = cc
    first-of (x ∷ xs) (h, hs) e =
        subst (λ x. (Keyed.find row_key x.job_id rows ≡ some x) × (is_due now locked x ≡ true))
          (some-injective _ _ e) h

undelivered-none : (o : Option ℕ) → undelivered o ≡ true → o ≡ none
undelivered-none none e = refl
undelivered-none (some at) e = cc

claim-Evolves :
    (token : Text) (now : ℕ) (locked : Text → Bool) (r : OutboxRow)
    → is_due now locked r ≡ true
    → Evolves r (claimed_row token now r)
unfolding is_due
claim-Evolves token now locked r due = record {
  event = refl;
  attempts = omega arith;
  settled = λ at d l. cc (
      sym (
        undelivered-none _
          (&&-true (undelivered r.delivered_at) (leb r.next_attempt_at now)
            (&&-true (undelivered r.delivered_at && leb r.next_attempt_at now)
              (not (locked r.job_id)) due).0).0)
      ∙ d);
}

claim-Kept :
    (token : Text) (now : ℕ) (locked : Text → Bool) (rows : List OutboxRow)
    → IsKeyed rows
    → Kept rows (claim_event token now locked rows).1
unfolding claim_event claim_selected
claim-Kept token now locked rows keyed = selected (select_due now locked rows) refl
  where
    selected :
        (o : Option OutboxRow)
        → select_due now locked rows ≡ o
        → Kept rows (claim_selected token now rows o).1
    selected none e = Kept-same rows keyed
    selected (some r) e =
        let (found, due) = select_due-first now locked rows r keyed e in
        put-Keeps rows r.job_id r (claimed_row token now r) found refl
          (claim-Evolves token now locked r due) keyed

pub step-Kept :
    {rows after : List OutboxRow} → OutboxStep rows after → IsKeyed rows → Kept rows after
unfolding acknowledge defer
step-Kept (commits now event rows) keyed = commit-Kept now event rows keyed
step-Kept (claims token now locked rows) keyed = claim-Kept token now locked rows keyed
step-Kept (acknowledges job_id token now rows) keyed =
    update-Kept job_id token (delivered_row now) rows (λ r. refl)
      (λ r held. leased-Evolves r (delivered_row now r) token held refl (omega arith)) keyed
step-Kept (defers job_id token now attempts rows) keyed =
    let seconds = retry_delay (pos attempts) in
    update-Kept job_id token (deferred_row now seconds) rows (λ r. refl)
      (λ r held. leased-Evolves r (deferred_row now seconds r) token held refl (omega arith)) keyed

-- However commits, claims, acknowledgements and deferrals follow one another, the rows of a table with
-- one row for each job stay so, and each row stays in the table with its event and no fewer attempts;
-- a row that is delivered and without a lease stays so, with the attempts that it has.
pub run-Evolves :
    {rows after : List OutboxRow}
    → OutboxRun rows after
    → IsKeyed rows
    → IsKeyed after × Keeps rows after
run-Evolves (here rows) keyed = Kept-same rows keyed
run-Evolves (there rows next last step run) keyed =
    let (keyed', first) = step-Kept step keyed in
    let (keyed'', rest) = run-Evolves run keyed' in
    (
      keyed'',
      λ id r e.
          let (q, eq, rq) = first id r e in
          let (s, es, qs) = rest id q eq in (s, es, Evolves-joined r q s rq qs),
    )
