-- ===== src/Outbox/Fencing.antt =====
-- Progress of a dispatcher, and what its token protects: `dispatch_once` and its statements.
use mathlib.Core.Option.{some-injective}
use divine_upload_server.Prelude.{
  ℕ, ◌≡◌, refl, sym, ap, subst, Bool, true, false, Option, none, some, List,
}
use divine_upload_server.Query.Keyed.{find-put-same}
use divine_upload_server.Text.{Text, str_eq}
use divine_upload_server.Text.Laws.{str_eq_refl}
use divine_upload_server.Text.Signed.{pos}
use divine_upload_server.Storage.Objects.{same_version}
use divine_upload_server.Outbox.Data.{OutboxRow, find_row, put_row}
use divine_upload_server.Outbox.Delivery.{row_key, IsKeyed, select_due-first}
use divine_upload_server.Outbox.Dispatch.{
  Claimed, select_due, claimed_row, claim_selected, claim_event, update_leased, acknowledge, defer,
  retry_delay, delivered_row, deferred_row,
}

-- An update under a token that is not the lease's changes nothing.
update-stale :
    (token : Text) (change : OutboxRow → OutboxRow) (rows : List OutboxRow) (id : Text)
    (r : OutboxRow)
    → find_row id rows ≡ some r
    → same_version r.lease_token (some token) ≡ false
    → update_leased token change rows (find_row id rows) ≡ (0, rows)
unfolding update_leased
update-stale token change rows id r found stale = rw (found, stale) refl

claimed_as :
    (token : Text) (now : ℕ) (locked : Text → Bool) (rows after : List OutboxRow) (c : Claimed)
    → IsKeyed rows
    → claim_event token now locked rows ≡ (some c, after)
    → (r : OutboxRow) × (find_row c.job_id after ≡ some (claimed_row token now r))
unfolding claim_event claim_selected put_row find_row
claimed_as token now locked rows after c keyed e = selected (select_due now locked rows) refl e
  where
    selected :
        (o : Option OutboxRow)
        → select_due now locked rows ≡ o
        → claim_selected token now rows o ≡ (some c, after)
        → (r : OutboxRow) × (find_row c.job_id after ≡ some (claimed_row token now r))
    selected none _ e = cc
    selected (some r) there e =
        let (found, due) = select_due-first now locked rows r keyed there in
        let same : r.job_id ≡ c.job_id =
          ap (λ x. x.job_id) (some-injective _ _ (ap (λ x. x.0) e)) in
        let found' = subst (λ id. find_row id rows ≡ some r) same found in
        (
          r,
          subst (λ x. find_row c.job_id x ≡ some (claimed_row token now r)) (ap (λ x. x.1) e)
              (find-put-same row_key (claimed_row token now r) r c.job_id rows found' refl),
        )

pub update-held :
    (token : Text) (change : OutboxRow → OutboxRow) (rows : List OutboxRow) (id : Text)
    (r : OutboxRow)
    → find_row id rows ≡ some r
    → same_version r.lease_token (some token) ≡ true
    → update_leased token change rows (find_row id rows) ≡ (1, put_row (change r) rows)
unfolding update_leased
update-held token change rows id r found held = rw (found, held) refl

-- After a claim, an acknowledgement or a deferral of the claimed event under another token changes
-- nothing and counts no row, and an acknowledgement under the token of the claim counts one row and
-- leaves the event delivered, without a lease; the table has one row for each job.
pub claim_event-fences :
    (token other : Text) (now later attempts : ℕ) (locked : Text → Bool)
    (rows after : List OutboxRow) (c : Claimed)
    → IsKeyed rows
    → claim_event token now locked rows ≡ (some c, after)
    → str_eq token other ≡ false
    → (acknowledge c.job_id other later after ≡ (0, after))
      × (defer c.job_id other later attempts after ≡ (0, after))
      × ((acknowledge c.job_id token later after).0 ≡ 1)
      × ((r : OutboxRow) × (find_row c.job_id (acknowledge c.job_id token later after).1 ≡ some r)
          × (r.delivered_at ≡ some later)
          × (r.lease_token ≡ none))
unfolding acknowledge defer same_version put_row find_row
claim_event-fences token other now later attempts locked rows after c keyed e differ =
    let (r, found) = claimed_as token now locked rows after c keyed e in
    let held = update-held token (delivered_row later) after c.job_id _ found (str_eq_refl token) in
    let row = delivered_row later (claimed_row token now r) in
    (
      update-stale other (delivered_row later) after c.job_id _ found differ,
      update-stale other (deferred_row later (retry_delay (pos attempts))) after c.job_id _ found
          differ,
      ap (λ x. x.0) held,
      (
        row,
        subst (λ x. find_row c.job_id x.1 ≡ some row) (sym held)
            (find-put-same row_key row _ c.job_id after found refl),
        refl,
        refl,
      ),
    )
