-- ===== src/Inbox/Fencing.antt =====
-- Leases: who may renew and complete, and for how long.
use mathlib.Core.Option.{some-injective}
use divine_upload_server.Prelude.{
  ℕ, ◌<◌, ◌≡◌, refl, sym, ap, subst, ◌∙◌, ◌⊎◌, inl, inr, Bool, true, false, Option, none, some,
  List, ◌+◌, arith, leb, Bool-cases,
}
use divine_upload_server.Result.{Result, ok, err, map_err, passes, ok-injective, ◌>>◌}
use divine_upload_server.Text.{Text}
use divine_upload_server.Storage.Objects.{ObjectRef}
use divine_upload_server.Processing.{Encoding}
use divine_upload_server.Inbox.Data.{Lease, InboxError, Assignment, invalid_completion}
use divine_upload_server.Inbox.Validate.{max_i64, validate_reference, is_marker_key}
use divine_upload_server.Inbox.Tables.{Job, Tables, find_job, put_job, update_row, references_of}
use divine_upload_server.Inbox.Store.{
  ClaimReads, claim, renew, complete, complete_row, hand_out, is_claimable, is_held, is_receipt,
  leased, block_exhausted, select_job, assignment_of,
}
use divine_upload_server.Inbox.Laws.{IsKeyed, find_job-put_job-same}
use divine_upload_server.Inbox.Rows.{Carries-block_exhausted, block_exhausted-finds}
use divine_upload_server.Inbox.Carries.{select_job-passes, claim-Carries}
use divine_upload_server.Inbox.History.{
  Operation, run, claimable_active, Advances-rules, Advances, run-Advances, run-IsKeyed, Any,
}

-- A later generation was handed out, or the input was revised.
abbrev pub Superseded : Lease → Job → Type 0
Superseded lease j =
    (lease.lease_generation < j.lease_generation) ⊎ (lease.input_revision < j.input_revision)

Superseded-not_held :
    (lease : Lease) (now later : ℕ) (j : Job)
    → Superseded lease j
    → is_held lease now later j ≡ false
unfolding is_held
Superseded-not_held lease now later j s = ground arith

Superseded-no_receipt :
    (lease : Lease) (marker : ObjectRef) (j : Job)
    → Superseded lease j
    → is_receipt lease marker j ≡ false
unfolding is_receipt
Superseded-no_receipt lease marker j s = ground arith

Superseded-later :
    (lease : Lease) (j k : Job) → Advances j k → Superseded lease j → Superseded lease k
Superseded-later lease j k a (inl g) = inl (omega (arith, a.generation, g))
Superseded-later lease j k a (inr r) = inr (omega (arith, a.revision, r))

renew_refused :
    (lease : Lease) (now later last : ℕ) (t : Tables) (j : Job)
    → find_job lease.processing_job_id t.jobs ≡ some j
    → is_held lease now later j ≡ false
    → renew lease now later last t ≡ (false, t)
unfolding renew update_row
renew_refused lease now later last t j here lost = rw (renew, here, update_row, lost) refl

-- A completion that changes nothing: refused by its answer or by an error.
abbrev pub Refused : Tables → Result InboxError (Bool × Tables) → Type 0
Refused t r = (r ≡ ok (false, t)) ⊎ (r ≡ err invalid_completion)

complete_row-Refused :
    (lease : Lease) (marker : ObjectRef) (now later : ℕ) (t : Tables) (j : Job)
    → is_held lease now later j ≡ false
    → is_receipt lease marker j ≡ false
    → Refused t (complete_row lease marker now later t (some j))
unfolding complete_row
complete_row-Refused lease marker now later t j lost unknown =
    elim (Bool-cases (is_marker_key j.input.sha256 marker.key)) [
      | inl good ↦ inl (rw (good, lost, unknown) refl)
      | inr bad ↦ inr (rw bad refl)
    ]

checked-Refused :
    (t : Tables) (m : Result Text Unit) (r : Result InboxError (Bool × Tables))
    → Refused t r
    → Refused t (map_err (λ x. invalid_completion) m >> r)
checked-Refused t (ok u) r h = h
checked-Refused t (err x) r h = inr refl

module _ (e : Encoding) (lease : Lease) (t : Tables) (j : Job) (keyed : IsKeyed t.jobs)
    (here : find_job lease.processing_job_id t.jobs ≡ some j)
    (superseded : Superseded lease j) where
  renew_fenced :
      (ops : List Operation) (now later last : ℕ)
      → renew lease now later last (run e ops t) ≡ (false, run e ops t)
  renew_fenced ops now later last =
      let (k, found, a) = run-Advances e ops t lease.processing_job_id j keyed here in
      renew_refused lease now later last (run e ops t) k found
        (Superseded-not_held lease now later k (Superseded-later lease j k a superseded))

  complete_fenced :
      (ops : List Operation) (marker : ObjectRef) (now later : ℕ)
      → Refused (run e ops t) (complete lease marker now later (run e ops t))
  unfolding complete
  complete_fenced ops marker now later =
      let (k, found, a) = run-Advances e ops t lease.processing_job_id j keyed here in
      let later_still = Superseded-later lease j k a superseded in
      checked-Refused (run e ops t) (validate_reference marker) _ (
        subst (λ o. Refused (run e ops t) (complete_row lease marker now later (run e ops t) o))
          (sym found)
          (complete_row-Refused lease marker now later (run e ops t) k
            (Superseded-not_held lease now later k later_still)
            (Superseded-no_receipt lease marker k later_still)))

-- What a claim hands out: a row that was active, with attempts left and its lease over; it is now
-- leased under the next generation, and the assignment says so.
pub record Claimed (reads : ClaimReads) (a : Assignment) (t after : Tables) : Type 0 where
  pub job : Job
  pub here : find_job a.processing_job_id t.jobs ≡ some job
  pub claimable : is_claimable reads job ≡ true
  pub assignment : a ≡ assignment_of reads job (references_of job.processing_job_id t.destinations)
  pub stored : find_job a.processing_job_id after.jobs ≡ some (leased reads job)

hand_out-some :
    (reads : ClaimReads) (t after : Tables) (a : Assignment) (o : Option Job)
    → hand_out reads t o ≡ ok (some a, after)
    → (j : Job) × (o ≡ some j)
      × (a ≡ assignment_of reads j (references_of j.processing_job_id t.destinations))
      × (after ≡ record t { jobs = put_job (leased reads j) t.jobs })
unfolding hand_out
hand_out-some reads t after a none h = cc (ap (λ x. x.0) (ok-injective _ _ h))
hand_out-some reads t after a (some j) h =
    let (_, done) = passes (leb max_i64 j.lease_generation) _ _ _ h in
    let same = sym (ok-injective _ _ done) in
    (j, refl, some-injective _ _ (ap (λ x. x.0) same), ap (λ x. x.1) same)

pub claim-Claimed :
    (reads : ClaimReads) (t after : Tables) (a : Assignment)
    → IsKeyed t.jobs
    → claim reads t ≡ ok (some a, after)
    → Claimed reads a t after
unfolding claim
claim-Claimed reads t after a keyed h =
    let jobs = block_exhausted reads t.jobs in
    let blocks = Carries-block_exhausted Any Advances Advances-rules reads t.jobs keyed in
    let (j, selected, same_a, same_t) =
      hand_out-some reads (record t { jobs = jobs }) after a (select_job reads jobs) h in
    let (found, claimable) = select_job-passes reads jobs j (blocks.keyed keyed) selected in
    let same_id : a.processing_job_id ≡ j.processing_job_id =
      ap (λ x. x.processing_job_id) same_a in
    record {
      job = j;
      here =
          ap (λ x. find_job x t.jobs) same_id
          ∙ block_exhausted-finds reads t.jobs j.processing_job_id j
              (claimable_active reads j claimable) found;
      claimable = claimable;
      assignment = same_a;
      stored =
          ap (λ x. find_job x after.jobs) same_id
          ∙ ap (λ x. find_job j.processing_job_id x.jobs) same_t
          ∙ find_job-put_job-same (leased reads j) j j.processing_job_id jobs found refl;
    }

-- In a table with unique keys: whatever happens after a claim, with any clocks and any operations: a later claim of the same job
-- has a greater generation. No two workers are ever given the same lease.
pub claim-claim-Increases :
    (e : Encoding) (reads later : ClaimReads) (ops : List Operation) (t mid last : Tables)
    (a b : Assignment)
    → IsKeyed t.jobs
    → claim reads t ≡ ok (some a, mid)
    → claim later (run e ops mid) ≡ ok (some b, last)
    → b.processing_job_id ≡ a.processing_job_id
    → a.lease_generation < b.lease_generation
claim-claim-Increases e reads later ops t mid last a b keyed first again same =
    let one = claim-Claimed reads t mid a keyed first in
    let mid_keyed =
      (claim-Carries Any Advances Advances-rules reads t mid (some a) tt keyed first).keyed keyed in
    let (k, found, moved) =
      run-Advances e ops mid a.processing_job_id (leased reads one.job) mid_keyed one.stored in
    let two = claim-Claimed later (run e ops mid) last b (run-IsKeyed e ops mid mid_keyed) again in
    let k_is_job =
      some-injective _ _
        (sym found ∙ ap (λ x. find_job x (run e ops mid).jobs) (sym same) ∙ two.here) in
    let given : a.lease_generation ≡ one.job.lease_generation + 1 =
      ap (λ x. x.lease_generation) one.assignment in
    let next : b.lease_generation ≡ two.job.lease_generation + 1 =
      ap (λ x. x.lease_generation) two.assignment in
    let grown : k.lease_generation ≡ two.job.lease_generation =
      ap (λ x. x.lease_generation) k_is_job in
    omega (arith, given, next, grown, moved.generation)

-- In a table with unique keys: once a later generation was handed out or the input was revised, a lease is dead for good: after any
-- further transactions, a renewal with it answers false and a completion with it answers false or is an
-- error, and neither changes the tables.
pub Superseded-fenced :
    (e : Encoding) (lease : Lease) (t : Tables) (j : Job) (ops : List Operation)
    (marker : ObjectRef) (now later last : ℕ)
    → IsKeyed t.jobs
    → find_job lease.processing_job_id t.jobs ≡ some j
    → Superseded lease j
    → (renew lease now later last (run e ops t) ≡ (false, run e ops t))
      × Refused (run e ops t) (complete lease marker now later (run e ops t))
Superseded-fenced e lease t j ops marker now later last keyed here superseded = (
  renew_fenced e lease t j keyed here superseded ops now later last,
  complete_fenced e lease t j keyed here superseded ops marker now later,
)
