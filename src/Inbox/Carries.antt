-- ===== src/Inbox/Carries.antt =====
-- Each operation of the inbox carries the rows of the job table on by any relation that respects the
-- statements.
use mathlib.Core.Option.{some-injective}
use divine_upload_server.Prelude.{
  ℕ, ◌≡◌, refl, ap, subst, inl, inr, Bool, true, not, Option, none, some, List, [], ◌∷◌,
  if◌then◌else◌, All, Bool-cases, ltb, leb, length,
}
use divine_upload_server.Result.{ok, map_err, ok_or, ok-injective, passes, branch, bind-ok}
use divine_upload_server.Text.{Text, text}
use divine_upload_server.Storage.Objects.{ObjectRef}
use divine_upload_server.Processing.{MediaFinalizedV1, Encoding}
use divine_upload_server.Inbox.Data.{Assignment, Lease, failed, invalid_completion, input_of}
use divine_upload_server.Inbox.Validate.{max_i64, validate_event, validate_reference, is_marker_key}
use divine_upload_server.Inbox.Tables.{
  Job, InboxRow, Tables, destinations_of, same_event, find_job, update_row, insert_job,
}
use divine_upload_server.Inbox.Store.{
  revised, revise, persist, accept_work, accept, ClaimReads, is_claimable, by_age_and_id,
  block_exhausted, select_job, leased, claim, is_held, renewed, renew, finished, complete,
  record_event, hand_out, complete_row, first_row, same_work, add_destinations,
}
use divine_upload_server.Inbox.Laws.{IsKeyed}
use divine_upload_server.Query.Laws.{All-filter, All-order_by}
use divine_upload_server.Inbox.Rows.{
  RowRules, Carries, Carries-same, Carries-joined, Carries-put_job, Carries-insert_job,
  Carries-block_exhausted,
}

head_passes : (P : Job → Type 0) (xs : List Job) (x : Job) → All P xs → first_row xs ≡ some x → P x
head_passes P [] x h e = cc
head_passes P (y ∷ ys) x (h, hs) e = subst P (some-injective _ _ e) h

-- The row that is selected is in the table, and claimable.
pub select_job-passes :
    (reads : ClaimReads) (jobs : List Job) (j : Job)
    → IsKeyed jobs
    → select_job reads jobs ≡ some j
    → (find_job j.processing_job_id jobs ≡ some j) × (is_claimable reads j ≡ true)
unfolding select_job
select_job-passes reads jobs j keyed =
    head_passes _ _ j
      (All-order_by _ by_age_and_id _ (All-filter _ (is_claimable reads) jobs keyed))

module _ (Sane : ClaimReads → Type 0) (R : Job → Job → Type 0) (rules : RowRules Sane R) where
  revise-Carries :
      (id : Text) (jobs after : List Job) (o : Option Job)
      → find_job id jobs ≡ o
      → revise jobs o ≡ ok after
      → Carries R jobs after
  unfolding revise
  revise-Carries id jobs after none here e =
      subst (Carries R jobs) (ok-injective _ _ e) (Carries-same Sane R rules jobs)
  revise-Carries id jobs after (some j) here e =
      elim (branch (leb max_i64 j.input_revision) _ _ after e) [
        | inl (_, refused) ↦ cc
        | inr (_, done) ↦
            subst (Carries R jobs) (ok-injective _ _ done)
              (Carries-put_job Sane R rules jobs id j (revised j) here refl (rules.revises j))
      ]

  persist-Carries :
      (e : Encoding) (id : Text) (event : MediaFinalizedV1) (t after : Tables)
      → persist e id event t ≡ ok after
      → Carries R t.jobs after.jobs
  unfolding persist
  persist-Carries e id event t after h =
      let added = add_destinations e id (event.source ∷ event.replicas) t.destinations in
      let (_, committed) = passes (ltb 16 (length (destinations_of id added.1))) _ _ after h in
      let (jobs, changed, done) =
        bind-ok (if ltb 0 added.0 then revise t.jobs (find_job id t.jobs) else ok t.jobs) _ after
          committed in
      let same_jobs = ap (λ x. x.jobs) (ok-injective _ _ done) in
      subst (Carries R t.jobs) same_jobs (elim (branch (ltb 0 added.0) _ _ jobs changed) [
        | inl (_, revised_once) ↦
            revise-Carries id t.jobs jobs (find_job id t.jobs) refl revised_once
        | inr (_, unchanged) ↦
            subst (Carries R t.jobs) (ok-injective _ _ unchanged) (Carries-same Sane R rules t.jobs)
      ])

  hand_out-Carries :
      (reads : ClaimReads) (t after : Tables) (o : Option Job) (a : Option Assignment)
      → Sane reads
      → ((j : Job)
          → o ≡ some j
          → (find_job j.processing_job_id t.jobs ≡ some j) × (is_claimable reads j ≡ true))
      → hand_out reads t o ≡ ok (a, after)
      → Carries R t.jobs after.jobs
  unfolding hand_out
  hand_out-Carries reads t after none a sane found h =
      subst (λ x. Carries R t.jobs x.1.jobs) (ok-injective _ _ h) (Carries-same Sane R rules t.jobs)
  hand_out-Carries reads t after (some j) a sane found h =
      let (_, done) = passes (leb max_i64 j.lease_generation) _ _ _ h in
      let (here, claimable) = found j refl in
      subst (λ x. Carries R t.jobs x.1.jobs) (ok-injective _ _ done)
        (Carries-put_job Sane R rules t.jobs j.processing_job_id j (leased reads j) here refl
          (rules.leases reads j sane claimable))

  update_row-Carries :
      (lease : Lease) (now later last : ℕ) (jobs : List Job) (id : Text) (o : Option Job)
      → find_job id jobs ≡ o
      → Carries R jobs (update_row (is_held lease now later) (renewed last) jobs o).1
  unfolding update_row
  update_row-Carries lease now later last jobs id none here = Carries-same Sane R rules jobs
  update_row-Carries lease now later last jobs id (some j) here =
      elim (Bool-cases (is_held lease now later j)) [
        | inl held ↦ rw held (
            Carries-put_job Sane R rules jobs id j (renewed last j) here refl
              (rules.renews lease now later last j held))
        | inr lost ↦ rw lost (Carries-same Sane R rules jobs)
      ]

  complete_row-Carries :
      (lease : Lease) (marker : ObjectRef) (now later : ℕ) (t after : Tables) (b : Bool) (id : Text)
      (o : Option Job)
      → find_job id t.jobs ≡ o
      → complete_row lease marker now later t o ≡ ok (b, after)
      → Carries R t.jobs after.jobs
  unfolding complete_row
  complete_row-Carries lease marker now later t after b id none here h =
      subst (λ x. Carries R t.jobs x.1.jobs) (ok-injective _ _ h) (Carries-same Sane R rules t.jobs)
  complete_row-Carries lease marker now later t after b id (some j) here h =
      let (_, decided) = passes (not (is_marker_key j.input.sha256 marker.key)) _ _ _ h in
      elim (branch (is_held lease now later j) _ _ _ decided) [
        | inl (held, done) ↦
            subst (λ x. Carries R t.jobs x.1.jobs) (ok-injective _ _ done)
              (Carries-put_job Sane R rules t.jobs id j (finished marker j) here refl
                (rules.finishes lease marker now later j held))
        | inr (_, done) ↦
            subst (λ x. Carries R t.jobs x.1.jobs) (ok-injective _ _ done)
              (Carries-same Sane R rules t.jobs)
      ]

  pub record_event-Carries :
      (e : Encoding) (id : Text) (event : MediaFinalizedV1) (t after : Tables) (o : Option InboxRow)
      → record_event e id event t o ≡ ok after
      → Carries R t.jobs after.jobs
  unfolding record_event
  record_event-Carries e id event t after none h = persist-Carries e id event t after h
  record_event-Carries e id event t after (some existing) h =
      elim (branch (same_event existing.payload event) _ _ after h) [
        | inl (_, done) ↦
            subst (λ x. Carries R t.jobs x.jobs) (ok-injective _ _ done)
              (Carries-same Sane R rules t.jobs)
        | inr (_, refused) ↦ cc
      ]

  pub accept-Carries :
      (e : Encoding) (now : ℕ) (event : MediaFinalizedV1) (key : Text) (t after : Tables)
      → accept e now event key t ≡ ok after
      → Carries R t.jobs after.jobs
  unfolding accept accept_work
  accept-Carries e now event key t after h =
      let (id, _, worked) = bind-ok (map_err failed (validate_event e event key)) _ after h in
      let jobs = insert_job now id (input_of event) t.jobs in
      let (stored, _, checked) =
        bind-ok (ok_or (find_job id jobs) (failed (text "inbox work lookup failed"))) _ after
          worked in
      let (_, recorded) = passes (not (same_work stored.input event)) _ _ after checked in
      Carries-joined Sane R rules t.jobs jobs after.jobs
        (Carries-insert_job Sane R rules now id (input_of event) t.jobs)
        (record_event-Carries e id event (record t { jobs = jobs }) after _ recorded)

  pub claim-Carries :
      (reads : ClaimReads) (t after : Tables) (a : Option Assignment)
      → Sane reads
      → IsKeyed t.jobs
      → claim reads t ≡ ok (a, after)
      → Carries R t.jobs after.jobs
  unfolding claim
  claim-Carries reads t after a sane keyed h =
      let jobs = block_exhausted reads t.jobs in
      let blocks = Carries-block_exhausted Sane R rules reads t.jobs keyed in
      Carries-joined Sane R rules t.jobs jobs after.jobs blocks (
        hand_out-Carries reads (record t { jobs = jobs }) after (select_job reads jobs) a sane
          (λ j selected. select_job-passes reads jobs j (blocks.keyed keyed) selected) h)

  pub renew-Carries :
      (lease : Lease) (now later last : ℕ) (t : Tables)
      → Carries R t.jobs (renew lease now later last t).1.jobs
  unfolding renew
  renew-Carries lease now later last t =
      update_row-Carries lease now later last t.jobs lease.processing_job_id _ refl

  pub complete-Carries :
      (lease : Lease) (marker : ObjectRef) (now later : ℕ) (t after : Tables) (b : Bool)
      → complete lease marker now later t ≡ ok (b, after)
      → Carries R t.jobs after.jobs
  unfolding complete
  complete-Carries lease marker now later t after b h =
      let (_, _, done) =
        bind-ok (map_err (λ e. invalid_completion) (validate_reference marker)) _ _ h in
      complete_row-Carries lease marker now later t after b lease.processing_job_id _ refl done
