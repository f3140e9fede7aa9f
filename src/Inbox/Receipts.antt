-- ===== src/Inbox/Receipts.antt =====
-- A completion that was acknowledged may be sent again.
use mathlib.Core.Option.{some-injective}
use divine_upload_server.Prelude.{
  ℕ, ◌≡◌, refl, sym, ap, subst, ◌∙◌, inl, inr, true, false, not, Option, none, some, List, arith,
  Option-cases, ◌==◌, ◌&&◌,
}
use divine_upload_server.Result.{ok, map_err, passes, branch, bind-ok, ok-injective}
use divine_upload_server.Storage.Objects.{ObjectRef, same_object}
use divine_upload_server.Processing.{Encoding}
use divine_upload_server.Inbox.Data.{
  Lease, invalid_completion, JobState, completed, running, pending, blocked,
}
use divine_upload_server.Inbox.Validate.{validate_reference, is_marker_key}
use divine_upload_server.Inbox.Tables.{Job, Tables, find_job, same_state}
use divine_upload_server.Inbox.Store.{complete, complete_row, is_held, is_receipt, finished}
use divine_upload_server.Inbox.Laws.{IsKeyed, find_job-put_job-same}
use divine_upload_server.Inbox.Carries.{complete-Carries}
use divine_upload_server.Inbox.Replay.{same_object_refl, refused_not}
use divine_upload_server.Inbox.History.{Operation, run, Advances, Advances-rules, Any, run-Advances}

completed_state : (s : JobState) → same_state s completed ≡ true → s ≡ completed
unfolding same_state
completed_state completed e = refl
completed_state running e = cc
completed_state pending e = cc
completed_state blocked e = cc

-- What a receipt says of the row.
module _ (lease : Lease) (marker : ObjectRef) where
  receipt-says :
      (j : Job)
      → is_receipt lease marker j ≡ true
      → (m : ObjectRef) × (j.manifest ≡ some m)
        × (j.state ≡ completed)
        × (j.lease_generation ≡ lease.lease_generation)
        × (j.input_revision ≡ lease.input_revision)
        × (same_object m marker ≡ true)
  unfolding is_receipt
  receipt-says j e = elim (Option-cases j.manifest) [
    | inl absent ↦ cc (rw absent at e)
    | inr present ↦
        let parts : (same_state j.state completed
              && j.lease_generation == lease.lease_generation
              && j.input_revision == lease.input_revision
              && same_object present.0 marker)
            ≡ true =
          rw present.1 at e in
        (
          present.0,
          present.1,
          completed_state j.state (ground (arith, parts)),
          ground (arith, parts),
          ground (arith, parts),
          ground (arith, parts),
        )
  ]

  receipt-of :
      (j : Job) (m : ObjectRef)
      → j.manifest ≡ some m
      → j.state ≡ completed
      → j.lease_generation ≡ lease.lease_generation
      → j.input_revision ≡ lease.input_revision
      → same_object m marker ≡ true
      → is_receipt lease marker j ≡ true
  unfolding is_receipt same_state
  receipt-of j m manifest state generation revision same = rw manifest (rw state (ground arith))

  finished-receipt :
      (now later : ℕ) (j : Job)
      → is_held lease now later j ≡ true
      → is_receipt lease marker (finished marker j) ≡ true
  unfolding is_held
  finished-receipt now later j held =
      receipt-of (finished marker j) marker refl refl (ground arith) (ground arith)
        (same_object_refl marker)

  completed-not_held :
      (now later : ℕ) (j : Job) → j.state ≡ completed → is_held lease now later j ≡ false
  unfolding is_held same_state
  completed-not_held now later j e = rw e (ground arith)

  complete_row-receipt :
      (now later : ℕ) (t after : Tables) (o : Option Job)
      → find_job lease.processing_job_id t.jobs ≡ o
      → complete_row lease marker now later t o ≡ ok (true, after)
      → (j k : Job) × (o ≡ some j)
        × (find_job lease.processing_job_id after.jobs ≡ some k)
        × (is_marker_key k.input.sha256 marker.key ≡ true)
        × (is_receipt lease marker k ≡ true)
  unfolding complete_row
  complete_row-receipt now later t after none here h = cc (ap (λ x. x.0) (ok-injective _ _ h))
  complete_row-receipt now later t after (some j) here h =
      let (good, decided) = passes (not (is_marker_key j.input.sha256 marker.key)) _ _ _ h in
      elim (branch (is_held lease now later j) _ _ _ decided) [
        | inl (held, done) ↦ (
          j,
          finished marker j,
          refl,
          ap (λ x. find_job lease.processing_job_id x.1.jobs) (sym (ok-injective _ _ done))
              ∙ find_job-put_job-same (finished marker j) j lease.processing_job_id t.jobs here
                  refl,
          refused_not _ good,
          finished-receipt now later j held,
        )
        | inr (_, done) ↦ (
          j,
          j,
          refl,
          ap (λ x. find_job lease.processing_job_id x.1.jobs) (sym (ok-injective _ _ done)) ∙ here,
          refused_not _ good,
          ap (λ x. x.0) (ok-injective _ _ done),
        )
      ]

  again :
      (now later : ℕ) (t : Tables) (u : Unit) (k : Job)
      → map_err (λ x. invalid_completion) (validate_reference marker) ≡ ok u
      → find_job lease.processing_job_id t.jobs ≡ some k
      → is_marker_key k.input.sha256 marker.key ≡ true
      → is_receipt lease marker k ≡ true
      → complete lease marker now later t ≡ ok (true, t)
  unfolding complete complete_row
  again now later t u k valid here good receipt =
      let (m, _, state, _, _, _) = receipt-says k receipt in
      rw (complete, valid, here, good, completed-not_held now later k state, receipt) refl

-- In a table with unique keys: once a completion was acknowledged, the same completion is acknowledged
-- again and changes nothing, after any transactions and whether or not its lease is over, for as long
-- as the input of the job has not been revised.
pub complete-complete :
    (e : Encoding) (lease : Lease) (marker : ObjectRef) (now later now' later' : ℕ)
    (t after : Tables) (ops : List Operation) (k : Job)
    → IsKeyed t.jobs
    → complete lease marker now later t ≡ ok (true, after)
    → find_job lease.processing_job_id (run e ops after).jobs ≡ some k
    → k.input_revision ≡ lease.input_revision
    → complete lease marker now' later' (run e ops after) ≡ ok (true, run e ops after)
unfolding complete
complete-complete e lease marker now later now' later' t after ops k keyed h here unrevised =
    let after_keyed =
      (complete-Carries Any Advances Advances-rules lease marker now later t after true h).keyed
        keyed in
    let (u, valid, done) =
      bind-ok (map_err (λ x. invalid_completion) (validate_reference marker)) _ _ h in
    let (j, r, _, stored, good, receipt) =
      complete_row-receipt lease marker now later t after (find_job lease.processing_job_id t.jobs)
        refl done in
    let (m, manifest, state, generation, revision, same) = receipt-says lease marker r receipt in
    let (k', found, moved) =
      run-Advances e ops after lease.processing_job_id r after_keyed stored in
    let same_row : k' ≡ k = some-injective _ _ (sym found ∙ here) in
    let moved_k : Advances r k = subst (Advances r) same_row moved in
    let (state', manifest', generation') = moved_k.final state (unrevised ∙ sym revision) in
    again lease marker now' later' (run e ops after) u k valid here
      (subst (λ i. is_marker_key i.sha256 marker.key ≡ true) (sym moved_k.input) good)
      (receipt-of lease marker k m (manifest' ∙ manifest) state' (generation' ∙ generation)
        unrevised same)
