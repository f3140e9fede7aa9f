-- ===== src/Inbox/Remembers.antt =====
-- No operation of the inbox forgets an event.
use divine_upload_server.Query.{first}
use divine_upload_server.Prelude.{
  ℕ, ◌≡◌, refl, sym, ap, ◌∙◌, inl, inr, Bool, not, Option, none, some, List, [], ◌∷◌, ltb, leb,
  Bool-cases, length, if◌then◌else◌,
}
use divine_upload_server.Result.{
  Result, ok, err, map_err, ok_or, passes, branch, bind-ok, ok-injective, ◌>>◌,
}
use divine_upload_server.Text.{Text, text, str_eq}
use divine_upload_server.Storage.Objects.{ObjectRef}
use divine_upload_server.Processing.{MediaFinalizedV1, Encoding}
use divine_upload_server.Inbox.Data.{InboxError, Lease, failed, invalid_completion, input_of}
use divine_upload_server.Inbox.Validate.{max_i64, is_marker_key, validate_event, validate_reference}
use divine_upload_server.Inbox.Tables.{
  Job, InboxRow, Tables, find_job, find_event, insert_job, same_event, destinations_of,
}
use divine_upload_server.Inbox.Store.{
  ClaimReads, block_exhausted, select_job, hand_out, claim, renew, complete, complete_row, is_held,
  accept, accept_work, record_event, persist, same_work, add_destinations, revise,
}
use divine_upload_server.Query.Laws.{first-append}
use divine_upload_server.Inbox.History.{
  Operation, accepting, claiming, renewing, completing, serve, run, committed, accepted,
}

-- What was in the inbox is in it still.
abbrev pub Remembers : Tables → Tables → Type 0
Remembers t after =
    (job_id : Text) (row : InboxRow)
    → find_event job_id t.inbox ≡ some row
    → find_event job_id after.inbox ≡ some row

Remembers-inbox : (t after : Tables) → after.inbox ≡ t.inbox → Remembers t after
Remembers-inbox t after same job_id row found = ap (find_event job_id) same ∙ found

module _ (e : Encoding) where
  persist-Remembers :
      (id : Text) (event : MediaFinalizedV1) (t after : Tables)
      → persist e id event t ≡ ok after
      → Remembers t after
  unfolding persist find_event
  persist-Remembers id event t after h job_id row found =
      let added = add_destinations e id (event.source ∷ event.replicas) t.destinations in
      let (_, committed) = passes (ltb 16 (length (destinations_of id added.1))) _ _ after h in
      let (jobs, _, done) =
        bind-ok (if ltb 0 added.0 then revise t.jobs (find_job id t.jobs) else ok t.jobs) _ after
          committed in
      ap (λ x. first (λ row. str_eq row.job_id job_id) x.inbox) (sym (ok-injective _ _ done))
      ∙ first-append _ t.inbox _ row found

  record_event-Remembers :
      (id : Text) (event : MediaFinalizedV1) (t after : Tables) (o : Option InboxRow)
      → record_event e id event t o ≡ ok after
      → Remembers t after
  unfolding record_event
  record_event-Remembers id event t after none h = persist-Remembers id event t after h
  record_event-Remembers id event t after (some row) h =
      elim (branch (same_event row.payload event) _ _ after h) [
        | inl (_, done) ↦ Remembers-inbox t after (ap (λ x. x.inbox) (sym (ok-injective _ _ done)))
        | inr (_, refused) ↦ cc
      ]

  accept-Remembers :
      (now : ℕ) (event : MediaFinalizedV1) (key : Text) (t after : Tables)
      → accept e now event key t ≡ ok after
      → Remembers t after
  unfolding accept accept_work
  accept-Remembers now event key t after h =
      let (id, _, worked) = bind-ok (map_err failed (validate_event e event key)) _ after h in
      let jobs = insert_job now id (input_of event) t.jobs in
      let (stored, _, checked) =
        bind-ok (ok_or (find_job id jobs) (failed (text "inbox work lookup failed"))) _ after
          worked in
      let (_, recorded) = passes (not (same_work stored.input event)) _ _ after checked in
      record_event-Remembers id event (record t { jobs = jobs }) after _ recorded

  hand_out-inbox :
      (reads : ClaimReads) (t : Tables) (o : Option Job)
      → (committed t (hand_out reads t o)).inbox ≡ t.inbox
  unfolding hand_out
  hand_out-inbox reads t none = refl
  hand_out-inbox reads t (some j) = elim (Bool-cases (leb max_i64 j.lease_generation)) [
    | inl over ↦ rw over refl
    | inr fits ↦ rw fits refl
  ]

  committed-inbox :
      {A : Type 0} (t s : Tables) (r : Result InboxError (A × Tables))
      → s.inbox ≡ t.inbox
      → (committed s r).inbox ≡ s.inbox
      → (committed t r).inbox ≡ t.inbox
  committed-inbox t s (ok p) same kept = kept ∙ same
  committed-inbox t s (err x) same kept = refl

  complete_row-inbox :
      (lease : Lease) (marker : ObjectRef) (now later : ℕ) (t : Tables) (o : Option Job)
      → (committed t (complete_row lease marker now later t o)).inbox ≡ t.inbox
  unfolding complete_row
  complete_row-inbox lease marker now later t none = refl
  complete_row-inbox lease marker now later t (some j) =
      elim (Bool-cases (is_marker_key j.input.sha256 marker.key)) [
        | inr bad ↦ rw bad refl
        | inl good ↦ elim (Bool-cases (is_held lease now later j)) [
          | inl held ↦ rw (good, held) refl
          | inr lost ↦ rw (good, lost) refl
        ]
      ]

  checked-inbox :
      (t : Tables) (m : Result Text Unit) (r : Result InboxError (Bool × Tables))
      → (committed t r).inbox ≡ t.inbox
      → (committed t (map_err (λ x. invalid_completion) m >> r)).inbox ≡ t.inbox
  checked-inbox t (ok u) r h = h
  checked-inbox t (err x) r h = refl

  renew-inbox :
      (lease : Lease) (now later last : ℕ) (t : Tables)
      → (renew lease now later last t).1.inbox ≡ t.inbox
  unfolding renew
  renew-inbox lease now later last t = refl

  accepted-Remembers :
      (t : Tables) (r : Result InboxError Tables)
      → ((after : Tables) → r ≡ ok after → Remembers t after)
      → Remembers t (accepted t r)
  accepted-Remembers t (ok after) f = f after refl
  accepted-Remembers t (err x) f = Remembers-inbox t t refl

  serve-Remembers : (op : Operation) (t : Tables) → Remembers t (serve e op t)
  unfolding serve claim complete
  serve-Remembers (accepting now event key) t =
      accepted-Remembers t _ (λ after h. accept-Remembers now event key t after h)
  serve-Remembers (claiming reads) t =
      let s : Tables = record t { jobs = block_exhausted reads t.jobs } in
      Remembers-inbox t (committed t (hand_out reads s (select_job reads s.jobs))) (
        committed-inbox t s (hand_out reads s (select_job reads s.jobs)) refl
          (hand_out-inbox reads s (select_job reads s.jobs)))
  serve-Remembers (renewing lease now later last) t =
      Remembers-inbox t (renew lease now later last t).1 (renew-inbox lease now later last t)
  serve-Remembers (completing lease marker now later) t =
      Remembers-inbox t (committed t (complete lease marker now later t)) (
        checked-inbox t (validate_reference marker) _
          (complete_row-inbox lease marker now later t (find_job lease.processing_job_id t.jobs)))

  pub run-Remembers : (ops : List Operation) (t : Tables) → Remembers t (run e ops t)
  unfolding run
  run-Remembers [] t job_id row found = found
  run-Remembers (op ∷ ops) t job_id row found =
      run-Remembers ops (serve e op t) job_id row (serve-Remembers op t job_id row found)
