-- ===== src/Inbox/Replay.antt =====
-- An event that was accepted may be sent again.
use divine_upload_server.Query.{first}
use divine_upload_server.Inbox.Remembers.{run-Remembers}
use divine_upload_server.Prelude.{
  ℕ, ◌≡◌, refl, sym, ap, subst, ◌∙◌, inl, inr, Bool, true, false, not, Option, none, some, List, [],
  ◌∷◌, ==_iff, ltb, length, if◌then◌else◌, ◌==◌,
}
use divine_upload_server.Result.{
  ok, map_err, ok_or, ok_or-some, passes, branch, bind-ok, ok-injective,
}
use divine_upload_server.Text.{Text, text, str_eq}
use divine_upload_server.Text.Laws.{str_eq_refl}
use divine_upload_server.Storage.Objects.{
  ObjectRef, StorageProvider, same_object, same_provider, same_version,
}
use divine_upload_server.Processing.{MediaFinalizedV1, Encoding}
use divine_upload_server.Inbox.Data.{failed, input_of}
use divine_upload_server.Inbox.Validate.{validate_event}
use divine_upload_server.Inbox.Tables.{
  Job, InboxRow, Tables, find_job, find_event, insert_job, same_event, same_objects,
  destinations_of,
}
use divine_upload_server.Inbox.Store.{
  accept, accept_work, record_event, persist, same_work, add_destinations, revise,
}
use divine_upload_server.Inbox.Laws.{IsKeyed, inserted_present}
use divine_upload_server.Query.Laws.{first-append-none}
use divine_upload_server.Inbox.Carries.{accept-Carries, record_event-Carries}
use divine_upload_server.Inbox.History.{
  Operation, run, committed, Advances, Advances-rules, Any, run-Advances,
}

same_version_refl : (v : Option Text) → same_version v v ≡ true
unfolding same_version
same_version_refl none = refl
same_version_refl (some v) = str_eq_refl v

same_provider_refl : (p : StorageProvider) → same_provider p p ≡ true
unfolding same_provider
same_provider_refl StorageProvider.gcs = refl
same_provider_refl StorageProvider.b2 = refl

pub same_object_refl : (o : ObjectRef) → same_object o o ≡ true
unfolding same_object
same_object_refl o =
    rw
      (
        same_provider_refl o.provider,
        str_eq_refl o.bucket,
        str_eq_refl o.key,
        same_version_refl o.version,
      )
      refl

same_objects_refl : (os : List ObjectRef) → same_objects os os ≡ true
unfolding same_objects
same_objects_refl [] = refl
same_objects_refl (o ∷ os) = rw (same_object_refl o, same_objects_refl os) refl

same_number : (n : ℕ) → (n == n) ≡ true
same_number n = (==_iff n n).1 refl

pub same_event_refl : (e : MediaFinalizedV1) → same_event e e ≡ true
unfolding same_event
same_event_refl e =
    rw
      (
        same_number e.schema_version,
        str_eq_refl e.job_id,
        same_object_refl e.source,
        same_objects_refl e.replicas,
        str_eq_refl e.sha256,
        same_number e.size,
        str_eq_refl e.content_type,
        same_version_refl e.owner,
        same_number e.pipeline_version,
      )
      refl

-- The event and its work are in the tables.
record Recorded (e : Encoding) (event : MediaFinalizedV1) (key : Text) (t : Tables) : Type 0 where
  id : Text
  valid : map_err failed (validate_event e event key) ≡ ok id
  job : Job
  stored : find_job id t.jobs ≡ some job
  work : same_work job.input event ≡ true
  row : InboxRow
  found : find_event event.job_id t.inbox ≡ some row
  same : same_event row.payload event ≡ true

module _ (e : Encoding) (id : Text) (event : MediaFinalizedV1) (t : Tables) where
  persist-finds :
      (after : Tables)
      → find_event event.job_id t.inbox ≡ none
      → persist e id event t ≡ ok after
      → find_event event.job_id after.inbox
        ≡ some (record { job_id = event.job_id; processing_job_id = id; payload = event })
  unfolding persist find_event first
  persist-finds after absent h =
      let added = add_destinations e id (event.source ∷ event.replicas) t.destinations in
      let (_, committed) = passes (ltb 16 (length (destinations_of id added.1))) _ _ after h in
      let (jobs, _, done) =
        bind-ok (if ltb 0 added.0 then revise t.jobs (find_job id t.jobs) else ok t.jobs) _ after
          committed in
      ap (λ x. first (λ row. str_eq row.job_id event.job_id) x.inbox) (sym (ok-injective _ _ done))
      ∙ first-append-none _ t.inbox _ absent
      ∙ rw (str_eq_refl event.job_id) refl

  record_event-finds :
      (after : Tables) (o : Option InboxRow)
      → find_event event.job_id t.inbox ≡ o
      → record_event e id event t o ≡ ok after
      → (row : InboxRow) × (find_event event.job_id after.inbox ≡ some row)
        × (same_event row.payload event ≡ true)
  unfolding record_event
  record_event-finds after none here h = (
    record { job_id = event.job_id; processing_job_id = id; payload = event },
    persist-finds after here h,
    same_event_refl event,
  )
  record_event-finds after (some row) here h =
      elim (branch (same_event row.payload event) _ _ after h) [
        | inl (same, done) ↦ (
          row,
          ap (λ x. find_event event.job_id x.inbox) (sym (ok-injective _ _ done)) ∙ here,
          same,
        )
        | inr (_, refused) ↦ cc
      ]

pub refused_not : (b : Bool) → not b ≡ false → b ≡ true
refused_not true e = refl
refused_not false e = cc

module _ (e : Encoding) (event : MediaFinalizedV1) (key : Text) where
  accepted-Recorded :
      (now : ℕ) (t after : Tables)
      → accept e now event key t ≡ ok after
      → Recorded e event key after
  unfolding accept accept_work
  accepted-Recorded now t after h =
      let (id, valid, worked) = bind-ok (map_err failed (validate_event e event key)) _ after h in
      let jobs = insert_job now id (input_of event) t.jobs in
      let (stored, here, checked) =
        bind-ok (ok_or (find_job id jobs) (failed (text "inbox work lookup failed"))) _ after
          worked in
      let (same, recorded) = passes (not (same_work stored.input event)) _ _ after checked in
      let mid : Tables = record t { jobs = jobs } in
      let carries =
        record_event-Carries Any Advances Advances-rules e id event mid after
          (find_event event.job_id t.inbox) recorded in
      let (job, found, moved) = carries.row id stored (ok_or-some _ _ here) in
      let (row, found_row, same_row) =
        record_event-finds e id event mid after (find_event event.job_id t.inbox) refl recorded in
      record {
        id = id;
        valid = valid;
        job = job;
        stored = found;
        work = subst (λ i. same_work i event ≡ true) (sym moved.input) (refused_not _ same);
        row = row;
        found = found_row;
        same = same_row;
      }

  accept-Recorded :
      (now : ℕ) (t : Tables) → Recorded e event key t → accept e now event key t ≡ ok t
  unfolding accept accept_work record_event
  accept-Recorded now t r =
      rw
        (
          accept,
          r.valid,
          inserted_present now r.id (input_of event) t.jobs r.job r.stored,
          r.stored,
          r.work,
          r.found,
          r.same,
        )
        refl

-- In a table with unique keys: once an event was accepted, it is accepted again at any later time, after any transactions of
-- producers and workers, and then changes nothing: a repeated delivery neither fails nor starts work.
pub accept-accept :
    (e : Encoding) (event : MediaFinalizedV1) (key : Text) (now later : ℕ) (t after : Tables)
    (ops : List Operation)
    → IsKeyed t.jobs
    → accept e now event key t ≡ ok after
    → accept e later event key (run e ops after) ≡ ok (run e ops after)
accept-accept e event key now later t after ops keyed h =
    let r = accepted-Recorded e event key now t after h in
    let after_keyed =
      (accept-Carries Any Advances Advances-rules e now event key t after h).keyed keyed in
    let (job, stored, moved) = run-Advances e ops after r.id r.job after_keyed r.stored in
    accept-Recorded e event key later (run e ops after) (record {
      id = r.id;
      valid = r.valid;
      job = job;
      stored = stored;
      work = subst (λ i. same_work i event ≡ true) (sym moved.input) r.work;
      row = r.row;
      found = run-Remembers e ops after event.job_id r.row r.found;
      same = r.same;
    })
