-- ===== src/Inbox/Store.antt =====
-- The operations of `InboxStore` of src/inbox.rs. An operation is one transaction: its result is the
-- answer with the tables it commits, or an error, after which the tables are as they were. The times
-- that the database's clock gives, and the rows that other transactions hold, are arguments.
use divine_upload_server.Query.{filter, order_by, text_le}
use divine_upload_server.Prelude.{
  ℕ, ◌+◌, ◌*◌, ◌/◌, Bool, true, false, not, ◌||◌, ◌&&◌, Option, none, some, List, [], ◌∷◌, ◌++◌,
  map, take, ltb, leb, ◌==◌, if◌then◌else◌, any, length,
}
use divine_upload_server.Result.{Result, ok, err, ok_or, refuse_if, map_err, ◌>>=◌, ◌>>◌}
use divine_upload_server.Text.{Text, text, str_eq}
use divine_upload_server.Storage.Objects.{ObjectRef, same_object}
use divine_upload_server.Processing.{MediaFinalizedV1, Encoding}
use divine_upload_server.Inbox.Data.{
  Assignment, Lease, ProcessingReceipt, ProcessingInput, pending, running, completed, blocked,
  input_of, InboxError, inbox_conflict, invalid_completion, failed,
}
use divine_upload_server.Inbox.Validate.{
  max_i64, is_hash, validate_reference, validate_event, is_marker_key,
}
use divine_upload_server.Inbox.Tables.{
  Job, InboxRow, Destination, Tables, same_state, is_active, is_over, is_after, least, find_job,
  update_row, insert_job, find_event, has_destination, destinations_of, references_of, same_event,
  put_job,
}

unfoldable pub lookup : Text → Tables → Result InboxError (Option ProcessingReceipt)
lookup id t = do
  refuse_if (not (is_hash id)) (failed (text "invalid processing identity"))
  elim (find_job id t.jobs) [
    | none ↦ ok none
    | some job ↦ ok (
        some (record {
          schema_version = 1;
          processing_job_id = id;
          input_revision = job.input_revision;
          lease_generation = job.lease_generation;
          state = job.state;
          source = job.input.source;
          destinations = references_of id t.destinations;
          sha256 = job.input.sha256;
          size = job.input.size;
          content_type = job.input.content_type;
          pipeline_version = job.input.pipeline_version;
          manifest = job.manifest;
        }))
  ]

-- The content type is left out: the first one is kept.
unfoldable pub same_work : ProcessingInput → MediaFinalizedV1 → Bool
same_work input event =
    same_object input.source event.source
    && str_eq input.sha256 event.sha256
    && input.size == event.size
    && input.pipeline_version == event.pipeline_version

-- The destinations with `objects` among them, and how many of these are new.
unfoldable pub add_destinations :
    Encoding → Text → List ObjectRef → List Destination → ℕ × List Destination
add_destinations e id [] rows = (0, rows)
add_destinations e id (object ∷ objects) rows =
    let identity = e.hex (e.digest (e.json_reference object)) in
    let row : Destination = record {
      processing_job_id = id;
      identity_key = identity;
      object_ref = object;
    } in
    let known = has_destination id identity rows in
    let (added, after) = add_destinations e id objects (if known then rows else rows ++ row ∷ []) in
    (if known then added else added + 1, after)

abbrev pub revised : Job → Job
revised j = record j {
  input_revision = j.input_revision + 1;
  attempts_in_revision = 0;
  state = if same_state j.state completed || same_state j.state blocked then pending else j.state;
  manifest = none;
}

-- A `BIGINT` that passes its greatest value is an error.
unfoldable pub revise : List Job → Option Job → Result InboxError (List Job)
revise jobs none = ok jobs
revise jobs (some j) =
    if leb max_i64 j.input_revision
    then err (failed (text "inbox work revision failed"))
    else ok (put_job (revised j) jobs)

-- `accept`, for an event that is not there yet.
unfoldable pub persist : Encoding → Text → MediaFinalizedV1 → Tables → Result InboxError Tables
persist e id event t = do
  let (added, destinations) = add_destinations e id (event.source ∷ event.replicas) t.destinations
  refuse_if (ltb 16 (length (destinations_of id destinations))) inbox_conflict
  jobs ← if ltb 0 added then revise t.jobs (find_job id t.jobs) else ok t.jobs
  ok (record {
    jobs = jobs;
    inbox =
        t.inbox ++ record { job_id = event.job_id; processing_job_id = id; payload = event } ∷ [];
    destinations = destinations;
  })

-- `accept`, once the event is looked up: a replay commits the tables as they are.
unfoldable pub record_event :
    Encoding → Text → MediaFinalizedV1 → Tables → Option InboxRow → Result InboxError Tables
record_event e id event t (some existing) =
    if same_event existing.payload event then ok t else err inbox_conflict
record_event e id event t none = persist e id event t

-- `accept`, once the work is stored.
unfoldable pub accept_work : Encoding → Text → MediaFinalizedV1 → Tables → Result InboxError Tables
accept_work e id event t = do
  stored ← ok_or (find_job id t.jobs) (failed (text "inbox work lookup failed"))
  refuse_if (not (same_work stored.input event)) inbox_conflict
  record_event e id event t (find_event event.job_id t.inbox)

unfoldable pub accept : Encoding → ℕ → MediaFinalizedV1 → Text → Tables → Result InboxError Tables
accept e now event key t = do
  id ← map_err failed (validate_event e event key)
  accept_work e id event (record t { jobs = insert_job now id (input_of event) t.jobs })

-- What `claim` reads: the clock, for each row of the two selections and for the two times it writes,
-- and which rows `SKIP LOCKED` passes over.
pub record ClaimReads : Type 0 where
  pub budget_time : Text → ℕ
  pub select_time : Text → ℕ
  pub budget_locked : Text → Bool
  pub select_locked : Text → Bool
  pub lease_time : ℕ
  pub deadline_time : ℕ

unfoldable pub is_exhausted : ClaimReads → Job → Bool
is_exhausted reads j =
    is_active j.state
    && leb 3 j.attempts_in_revision
    && is_over j.lease_until (reads.budget_time j.processing_job_id)
    && not (reads.budget_locked j.processing_job_id)

unfoldable pub is_claimable : ClaimReads → Job → Bool
is_claimable reads j =
    is_active j.state
    && ltb j.attempts_in_revision 3
    && is_over j.lease_until (reads.select_time j.processing_job_id)
    && not (reads.select_locked j.processing_job_id)

-- `ORDER BY created_at`, and `ORDER BY created_at,processing_job_id`
abbrev pub by_age : Job → Job → Bool
by_age a b = leb a.created_at b.created_at

abbrev pub by_age_and_id : Job → Job → Bool
by_age_and_id a b =
    ltb a.created_at b.created_at
    || a.created_at == b.created_at && text_le a.processing_job_id b.processing_job_id

abbrev pub budget_reason : Text
budget_reason = text "attempt_budget_exhausted"

abbrev pub block : List Text → Job → Job
block ids j =
    if any (λ id. str_eq j.processing_job_id id) ids
    then record j { state = blocked; failure_reason = some budget_reason; lease_until = none }
    else j

unfoldable pub block_exhausted : ClaimReads → List Job → List Job
block_exhausted reads jobs =
    map
      (block (
        map (λ j. j.processing_job_id)
          (take 64 (order_by by_age (filter (is_exhausted reads) jobs)))))
      jobs

-- `LIMIT 1`
abbrev pub first_row : List Job → Option Job
first_row [] = none
first_row (j ∷ js) = some j

unfoldable pub select_job : ClaimReads → List Job → Option Job
select_job reads jobs = first_row (order_by by_age_and_id (filter (is_claimable reads) jobs))

abbrev pub leased : ClaimReads → Job → Job
leased reads j = record j {
  state = running;
  lease_generation = j.lease_generation + 1;
  attempts_in_revision = j.attempts_in_revision + 1;
  lease_until = some (reads.lease_time + 60 * 1000000);
  attempt_deadline = some (reads.deadline_time + 15 * 60 * 1000000);
  failure_reason = none;
}

abbrev pub assignment_of : ClaimReads → Job → List ObjectRef → Assignment
assignment_of reads j destinations = record {
  schema_version = 1;
  processing_job_id = j.processing_job_id;
  lease_generation = j.lease_generation + 1;
  input_revision = j.input_revision;
  source = j.input.source;
  destinations = destinations;
  sha256 = j.input.sha256;
  size = j.input.size;
  content_type = j.input.content_type;
  pipeline_version = j.input.pipeline_version;
  lease_expires_at = (reads.lease_time + 60 * 1000000) / 1000000;
  attempt_deadline = (reads.deadline_time + 15 * 60 * 1000000) / 1000000;
}

-- `claim`, once a row is selected. A generation that passes the greatest `i64` does not pass the
-- table's `CHECK`.
unfoldable pub hand_out :
    ClaimReads → Tables → Option Job → Result InboxError (Option Assignment × Tables)
hand_out reads t none = ok (none, t)
hand_out reads t (some j) = do
  refuse_if (leb max_i64 j.lease_generation) (failed (text "assignment lease persistence failed"))
  ok (
    some (assignment_of reads j (references_of j.processing_job_id t.destinations)),
    record t { jobs = put_job (leased reads j) t.jobs },
  )

unfoldable pub claim : ClaimReads → Tables → Result InboxError (Option Assignment × Tables)
claim reads t =
    let jobs = block_exhausted reads t.jobs in
    hand_out reads (record t { jobs = jobs }) (select_job reads jobs)

-- The row that a lease names, while it is held: of this generation and revision, and before its end
-- and its deadline, by the clock's two readings.
unfoldable pub is_held : Lease → ℕ → ℕ → Job → Bool
is_held lease now later j =
    j.lease_generation == lease.lease_generation
    && j.input_revision == lease.input_revision
    && same_state j.state running
    && is_after j.lease_until now
    && is_after j.attempt_deadline later

abbrev pub renewed : ℕ → Job → Job
renewed now j = record j { lease_until = some (least (now + 60 * 1000000) j.attempt_deadline) }

unfoldable pub renew : Lease → ℕ → ℕ → ℕ → Tables → Bool × Tables
renew lease now later last t =
    let (held, jobs) =
      update_row (is_held lease now later) (renewed last) t.jobs
        (find_job lease.processing_job_id t.jobs) in
    (held, record t { jobs = jobs })

abbrev pub finished : ObjectRef → Job → Job
finished marker j = record j { state = completed; manifest = some marker; lease_until = none }

-- Whether a row is what a completion under this lease with this marker left.
unfoldable pub is_receipt : Lease → ObjectRef → Job → Bool
is_receipt lease marker j = elim j.manifest [
  | none ↦ false
  | some manifest ↦
      same_state j.state completed
      && j.lease_generation == lease.lease_generation
      && j.input_revision == lease.input_revision
      && same_object manifest marker
]

-- `complete`, once the row is looked up.
unfoldable pub complete_row :
    Lease → ObjectRef → ℕ → ℕ → Tables → Option Job → Result InboxError (Bool × Tables)
complete_row lease marker now later t none = ok (false, t)
complete_row lease marker now later t (some j) = do
  refuse_if (not (is_marker_key j.input.sha256 marker.key)) invalid_completion
  if is_held lease now later j
      then ok (true, record t { jobs = put_job (finished marker j) t.jobs })
      else ok (is_receipt lease marker j, t)

unfoldable pub complete : Lease → ObjectRef → ℕ → ℕ → Tables → Result InboxError (Bool × Tables)
complete lease marker now later t = do
  map_err (λ e. invalid_completion) (validate_reference marker)
  complete_row lease marker now later t (find_job lease.processing_job_id t.jobs)
