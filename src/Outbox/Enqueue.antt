-- ===== src/Outbox/Enqueue.antt =====
-- `enqueue_upload_inner` of src/outbox.rs and its callers: an upload that is stored becomes an event,
-- its intent is completed, and its session gets a receipt, all in one transaction. A result has the
-- tables that are committed; an error commits nothing.
use divine_upload_server.Prelude.{
  ℕ, Bool, true, false, not, ◌&&◌, ◌||◌, Option, none, some, List, [], ◌∷◌, ◌++◌, ltb, ◌==◌,
  if◌then◌else◌,
}
use divine_upload_server.Query.{filter}
use divine_upload_server.Result.{Result, ok, err, map_err, refuse_if, ◌>>=◌, ◌>>◌}
use divine_upload_server.Text.{Text, text, str_eq}
use divine_upload_server.Text.Signed.{max_i64}
use divine_upload_server.Storage.Objects.{ObjectRef, same_version, parse_write_mode}
use divine_upload_server.Processing.{MediaFinalizedV1, Encoding, new_event, refresh_job_id}
use divine_upload_server.Inbox.Tables.{same_event}
use divine_upload_server.Outbox.Data.{
  Intent, OutboxRow, SessionReceipt, OutboxTables, find_intent, put_intent, find_row, put_row,
  find_receipt, receipt_event,
}
use divine_upload_server.Outbox.Destinations.{required_destinations, matches_destinations}
use divine_upload_server.Resumable.Traits.{Failure, other, intent_conflict}

abbrev pub no_intent : Failure
no_intent = other (text "processing event has no matching upload intent")

unfoldable pub check_session_receipt : MediaFinalizedV1 → Text → ℕ → Text → Result Failure Unit
check_session_receipt event hash size owner =
    refuse_if
      (not (str_eq event.sha256 hash)
        || not (event.size == size)
        || not (same_version event.owner (some owner)))
      (other (text "session receipt does not match the completed upload"))

unfoldable pub has_session_receipt : Text → Text → ℕ → Text → OutboxTables → Result Failure Bool
has_session_receipt upload_id hash size owner t = elim (receipt_event upload_id t) [
  | none ↦ ok false
  | some event ↦ do check_session_receipt event hash size owner; ok true
]

unfoldable pub forget_session_receipt : Text → OutboxTables → OutboxTables
forget_session_receipt upload_id t = record t {
  receipts = filter (λ r. not (str_eq r.upload_id upload_id)) t.receipts;
}

-- `INSERT ... ON CONFLICT(job_id) DO UPDATE SET finalized_at=clock_timestamp()`; a new row is due at
-- once.
abbrev pub fresh_row : ℕ → MediaFinalizedV1 → OutboxRow
fresh_row now event = record {
  job_id = event.job_id;
  payload = event;
  attempts = 0;
  next_attempt_at = now;
  lease_token = none;
  delivered_at = none;
  finalized_at = now;
}

unfoldable pub commit_row :
    ℕ → MediaFinalizedV1 → List OutboxRow → Option OutboxRow → List OutboxRow
commit_row now event rows none = rows ++ fresh_row now event ∷ []
commit_row now event rows (some r) = put_row (record r { finalized_at = now }) rows

-- The receipt of a session, of which there is one.
unfoldable pub add_receipt :
    Option Text → Text → List SessionReceipt → Result Failure (List SessionReceipt)
add_receipt none job_id receipts = ok receipts
add_receipt (some upload_id) job_id receipts = elim (find_receipt upload_id receipts) [
  | none ↦ ok (receipts ++ record { upload_id = upload_id; job_id = job_id } ∷ [])
  | some r ↦ err (other (text "processing receipt persistence failed"))
]

-- Each replica must pass the checks of an event of its own.
unfoldable pub check_replicas :
    Encoding → Text → ℕ → Text → Text → List ObjectRef → Result Failure Unit
check_replicas e hash size content_type owner [] = ok tt
check_replicas e hash size content_type owner (replica ∷ replicas) =
    let rest = check_replicas e hash size content_type owner replicas in
    do checked ← map_err other (new_event e hash size content_type owner replica); rest

-- The event of a stored upload.
unfoldable pub event_of :
    Encoding → Text → ℕ → Text → Text → ObjectRef → List ObjectRef → Result Failure MediaFinalizedV1
event_of e hash size content_type owner source replicas = do
  event ← map_err other (new_event e hash size content_type owner source)
  check_replicas e hash size content_type owner replicas
  ok (refresh_job_id e (record event { replicas = replicas }))

-- The same event has been committed before.
unfoldable pub is_same_payload : Option OutboxRow → MediaFinalizedV1 → Bool
is_same_payload none event = false
is_same_payload (some r) event = same_event r.payload event

abbrev pub is_some_id : Option Text → Bool
is_some_id none = false
is_some_id (some id) = true

unfoldable pub is_historical : Option Text → Bool → MediaFinalizedV1 → List OutboxRow → Bool
unfolding is_same_payload
is_historical upload_id matches event rows =
    is_some_id upload_id && not matches && is_same_payload (find_row event.job_id rows) event

-- The row and the intent, unless the event is an old one.
unfoldable pub commit_event : ℕ → Intent → MediaFinalizedV1 → OutboxTables → OutboxTables
commit_event now intent event t = record t {
  outbox = commit_row now event t.outbox (find_row event.job_id t.outbox);
  intents = put_intent (record intent { completed = true; updated_at = now }) t.intents;
}

abbrev pub committed_tables : ℕ → Intent → MediaFinalizedV1 → Bool → OutboxTables → OutboxTables
committed_tables now intent event historical t =
    if historical then t else commit_event now intent event t

-- From the event on.
unfoldable pub enqueue_event :
    ℕ → Option Text → Bool → Intent → MediaFinalizedV1 → OutboxTables → Result Failure OutboxTables
enqueue_event now upload_id matches intent event t =
    let historical = is_historical upload_id matches event t.outbox in
    do
      refuse_if (not matches && not historical) intent_conflict
      receipts ←
          add_receipt upload_id event.job_id
            (committed_tables now intent event historical t).receipts
      ok (record (committed_tables now intent event historical t) { receipts = receipts })

-- From the intent on.
unfoldable pub enqueue_intent :
    Encoding
    → ℕ
    → Text
    → ℕ
    → Text
    → ObjectRef
    → List ObjectRef
    → Option Text
    → Intent
    → OutboxTables
    → Result Failure OutboxTables
enqueue_intent e now hash size owner source replicas upload_id intent t = do
  mode ← map_err other (parse_write_mode intent.write_mode)
  expected ← required_destinations mode intent.gcs_bucket intent.b2_bucket
  event ← event_of e hash size intent.content_type owner source replicas
  enqueue_event now upload_id (matches_destinations (source ∷ replicas) expected) intent event t

-- `... WHERE sha256=$1 AND owner=$2 AND size=$3`
unfoldable pub intent_of_size : ℕ → Option Intent → Result Failure Intent
intent_of_size size none = err no_intent
intent_of_size size (some i) = if i.size == size then ok i else err no_intent

-- The event that a session has already committed.
unfoldable pub session_event : Option Text → OutboxTables → Option MediaFinalizedV1
session_event none t = none
session_event (some upload_id) t = receipt_event upload_id t

unfoldable pub enqueue_new :
    Encoding
    → ℕ
    → Text
    → ℕ
    → Text
    → ObjectRef
    → List ObjectRef
    → Option Text
    → OutboxTables
    → Result Failure OutboxTables
unfolding intent_of_size
enqueue_new e now hash size owner source replicas upload_id t = do
  intent ← intent_of_size size (find_intent hash owner t.intents)
  enqueue_intent e now hash size owner source replicas upload_id intent t

unfoldable pub enqueue_upload_inner :
    Encoding
    → ℕ
    → Text
    → ℕ
    → Text
    → List ObjectRef
    → Option Text
    → OutboxTables
    → Result Failure OutboxTables
enqueue_upload_inner e now hash size owner objects upload_id t = do
  refuse_if (ltb max_i64 size) (other (text "upload size exceeds database range"))
  elim objects [
    | [] ↦ err (other (text "processing requires a verified storage object"))
    | source ∷ replicas ↦ elim (session_event upload_id t) [
      | some event ↦ do check_session_receipt event hash size owner; ok t
      | none ↦ enqueue_new e now hash size owner source replicas upload_id t
    ]
  ]

unfoldable pub enqueue_upload :
    Encoding → ℕ → Text → ℕ → Text → List ObjectRef → OutboxTables → Result Failure OutboxTables
enqueue_upload e now hash size owner objects =
    enqueue_upload_inner e now hash size owner objects none

unfoldable pub enqueue_completed_session :
    Encoding
    → ℕ
    → Text
    → Text
    → ℕ
    → Text
    → List ObjectRef
    → OutboxTables
    → Result Failure OutboxTables
enqueue_completed_session e now upload_id hash size owner objects =
    enqueue_upload_inner e now hash size owner objects (some upload_id)
