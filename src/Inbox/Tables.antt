-- ===== src/Inbox/Tables.antt =====
-- The tables of database/migrations/003_finalization_inbox.sql and the statements that src/inbox.rs
-- runs on them. A table is the list of its rows; a JSONB column holds the value that is stored.
use divine_upload_server.Query.{first, filter, order_by, text_le}
use divine_upload_server.Prelude.{
  ℕ, min, Bool, true, false, ◌||◌, ◌&&◌, Option, none, some, List, [], ◌∷◌, ◌++◌, map, ltb, leb,
  ◌==◌, if◌then◌else◌, any,
}
use divine_upload_server.Text.{Text, str_eq}
use divine_upload_server.Storage.Objects.{ObjectRef, same_object, same_version}
use divine_upload_server.Processing.{MediaFinalizedV1}
use divine_upload_server.Inbox.Data.{
  ProcessingInput, JobState, pending, running, completed, blocked,
}

-- A row of media_processing_jobs; times are microseconds.
pub record Job : Type 0 where
  pub processing_job_id : Text
  pub input : ProcessingInput
  pub input_revision : ℕ
  pub lease_generation : ℕ
  pub attempts_in_revision : ℕ
  pub lease_until : Option ℕ
  pub attempt_deadline : Option ℕ
  pub state : JobState
  pub failure_reason : Option Text
  pub manifest : Option ObjectRef
  pub created_at : ℕ

-- A row of media_finalization_inbox, less the columns that this code neither writes nor reads.
pub record InboxRow : Type 0 where
  pub job_id : Text
  pub processing_job_id : Text
  pub payload : MediaFinalizedV1

-- A row of media_processing_destinations.
pub record Destination : Type 0 where
  pub processing_job_id : Text
  pub identity_key : Text
  pub object_ref : ObjectRef

pub record Tables : Type 0 where
  pub jobs : List Job
  pub inbox : List InboxRow
  pub destinations : List Destination

unfoldable pub same_state : JobState → JobState → Bool
same_state pending pending = true
same_state running running = true
same_state completed completed = true
same_state blocked blocked = true
same_state _ _ = false

-- `state IN ('pending','running')`
unfoldable pub is_active : JobState → Bool
is_active s = same_state s pending || same_state s running

-- `lease_until IS NULL OR lease_until<=now`, and `t>now`, which is not true of NULL.
unfoldable pub is_over : Option ℕ → ℕ → Bool
is_over none now = true
is_over (some until) now = leb until now

unfoldable pub is_after : Option ℕ → ℕ → Bool
is_after none now = false
is_after (some until) now = ltb now until

-- `LEAST`, which passes over NULL.
unfoldable pub least : ℕ → Option ℕ → ℕ
least a none = a
least a (some b) = min a b

unfoldable pub find_job : Text → List Job → Option Job
find_job id = first (λ j. str_eq j.processing_job_id id)

-- The row with the primary key of `j` becomes `j`.
unfoldable pub put_job : Job → List Job → List Job
put_job j = map (λ k. if str_eq k.processing_job_id j.processing_job_id then j else k)

-- `UPDATE ... SET ... WHERE processing_job_id=... AND condition` on the row of that key, and whether
-- it was changed.
unfoldable pub update_row : (Job → Bool) → (Job → Job) → List Job → Option Job → Bool × List Job
update_row condition change jobs none = (false, jobs)
update_row condition change jobs (some j) =
    if condition j then (true, put_job (change j) jobs) else (false, jobs)

abbrev pub new_job : ℕ → Text → ProcessingInput → Job
new_job now id input = record {
  processing_job_id = id;
  input = input;
  input_revision = 0;
  lease_generation = 0;
  attempts_in_revision = 0;
  lease_until = none;
  attempt_deadline = none;
  state = pending;
  failure_reason = none;
  manifest = none;
  created_at = now;
}

-- `INSERT ... ON CONFLICT DO NOTHING` with the defaults of the table.
unfoldable pub insert_job : ℕ → Text → ProcessingInput → List Job → List Job
insert_job now id input jobs = elim (find_job id jobs) [
  | none ↦ jobs ++ new_job now id input ∷ []
  | some j ↦ jobs
]

unfoldable pub find_event : Text → List InboxRow → Option InboxRow
find_event job_id = first (λ row. str_eq row.job_id job_id)

unfoldable pub has_destination : Text → Text → List Destination → Bool
has_destination id identity =
    any (λ d. str_eq d.processing_job_id id && str_eq d.identity_key identity)

unfoldable pub destinations_of : Text → List Destination → List Destination
destinations_of id = filter (λ d. str_eq d.processing_job_id id)

-- `ORDER BY identity_key`
unfoldable pub references_of : Text → List Destination → List ObjectRef
references_of id rows =
    map (λ d. d.object_ref)
      (order_by (λ a b. text_le a.identity_key b.identity_key) (destinations_of id rows))

unfoldable pub same_objects : List ObjectRef → List ObjectRef → Bool
same_objects [] [] = true
same_objects (a ∷ others) (b ∷ bs) = same_object a b && same_objects others bs
same_objects _ _ = false

-- Equality of two stored payloads.
unfoldable pub same_event : MediaFinalizedV1 → MediaFinalizedV1 → Bool
same_event a b =
    a.schema_version == b.schema_version
    && str_eq a.job_id b.job_id
    && same_object a.source b.source
    && same_objects a.replicas b.replicas
    && str_eq a.sha256 b.sha256
    && a.size == b.size
    && str_eq a.content_type b.content_type
    && same_version a.owner b.owner
    && a.pipeline_version == b.pipeline_version
