-- ===== src/Inbox/Tests.antt =====
-- Runs of the inbox, and the theorems at these runs.
use divine_upload_server.Query.{filter, first, insert_by, order_by}
use divine_upload_server.Prelude.{
  ℕ, ◌<◌, ◌≡◌, refl, subst, inl, inr, false, some, List, [], ◌∷◌, arith, Bool-cases, ◌++◌,
}
use divine_upload_server.Prelude.{true}
use divine_upload_server.Inbox.Receipts.{complete-complete}
use divine_upload_server.Text.{ends_with, split}
use divine_upload_server.Inbox.Tables.{is_after}
use divine_upload_server.Inbox.Validate.{is_marker_key}
use divine_upload_server.Inbox.Store.{complete_row, is_held, finished}
use mathlib.Core.Option.{some-injective}
use divine_upload_server.Prelude.{none}
use divine_upload_server.Text.{
  Text, byte_len, all_bytes, contains, contains_char, starts_with, is_ascii_alphanumeric,
  is_ascii_digit,
}
use divine_upload_server.Storage.Objects.{same_object, same_provider, same_version}
use divine_upload_server.Processing.{
  MediaFinalizedV1, version_or_empty, refresh_job_id, is_empty, is_lower_hexdigit,
}
use divine_upload_server.Inbox.Data.{input_of}
use divine_upload_server.Inbox.Validate.{
  validate_event, validate_copies, validate_reference, is_hash, is_bad_owner,
}
use divine_upload_server.Inbox.Tables.{find_event, insert_job, has_destination}
use divine_upload_server.Inbox.Store.{
  accept, accept_work, record_event, persist, add_destinations, revise, revised, same_work,
}
use divine_upload_server.Inbox.Replay.{accept-accept}
use divine_upload_server.Result.{ok}
use divine_upload_server.Text.{text, str_eq}
use divine_upload_server.Storage.Objects.{ObjectRef, StorageProvider}
use divine_upload_server.Processing.{Encoding}
use divine_upload_server.Inbox.Data.{ProcessingInput, Lease}
use divine_upload_server.Inbox.Tables.{
  Job, Tables, find_job, is_active, is_over, same_state, put_job, new_job, references_of,
  destinations_of,
}
use divine_upload_server.Inbox.Store.{
  ClaimReads, claim, hand_out, select_job, block_exhausted, is_exhausted, is_claimable, renew,
  complete, assignment_of, leased,
}
use divine_upload_server.Inbox.Laws.{IsKeyed}
use divine_upload_server.Inbox.History.{Operation, claiming, renewing, run, run-Advances, Advances}
use divine_upload_server.Inbox.Fencing.{Superseded-fenced, Refused, claim-claim-Increases}
use divine_upload_server.Inbox.Deadlines.{run-AllGood, AllGood, IsGood}

-- An encoding that keeps what it is given apart only by version.
abbrev encoding : Encoding
encoding = record {
  digest = λ bytes. bytes;
  hex = λ bytes. bytes;
  json_reference = λ r. r.bucket ++ r.key;
  json_event = λ pipeline source replicas owner. pipeline ∷ source.key;
  json_work = λ label pipeline source. label ++ pipeline ∷ source.key;
}

abbrev source : ObjectRef
source = record {
  provider = StorageProvider.b2;
  bucket = text "media";
  key = text "k";
  version = some (text "v1");
}

abbrev input : ProcessingInput
input = record {
  source = source;
  sha256 = text "k";
  size = 3;
  content_type = text "video/mp4";
  pipeline_version = 1;
}

abbrev waiting : Job
waiting = new_job 5 (text "a") input

abbrev tables : Job → Tables
tables j = record { jobs = j ∷ []; inbox = []; destinations = [] }

-- A claim at one moment.
abbrev reads_at : ℕ → ClaimReads
reads_at now = record {
  budget_time = λ id. now;
  select_time = λ id. now;
  budget_locked = λ id. false;
  select_locked = λ id. false;
  lease_time = now;
  deadline_time = now;
}

abbrev first_claim : Job
first_claim = leased (reads_at 10) waiting

abbrev second_claim : Job
second_claim = leased (reads_at 70000000) first_claim

waiting-IsKeyed : IsKeyed (tables waiting).jobs
unfolding find_job first str_eq text
waiting-IsKeyed = (refl, tt)

second-IsKeyed : IsKeyed (tables second_claim).jobs
unfolding find_job first str_eq text
second-IsKeyed = (refl, tt)

claimed_once :
    claim (reads_at 10) (tables waiting)
    ≡ ok (some (assignment_of (reads_at 10) waiting []), tables first_claim)
unfolding claim hand_out select_job block_exhausted is_exhausted is_claimable filter order_by
    insert_by is_active is_over same_state put_job find_job first str_eq text references_of
    destinations_of
claimed_once = refl

-- A minute later the lease is over, and the job is handed out again.
claimed_again :
    claim (reads_at 70000000) (run encoding [] (tables first_claim))
    ≡ ok (some (assignment_of (reads_at 70000000) first_claim []), tables second_claim)
unfolding claim hand_out select_job block_exhausted is_exhausted is_claimable filter order_by
    insert_by is_active is_over same_state put_job find_job first str_eq text references_of
    destinations_of run
claimed_again = refl

claim-claim-Increases_example : 1 < 2
claim-claim-Increases_example =
    claim-claim-Increases encoding (reads_at 10) (reads_at 70000000) [] (tables waiting)
      (tables first_claim) (tables second_claim) (assignment_of (reads_at 10) waiting [])
      (assignment_of (reads_at 70000000) first_claim []) waiting-IsKeyed claimed_once claimed_again
      refl

abbrev first_lease : Lease
first_lease = record { processing_job_id = text "a"; lease_generation = 1; input_revision = 0 }

abbrev renewal : List Operation
renewal = renewing first_lease 70000001 70000001 70000001 ∷ []

Superseded-fenced_example :
    (renew first_lease 70000002 70000002 70000002 (run encoding renewal (tables second_claim))
      ≡ (false, run encoding renewal (tables second_claim)))
    × Refused
        (run encoding renewal (tables second_claim))
        (complete first_lease source 70000002 70000002 (run encoding renewal (tables second_claim)))
unfolding find_job first str_eq text
Superseded-fenced_example =
    Superseded-fenced encoding first_lease (tables second_claim) second_claim renewal source
      70000002 70000002 70000002 second-IsKeyed refl (inl (omega arith))

run-Advances_example :
    (k : Job) × (find_job (text "a") (run encoding renewal (tables second_claim)).jobs ≡ some k)
    × Advances second_claim k
unfolding find_job first str_eq text
run-Advances_example =
    run-Advances encoding renewal (tables second_claim) (text "a") second_claim second-IsKeyed refl

waiting-AllGood : AllGood (tables waiting)
unfolding find_job first
waiting-AllGood id j e = elim (Bool-cases (str_eq waiting.processing_job_id id)) [
  | inl hit ↦
      subst IsGood (some-injective _ _ (rw hit at e))
        (record { attempts = omega arith; lease = tt; manifest = tt })
  | inr miss ↦ cc (rw miss at e)
]

run-AllGood_example : AllGood (run encoding (claiming (reads_at 10) ∷ renewal) (tables waiting))
run-AllGood_example =
    run-AllGood encoding (claiming (reads_at 10) ∷ renewal) (tables waiting) (omega arith, (tt, tt))
      waiting-IsKeyed waiting-AllGood

-- An event for the bytes "aa...a", with an identity that the encoding gives it.
abbrev pub hash : Text
hash = text "aaaaaaaaaaaaaaaaaaaaaaaaaaaaaaaaaaaaaaaaaaaaaaaaaaaaaaaaaaaaaaaa"

abbrev copy : ObjectRef
copy = record source { key = hash }

-- Every identity is this hash.
abbrev pub one_hash : Encoding
one_hash = record encoding { hex = λ bytes. hash }

abbrev pub event : MediaFinalizedV1
event = record {
  schema_version = 1;
  job_id = hash;
  source = copy;
  replicas = [];
  sha256 = hash;
  size = 3;
  content_type = text "video/mp4";
  owner = none;
  pipeline_version = 1;
}

abbrev empty : Tables
empty = record { jobs = []; inbox = []; destinations = [] }

abbrev recorded : Tables
recorded = record {
  jobs = revised (new_job 5 hash (input_of event)) ∷ [];
  inbox = record { job_id = hash; processing_job_id = hash; payload = event } ∷ [];
  destinations = record { processing_job_id = hash; identity_key = hash; object_ref = copy } ∷ [];
}

accepted_once : accept one_hash 5 event hash empty ≡ ok recorded
unfolding accept accept_work record_event persist add_destinations revise insert_job find_job
    find_event first put_job same_work same_object same_provider same_version str_eq text
    validate_event validate_copies validate_reference version_or_empty refresh_job_id is_hash
    is_bad_owner is_empty byte_len all_bytes contains contains_char starts_with
    is_ascii_alphanumeric is_ascii_digit is_lower_hexdigit input_of has_destination destinations_of
    filter same_state
accepted_once = refl

accept-accept_example :
    accept one_hash 9 event hash (run one_hash (claiming (reads_at 10) ∷ []) recorded)
    ≡ ok (run one_hash (claiming (reads_at 10) ∷ []) recorded)
accept-accept_example =
    accept-accept one_hash event hash 5 9 empty recorded (claiming (reads_at 10) ∷ []) tt
      accepted_once

-- A worker completes in time, and repeats its completion after the lease would have ended.
abbrev marker : ObjectRef
marker = record source { key = text "_private/artifact-families/v1/k/complete.json" }

abbrev done : Job
done = finished marker first_claim

completed_once : complete first_lease marker 20 20 (tables first_claim) ≡ ok (true, tables done)
unfolding complete complete_row is_held is_marker_key validate_reference version_or_empty is_empty
    byte_len all_bytes contains contains_char starts_with ends_with split is_ascii_alphanumeric
    is_ascii_digit same_state is_after put_job find_job first str_eq text same_provider
completed_once = refl

first-IsKeyed : IsKeyed (tables first_claim).jobs
unfolding find_job first str_eq text
first-IsKeyed = (refl, tt)

complete-complete_example :
    complete first_lease marker 70000002 70000002 (run encoding [] (tables done))
    ≡ ok (true, run encoding [] (tables done))
unfolding run find_job first str_eq text
complete-complete_example =
    complete-complete encoding first_lease marker 20 20 70000002 70000002 (tables first_claim)
      (tables done) [] done first-IsKeyed completed_once refl refl
