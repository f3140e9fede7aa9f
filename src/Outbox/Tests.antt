-- ===== src/Outbox/Tests.antt =====
-- Runs of the outbox, and the theorems at these runs.
use mathlib.Core.List.{Memᴰ}
use divine_upload_server.Prelude.{
  ℕ, ◌≤◌, ◌≡◌, refl, subst, Bool, true, false, none, some, List, [], ◌∷◌, ◌++◌, arith,
}
use divine_upload_server.Query.{filter, first, insert_by, order_by}
use divine_upload_server.Result.{ok}
use divine_upload_server.Exec.{pure, act, ◌>>=◌}
use divine_upload_server.Exec.Success.{Succeeds, pure-Succeeds}
use divine_upload_server.Text.{
  Text, text, str_eq, byte_len, all_bytes, is_ascii_hexdigit, is_ascii_digit,
}
use divine_upload_server.Text.Signed.{ℤ}
use divine_upload_server.Storage.Objects.{
  ObjectRef, StorageProvider, WriteMode, same_version, same_provider, parse_write_mode,
}
use divine_upload_server.Storage.Media.{
  MediaStorage, with_mode, new, b2_bucket, writes_gcs, writes_b2,
}
use divine_upload_server.Processing.{
  MediaFinalizedV1, Encoding, new_event, refresh_job_id, is_empty, is_lower_hexdigit,
  version_or_empty,
}
use divine_upload_server.Resumable.Traits.{Failure}
use divine_upload_server.Outbox.Data.{
  Intent, OutboxRow, OutboxTables, find_intent, put_intent, is_intent, find_row, put_row,
  find_receipt, receipt_event, joined,
}
use divine_upload_server.Outbox.Destinations.{
  Destination, required_destinations, destinations_configured, is_available, matches_destinations,
}
use divine_upload_server.Outbox.Intents.{
  begin_or_resume_upload, reserve_upload, admit, admit_row, upsert_intent, upsert_row, new_intent,
  mode_text, same_mode,
}
use divine_upload_server.Outbox.Enqueue.{
  commit_row, fresh_row, enqueue_completed_session, has_session_receipt, enqueue_upload_inner,
  session_event, enqueue_new, intent_of_size, enqueue_intent, enqueue_event, event_of,
  check_replicas, is_historical, commit_event, add_receipt,
}
use divine_upload_server.Outbox.Receipts.{enqueue_completed_session-replays}
use divine_upload_server.Outbox.Policy.{Recorded, Follows, reserve_upload-Follows}
use divine_upload_server.Outbox.Admission.{begin_or_resume_upload-put-Matches}
use divine_upload_server.Storage.Placement.{B2Laws}
use divine_upload_server.Storage.Tests.{Disk, machine, both, written, stored, copies_laws}
use mathlib.Core.Option.{some-injective}
use divine_upload_server.Outbox.Dispatch.{
  Claimed, Dispatcher, is_due, select_due, claim_selected, claim_event, claimed_row, acknowledge,
  defer, retry_delay, offer, settle, rounds, dispatch_once,
}
use divine_upload_server.Outbox.Delivery.{
  IsKeyed, OutboxRun, claims, acknowledges, here, there, Keeps, run-Evolves,
}
use divine_upload_server.Outbox.Fencing.{claim_event-fences}
use divine_upload_server.Outbox.Progress.{
  LongestDue, claim_event-Progresses, CountsOnce, dispatch_once-le,
}
use divine_upload_server.Outbox.Drain.{due_count, table_dispatcher, dispatch_once-drains}
use divine_upload_server.Outbox.Retries.{retry_delay-bounds}

abbrev source : ObjectRef
source = record {
  provider = StorageProvider.gcs;
  bucket = text "media";
  key = text "k";
  version = some (text "v1");
}

abbrev event : MediaFinalizedV1
event = record {
  schema_version = 1;
  job_id = text "j";
  source = source;
  replicas = [];
  sha256 = text "k";
  size = 3;
  content_type = text "video/mp4";
  owner = some (text "o");
  pipeline_version = 1;
}

abbrev row : OutboxRow
row = fresh_row 5 event

abbrev free : Text → Bool
free id = false

abbrev claimed : List OutboxRow
claimed = claimed_row (text "t") 9 row ∷ []

row-IsKeyed : IsKeyed (row ∷ [])
unfolding find_row first str_eq text
row-IsKeyed = (refl, tt)

claimed_once :
    claim_event (text "t") 9 free (row ∷ [])
    ≡ (some (record { job_id = text "j"; payload = event; attempts = 1 }), claimed)
unfolding claim_event claim_selected select_due is_due filter order_by insert_by put_row str_eq text
claimed_once = refl

-- The event is delivered.
abbrev delivered : List OutboxRow
delivered = (acknowledge (text "j") (text "t") 20 claimed).1

claimed_and_delivered : OutboxRun (row ∷ []) delivered
unfolding claim_event claim_selected select_due is_due filter order_by insert_by put_row str_eq text
claimed_and_delivered =
    there _ _ _ (claims (text "t") 9 free (row ∷ []))
      (there _ _ _ (acknowledges (text "j") (text "t") 20 claimed) (here delivered))

run-Evolves_example : IsKeyed delivered × Keeps (row ∷ []) delivered
run-Evolves_example = run-Evolves claimed_and_delivered row-IsKeyed

others_token : str_eq (text "t") (text "u") ≡ false
unfolding str_eq text
others_token = refl

claim_event-fences_example :
    (acknowledge (text "j") (text "u") 20 claimed ≡ (0, claimed))
    × (defer (text "j") (text "u") 20 1 claimed ≡ (0, claimed))
    × ((acknowledge (text "j") (text "t") 20 claimed).0 ≡ 1)
    × ((r : OutboxRow) × (find_row (text "j") (acknowledge (text "j") (text "t") 20 claimed).1
          ≡ some r)
        × (r.delivered_at ≡ some 20)
        × (r.lease_token ≡ none))
claim_event-fences_example =
    claim_event-fences (text "t") (text "u") 9 20 1 free (row ∷ []) claimed
      (record { job_id = text "j"; payload = event; attempts = 1 }) row-IsKeyed claimed_once
      others_token

claim_event-Progresses_example :
    (c : Claimed) × (r : OutboxRow) × ((claim_event (text "t") 9 free (row ∷ [])).0 ≡ some c)
    × (c.job_id ≡ r.job_id)
    × (c.payload ≡ r.payload)
    × LongestDue 9 free (row ∷ []) r
claim_event-Progresses_example =
    claim_event-Progresses (text "t") 9 free (row ∷ []) row (Memᴰ.head refl)
      (refl, omega arith, refl)

retry_delay-bounds_example :
    (5 ≤ retry_delay (ℤ.pos 1))
    × (retry_delay (ℤ.pos 1) ≤ retry_delay (ℤ.pos 30))
    × (retry_delay (ℤ.pos 30) ≤ 81920)
retry_delay-bounds_example = retry_delay-bounds 1 30 (omega arith)

few_due : due_count 9 (row ∷ []) ≤ 1
unfolding filter is_due
few_due = omega arith

few_due_at_all : due_count 9 (row ∷ []) ≤ 100
few_due_at_all = omega (arith, few_due)

dispatch_once-drains_example :
    (m : ℕ) × ((dispatch_once (table_dispatcher (text "t") 9) 1 (row ∷ [])).0 ≡ ok m)
    × (due_count 9 (dispatch_once (table_dispatcher (text "t") 9) 1 (row ∷ [])).1 ≡ 0)
dispatch_once-drains_example =
    dispatch_once-drains (text "t") 9 1 (row ∷ []) row-IsKeyed few_due few_due_at_all

-- A dispatcher that always has an event.
abbrev busy : Dispatcher ℕ
busy = record {
  token = λ w. (text "t", w);
  claim = λ t. pure (some (record { job_id = text "j"; payload = event; attempts = 1 }));
  acknowledge = λ id t. pure 1;
  defer = λ id t attempts. pure 1;
  deliver = λ event. pure tt;
}

busy-CountsOnce : CountsOnce busy
busy-CountsOnce id t w n h = omega (arith, pure-Succeeds {E = Failure} 1 w n h)

busy_dispatch : Succeeds (dispatch_once busy 3) 0 3
unfolding dispatch_once rounds ◌>>=◌ pure act offer settle
busy_dispatch = refl

dispatch_once-le_example : (3 ≤ 3) × (3 ≤ 100)
dispatch_once-le_example = dispatch_once-le busy 3 0 3 busy-CountsOnce busy_dispatch

-- An upload of two bytes that was begun in Google Cloud Storage alone.
abbrev begun : Intent
begun = record {
  sha256 = text "k";
  owner = text "o";
  size = 2;
  content_type = text "video/mp4";
  write_mode = text "gcs";
  gcs_bucket = text "media";
  b2_bucket = none;
  completed = false;
  updated_at = 3;
}

abbrev begun_tables : OutboxTables
begun_tables = record { intents = begun ∷ []; outbox = []; receipts = [] }

abbrev in_gcs : MediaStorage Disk
in_gcs = record both { mode = WriteMode.gcs }

resumed :
    Succeeds
      (reserve_upload both (text "k") 2 (text "image/png") (text "o") true 5)
      begun_tables
      in_gcs
unfolding reserve_upload admit_row admit upsert_intent upsert_row find_intent is_intent first str_eq
    text put_intent parse_write_mode is_available required_destinations destinations_configured
    same_version with_mode new writes_gcs writes_b2 mode_text b2_bucket
resumed = refl

reserve_upload-Follows_example :
    (r : Intent) × Recorded
      (new_intent both (text "k") 2 (text "image/png") (text "o") 5)
      (begun ∷ [])
      r
      (reserve_upload both (text "k") 2 (text "image/png") (text "o") true 5 begun_tables).1.intents
    × Follows in_gcs 2 r
reserve_upload-Follows_example =
    reserve_upload-Follows both (text "k") 2 (text "image/png") (text "o") true 5 begun_tables
      in_gcs resumed

abbrev no_tables : OutboxTables
no_tables = record { intents = []; outbox = []; receipts = [] }

admitted :
    Succeeds
      (begin_or_resume_upload both (text "k") 2 (text "video/mp4") (text "o") 5)
      no_tables
      both
unfolding begin_or_resume_upload reserve_upload admit_row admit upsert_intent upsert_row find_intent
    is_intent first str_eq text put_intent parse_write_mode is_available required_destinations
    destinations_configured same_version with_mode new writes_gcs writes_b2 mode_text b2_bucket
    same_mode
admitted = refl

begin_or_resume_upload-put-Matches_example :
    (r : Intent) × (mode : WriteMode) × (expected : List Destination) × (find_intent
        (text "k")
        (text "o")
        (begin_or_resume_upload both
          (text "k")
          2
          (text "video/mp4")
          (text "o")
          5
          no_tables).1.intents
      ≡ some r)
    × (parse_write_mode r.write_mode ≡ ok mode)
    × (required_destinations mode r.gcs_bucket r.b2_bucket ≡ ok expected)
    × (matches_destinations written.objects expected ≡ true)
begin_or_resume_upload-put-Matches_example =
    begin_or_resume_upload-put-Matches machine both (text "k") 2 (text "video/mp4") (text "o") 5
      no_tables both (text "k") (7 ∷ 8 ∷ []) none written
      (λ b2 here. subst (λ x. B2Laws x) (some-injective _ _ here) copies_laws) admitted stored

-- An encoding that keeps the key of the source.
abbrev encoding : Encoding
encoding = record {
  digest = λ bytes. bytes;
  hex = λ bytes. bytes;
  json_reference = λ r. r.bucket ++ r.key;
  json_event = λ pipeline source replicas owner. pipeline ∷ source.key;
  json_work = λ label pipeline source. label ++ pipeline ∷ source.key;
}

abbrev hash : Text
hash = text "aaaaaaaaaaaaaaaaaaaaaaaaaaaaaaaaaaaaaaaaaaaaaaaaaaaaaaaaaaaaaaaa"

abbrev upload : Intent
upload = record begun { sha256 = hash; owner = hash }

abbrev upload_tables : OutboxTables
upload_tables = record { intents = upload ∷ []; outbox = []; receipts = [] }

abbrev object : ObjectRef
object = record source { key = hash }

abbrev completed : OutboxTables
completed = record {
  intents = record upload { completed = true; updated_at = 9 } ∷ [];
  outbox =
      fresh_row 9 (record event {
        job_id = 1 ∷ hash;
        source = object;
        sha256 = hash;
        size = 2;
        owner = some hash;
      })
      ∷ [];
  receipts = record { upload_id = text "s"; job_id = 1 ∷ hash } ∷ [];
}

completes :
    enqueue_completed_session encoding 9 (text "s") hash 2 hash (object ∷ []) upload_tables
    ≡ ok completed
unfolding enqueue_completed_session enqueue_upload_inner session_event receipt_event joined
    find_receipt enqueue_new intent_of_size enqueue_intent enqueue_event event_of check_replicas
    new_event refresh_job_id is_historical commit_event commit_row add_receipt find_row find_intent
    put_intent is_intent first str_eq text parse_write_mode required_destinations
    matches_destinations same_provider is_empty byte_len all_bytes is_lower_hexdigit
    is_ascii_hexdigit is_ascii_digit version_or_empty
completes = refl

named : is_empty hash ≡ false
unfolding is_empty byte_len text
named = refl

absent : {X : Type 0} (id : Text) (r : OutboxRow) → find_row id [] ≡ some r → X
unfolding find_row first
absent id r h = cc

enqueue_completed_session-replays_example :
    (enqueue_completed_session encoding 20 (text "s") hash 2 hash (source ∷ []) completed
      ≡ ok completed)
    × (has_session_receipt (text "s") hash 2 hash completed ≡ ok true)
enqueue_completed_session-replays_example =
    enqueue_completed_session-replays encoding hash 2 hash (text "s") 9 20 (object ∷ []) source []
      upload_tables completed named
      (λ content_type source replicas event r made there. absent event.job_id r there) completes
