-- ===== src/Inbox/Data.antt =====
-- The data types of src/inbox.rs and the settings of the inbox.
use divine_upload_server.Prelude.{
  ℕ, String, Bool, true, false, not, ◌||◌, ◌&&◌, Option, none, some, List, leb, if◌then◌else◌,
}
use divine_upload_server.Result.{Result, ok, err, ok_or, refuse_if, ◌>>=◌, ◌>>◌}
use divine_upload_server.Text.{Text, text, str_eq, byte_len, all_bytes}
use divine_upload_server.Storage.Objects.{ObjectRef}
use divine_upload_server.Processing.{MediaFinalizedV1}

pub record Assignment : Type 0 where
  pub schema_version : ℕ
  pub processing_job_id : Text
  pub lease_generation : ℕ
  pub input_revision : ℕ
  pub source : ObjectRef
  pub destinations : List ObjectRef
  pub sha256 : Text
  pub size : ℕ
  pub content_type : Text
  pub pipeline_version : ℕ
  pub lease_expires_at : ℕ
  pub attempt_deadline : ℕ

pub record Lease : Type 0 where
  pub processing_job_id : Text
  pub lease_generation : ℕ
  pub input_revision : ℕ

-- `state TEXT CHECK (state IN (...))`
pub data JobState : Type 0 where
  pending running completed blocked : JobState

pub record ProcessingReceipt : Type 0 where
  pub schema_version : ℕ
  pub processing_job_id : Text
  pub input_revision : ℕ
  pub lease_generation : ℕ
  pub state : JobState
  pub source : ObjectRef
  pub destinations : List ObjectRef
  pub sha256 : Text
  pub size : ℕ
  pub content_type : Text
  pub pipeline_version : ℕ
  pub manifest : Option ObjectRef

unfoldable pub lease_of : Assignment → Lease
lease_of a = record {
  processing_job_id = a.processing_job_id;
  lease_generation = a.lease_generation;
  input_revision = a.input_revision;
}

pub record ProcessingInput : Type 0 where
  pub source : ObjectRef
  pub sha256 : Text
  pub size : ℕ
  pub content_type : Text
  pub pipeline_version : ℕ

unfoldable pub input_of : MediaFinalizedV1 → ProcessingInput
input_of event = record {
  source = event.source;
  sha256 = event.sha256;
  size = event.size;
  content_type = event.content_type;
  pipeline_version = event.pipeline_version;
}

-- The errors of the inbox: `InboxConflict`, `InvalidCompletion`, and the others by their message.
pub data InboxError : Type 0 where
  inbox_conflict invalid_completion : InboxError
  failed : Text → InboxError

pub record InboxSettings : Type 0 where
  pub intake_token : Text
  pub worker_token : Text
  pub producer_journal_enabled : Bool

-- A switch: unset or `false`, or `true`.
unfoldable pub read_switch : String → Option Text → Result Text Bool
read_switch message none = ok false
read_switch message (some value) =
    if str_eq value (text "false")
    then ok false
    else if str_eq value (text "true")
    then ok true
    else err (text message)

unfoldable pub read_token : (String → Option Text) → String → Result Text Text
read_token lookup name = do
  token ← ok_or (lookup name) (text "inbox intake and worker tokens required")
  refuse_if
      (not (leb 16 (byte_len token) && leb (byte_len token) 1024)
        || not (all_bytes (λ b. leb 33 b && leb b 126) token))
      (text "invalid inbox credential configuration")
  ok token

-- `InboxSettings::from_lookup`
unfoldable pub from_lookup : (String → Option Text) → Result Text (Option InboxSettings)
from_lookup lookup = do
  journal ←
      read_switch "MEDIA_PROCESSING_JOURNAL_ENABLED must be true or false"
        (lookup "MEDIA_PROCESSING_JOURNAL_ENABLED")
  enabled ←
      read_switch "MEDIA_FINALIZED_INBOX_ENABLED must be true or false"
        (lookup "MEDIA_FINALIZED_INBOX_ENABLED")
  if not enabled
      then (if journal
          then err (text "producer journal requires the finalization inbox")
          else ok none)
      else (do
        intake_token ← read_token lookup "MEDIA_FINALIZED_INBOX_TOKEN"
        worker_token ← read_token lookup "MEDIA_PROCESSING_WORKER_TOKEN"
        refuse_if (str_eq intake_token worker_token)
            (text "inbox intake and worker credentials must differ")
        ok (
            some (record {
              intake_token = intake_token;
              worker_token = worker_token;
              producer_journal_enabled = journal;
            })))
