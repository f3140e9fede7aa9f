-- ===== src/Outbox/Data.antt =====
-- The tables of database/migrations/002_processing_outbox.sql, as lists of rows, and their queries.
use divine_upload_server.Prelude.{ℕ, Bool, ◌&&◌, Option, none, some, List, if◌then◌else◌, map}
use divine_upload_server.Query.{first}
use divine_upload_server.Text.{Text, str_eq}
use divine_upload_server.Processing.{MediaFinalizedV1}

-- A row of upload_processing_intents.
pub record Intent : Type 0 where
  pub sha256 : Text
  pub owner : Text
  pub size : ℕ
  pub content_type : Text
  pub write_mode : Text
  pub gcs_bucket : Text
  pub b2_bucket : Option Text
  pub completed : Bool
  pub updated_at : ℕ

-- A row of upload_processing_outbox; times are microseconds.
pub record OutboxRow : Type 0 where
  pub job_id : Text
  pub payload : MediaFinalizedV1
  pub attempts : ℕ
  pub next_attempt_at : ℕ
  pub lease_token : Option Text
  pub delivered_at : Option ℕ
  pub finalized_at : ℕ

-- A row of upload_processing_session_receipts.
pub record SessionReceipt : Type 0 where
  pub upload_id : Text
  pub job_id : Text

pub record OutboxTables : Type 0 where
  pub intents : List Intent
  pub outbox : List OutboxRow
  pub receipts : List SessionReceipt

-- Intents by their primary key.
unfoldable pub is_intent : Text → Text → Intent → Bool
is_intent hash owner i = str_eq i.sha256 hash && str_eq i.owner owner

unfoldable pub find_intent : Text → Text → List Intent → Option Intent
find_intent hash owner = first (is_intent hash owner)

-- The row with the primary key of `i` becomes `i`.
unfoldable pub put_intent : Intent → List Intent → List Intent
put_intent i = map (λ j. if is_intent i.sha256 i.owner j then i else j)

unfoldable pub find_row : Text → List OutboxRow → Option OutboxRow
find_row job_id = first (λ r. str_eq r.job_id job_id)

unfoldable pub put_row : OutboxRow → List OutboxRow → List OutboxRow
put_row r = map (λ q. if str_eq q.job_id r.job_id then r else q)

unfoldable pub find_receipt : Text → List SessionReceipt → Option SessionReceipt
find_receipt upload_id = first (λ r. str_eq r.upload_id upload_id)

-- `SESSION_RECEIPT_EVENT`, the join of a session's receipt with its event.
unfoldable pub joined : List OutboxRow → Option SessionReceipt → Option MediaFinalizedV1
joined rows none = none
joined rows (some receipt) = elim (find_row receipt.job_id rows) [
  | none ↦ none
  | some row ↦ some row.payload
]

unfoldable pub receipt_event : Text → OutboxTables → Option MediaFinalizedV1
unfolding joined
receipt_event upload_id t = joined t.outbox (find_receipt upload_id t.receipts)
