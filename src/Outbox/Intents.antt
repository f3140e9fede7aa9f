-- ===== src/Outbox/Intents.antt =====
-- `reserve_upload` of src/outbox.rs and its two callers: the intent of an upload, recorded before
-- anything is written.
use divine_upload_server.Prelude.{
  ℕ, Bool, true, false, not, ◌&&◌, ◌||◌, Option, none, some, List, [], ◌∷◌, ◌++◌, leb, ltb, ◌==◌,
  min, take, map, if◌then◌else◌,
}
use divine_upload_server.Query.{filter, order_by}
use divine_upload_server.Result.{Result, ok, err, map_err}
use divine_upload_server.Exec.{Exec, pure, ◌>>◌}
use divine_upload_server.Text.{Text, text, str_eq}
use divine_upload_server.Text.Signed.{max_i64}
use divine_upload_server.Storage.Objects.{WriteMode, dual, same_version, parse_write_mode}
use divine_upload_server.Storage.Media.{MediaStorage, b2_bucket, with_mode}
use divine_upload_server.Outbox.Data.{Intent, OutboxTables, find_intent, put_intent}
use divine_upload_server.Outbox.Destinations.{is_available}
use divine_upload_server.Resumable.Traits.{Failure, other, intent_conflict}

pub record PendingUpload : Type 0 where
  pub sha256 : Text
  pub size : ℕ
  pub content_type : Text
  pub owner : Text
  pub mode : Text
  pub gcs_bucket : Text
  pub b2_bucket : Option Text

-- A `WriteMode` as JSON text.
unfoldable pub mode_text : WriteMode → Text
mode_text WriteMode.gcs = text "gcs"
mode_text WriteMode.b2 = text "b2"
mode_text dual = text "dual"

unfoldable pub same_mode : WriteMode → WriteMode → Bool
same_mode WriteMode.gcs WriteMode.gcs = true
same_mode WriteMode.b2 WriteMode.b2 = true
same_mode dual dual = true
same_mode _ _ = false

-- `ON CONFLICT(sha256,owner) DO UPDATE SET ...`: what a pending intent records stays, a completed one
-- takes the new policy, and stays completed if that is the policy it has.
abbrev pub readmitted : Intent → Intent → Intent
readmitted new old = record old {
  updated_at = new.updated_at;
  write_mode = if old.completed then new.write_mode else old.write_mode;
  gcs_bucket = if old.completed then new.gcs_bucket else old.gcs_bucket;
  b2_bucket = if old.completed then new.b2_bucket else old.b2_bucket;
  completed =
      old.completed
      && str_eq old.write_mode new.write_mode
      && str_eq old.gcs_bucket new.gcs_bucket
      && same_version old.b2_bucket new.b2_bucket;
}

-- The statement `INSERT ... ON CONFLICT ... WHERE size=EXCLUDED.size RETURNING ...`, on the row that the
-- key finds; a row of another size is neither changed nor returned.
unfoldable pub upsert_row : Intent → List Intent → Option Intent → Option Intent × List Intent
upsert_row new intents none = (some new, intents ++ new ∷ [])
upsert_row new intents (some old) =
    if old.size == new.size
    then (some (readmitted new old), put_intent (readmitted new old) intents)
    else (none, intents)

unfoldable pub upsert_intent : Intent → List Intent → Option Intent × List Intent
upsert_intent new intents = upsert_row new intents (find_intent new.sha256 new.owner intents)

module _ {W : Type 0} (storage : MediaStorage W) where
  -- What `reserve_upload` makes of the row that the statement returned.
  unfoldable pub admit : ℕ → Bool → Intent → Result Failure (MediaStorage W)
  admit size resume_recorded row =
      let with_recorded = λ (mode : WriteMode).
        let available = is_available storage mode row.gcs_bucket row.b2_bucket in
        let compatible = available && (resume_recorded || same_mode mode storage.mode) in
        if not (row.size == size) || not compatible
        then err intent_conflict
        else map_err (λ e. intent_conflict) (with_mode storage mode) in
      elim (parse_write_mode row.write_mode) [
        | ok mode ↦ with_recorded mode
        | err e ↦ err (other e)
      ]

  abbrev pub new_intent : Text → ℕ → Text → Text → ℕ → Intent
  new_intent hash size content_type owner now = record {
    sha256 = hash;
    owner = owner;
    size = size;
    content_type = content_type;
    write_mode = mode_text storage.mode;
    gcs_bucket = storage.gcs_bucket;
    b2_bucket = b2_bucket storage;
    completed = false;
    updated_at = now;
  }

  -- The statement commits by itself: an intent that is then refused has been recorded.
  unfoldable pub admit_row :
      ℕ
      → Bool
      → OutboxTables
      → Option Intent × List Intent
      → Result Failure (MediaStorage W) × OutboxTables
  admit_row size resume_recorded t (none, intents) =
      (err (other (text "upload intent persistence failed")), record t { intents = intents })
  admit_row size resume_recorded t (some row, intents) =
      (admit size resume_recorded row, record t { intents = intents })

  unfoldable pub reserve_upload :
      Text → ℕ → Text → Text → Bool → ℕ → Exec OutboxTables Failure (MediaStorage W)
  reserve_upload hash size content_type owner resume_recorded now t =
      if ltb max_i64 size
      then (err (other (text "upload size exceeds database range")), t)
      else admit_row size resume_recorded t
          (upsert_intent (new_intent hash size content_type owner now) t.intents)

  unfoldable pub begin_upload : Text → ℕ → Text → Text → ℕ → Exec OutboxTables Failure Unit
  begin_upload hash size content_type owner now = do
    reserve_upload hash size content_type owner false now
    pure tt

  unfoldable pub begin_or_resume_upload :
      Text → ℕ → Text → Text → ℕ → Exec OutboxTables Failure (MediaStorage W)
  begin_or_resume_upload hash size content_type owner =
      reserve_upload hash size content_type owner true

unfoldable pub pending_of : Intent → PendingUpload
pending_of i = record {
  sha256 = i.sha256;
  size = i.size;
  content_type = i.content_type;
  owner = i.owner;
  mode = i.write_mode;
  gcs_bucket = i.gcs_bucket;
  b2_bucket = i.b2_bucket;
}

unfoldable pub pending_intents : ℕ → OutboxTables → List PendingUpload
pending_intents limit t = map pending_of (
    take (min limit 1000)
      (order_by (λ a b. leb a.updated_at b.updated_at) (filter (λ i. not i.completed) t.intents)))
