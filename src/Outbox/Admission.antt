-- ===== src/Outbox/Admission.antt =====
-- From admission to storage: `begin_or_resume_upload` (src/outbox.rs) and then `MediaStorage::put`
-- (src/storage/mod.rs).
use divine_upload_server.Prelude.{ℕ, ◌≡◌, sym, ◌∙◌, true, some, List, map}
use divine_upload_server.Result.{ok}
use divine_upload_server.Exec.Success.{Succeeds}
use divine_upload_server.Text.{Text}
use divine_upload_server.Storage.Objects.{WriteMode, parse_write_mode}
use divine_upload_server.Storage.Media.{WriteResult, B2Store, Machine, MediaStorage}
use divine_upload_server.Storage.Writes.{put}
use divine_upload_server.Storage.Placement.{B2Laws, put-Succeeds}
use divine_upload_server.Outbox.Data.{Intent, OutboxTables, find_intent}
use divine_upload_server.Outbox.Destinations.{
  Destination, required_destinations, matches_destinations, placed_at,
}
use divine_upload_server.Outbox.Intents.{begin_or_resume_upload}
use divine_upload_server.Outbox.Policy.{matches-placed, reserve_upload-Follows}
use divine_upload_server.Resumable.Traits.{Bytes}

module _ {W : Type 0} (machine : Machine W) (storage : MediaStorage W) where
  -- When an upload is admitted, and its bytes are then written with the storage that the admission
  -- returned, the copies match the destinations of the intent that is in the table after the admission:
  -- its policy cannot refuse them. A B2 store returns references into its own bucket.
  pub begin_or_resume_upload-put-Matches :
      (hash : Text) (size : ℕ) (content_type owner : Text) (now : ℕ) (t : OutboxTables)
      (s : MediaStorage W) (key : Text) (bytes : Bytes) (w : W) (r : WriteResult)
      → ((b2 : B2Store W) → s.b2 ≡ some b2 → B2Laws b2)
      → Succeeds (begin_or_resume_upload storage hash size content_type owner now) t s
      → Succeeds (put machine s key bytes content_type (some owner)) w r
      → (row : Intent) × (mode : WriteMode) × (expected : List Destination) × (find_intent hash
            owner
            (begin_or_resume_upload storage hash size content_type owner now t).1.intents
          ≡ some row)
        × (parse_write_mode row.write_mode ≡ ok mode)
        × (required_destinations mode row.gcs_bucket row.b2_bucket ≡ ok expected)
        × (matches_destinations r.objects expected ≡ true)
  unfolding begin_or_resume_upload
  begin_or_resume_upload-put-Matches hash size content_type owner now t s key bytes w r laws
        admitted stored =
      let (row, (found, _), follows) =
        reserve_upload-Follows storage hash size content_type owner true now t s admitted in
      let (_, parsed, same) = follows in
      let placed = put-Succeeds machine s key bytes content_type (some owner) w r laws stored in
      (
        row,
        s.mode,
        map placed_at r.objects,
        found,
        parsed,
        sym same ∙ placed,
        matches-placed r.objects,
      )
