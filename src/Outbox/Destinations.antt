-- ===== src/Outbox/Destinations.antt =====
-- Where an upload must be stored: `required_destinations` and `destinations_configured` of
-- src/outbox.rs.
use divine_upload_server.Prelude.{Bool, true, false, ◌&&◌, Option, some, List, [], ◌∷◌, all}
use divine_upload_server.Result.{Result, ok, err, ok_or, ◌>>=◌}
use divine_upload_server.Text.{Text, str_eq}
use divine_upload_server.Storage.Objects.{
  ObjectRef, StorageProvider, WriteMode, dual, same_provider, same_version,
}
use divine_upload_server.Storage.Media.{MediaStorage, b2_bucket}
use divine_upload_server.Resumable.Traits.{Failure, intent_conflict}

abbrev pub Destination : Type 0
Destination = StorageProvider × Text

unfoldable pub required_destinations :
    WriteMode → Text → Option Text → Result Failure (List Destination)
required_destinations WriteMode.gcs gcs_bucket b2_bucket =
    ok ((StorageProvider.gcs, gcs_bucket) ∷ [])
required_destinations WriteMode.b2 gcs_bucket b2_bucket = do
  b2 ← ok_or b2_bucket intent_conflict
  ok ((StorageProvider.b2, b2) ∷ [])
required_destinations dual gcs_bucket b2_bucket = do
  b2 ← ok_or b2_bucket intent_conflict
  ok ((StorageProvider.gcs, gcs_bucket) ∷ (StorageProvider.b2, b2) ∷ [])

module _ {W : Type 0} (s : MediaStorage W) where
  abbrev configured_bucket : StorageProvider → Option Text
  configured_bucket StorageProvider.gcs = some s.gcs_bucket
  configured_bucket StorageProvider.b2 = b2_bucket s

  unfoldable pub destinations_configured : List Destination → Bool
  destinations_configured = all (λ d. same_version (configured_bucket d.0) (some d.1))

  -- `is_ok_and` over both.
  unfoldable pub is_available : WriteMode → Text → Option Text → Bool
  is_available mode gcs_bucket b2_bucket = elim (required_destinations mode gcs_bucket b2_bucket) [
    | ok destinations ↦ destinations_configured destinations
    | err e ↦ false
  ]

abbrev pub placed_at : ObjectRef → Destination
placed_at o = (o.provider, o.bucket)

-- Equal lengths, and the same provider and bucket at each place.
unfoldable pub matches_destinations : List ObjectRef → List Destination → Bool
matches_destinations [] [] = true
matches_destinations (o ∷ os) (d ∷ ds) =
    (same_provider o.provider d.0 && str_eq o.bucket d.1) && matches_destinations os ds
matches_destinations _ _ = false
