-- ===== src/Outbox/Retained/Tests.antt =====
-- A completion in Google Cloud Storage alone, after one that has a copy in B2 too: the B2 copy is found.
use mathlib.Core.List.{Memᴰ}
use divine_upload_server.Prelude.{All, ◌≡◌, refl, some, [], ◌∷◌, List}
use divine_upload_server.Text.{Text, text}
use divine_upload_server.Storage.Objects.{ObjectRef, StorageProvider}
use divine_upload_server.Storage.Tests.{gcs_copy, b2_copy}
use divine_upload_server.Processing.{MediaFinalizedV1}
use divine_upload_server.Outbox.Data.{OutboxRow}
use divine_upload_server.Outbox.Enqueue.{fresh_row}
use divine_upload_server.Outbox.Sources.{source_objects}
use divine_upload_server.Outbox.Retained.{RecordedBy, source_objects-retains}

abbrev event_with : Text → List ObjectRef → MediaFinalizedV1
event_with id replicas = record {
  schema_version = 1;
  job_id = id;
  source = gcs_copy;
  replicas = replicas;
  sha256 = text "k";
  size = 2;
  content_type = text "video/mp4";
  owner = some (text "o");
  pipeline_version = 1;
}

abbrev events : List OutboxRow
events =
    fresh_row 9 (event_with (text "new") [])
    ∷ fresh_row 5 (event_with (text "old") (b2_copy ∷ []))
    ∷ []

source_objects-retains_example :
    ((o : ObjectRef) × Memᴰ o (source_objects (text "k") events)
      × (o.provider ≡ StorageProvider.b2))
    × All (RecordedBy (text "k") events) (source_objects (text "k") events)
source_objects-retains_example =
    source_objects-retains (text "k") events (fresh_row 5 (event_with (text "old") (b2_copy ∷ [])))
      b2_copy (Memᴰ.tail (Memᴰ.head refl)) refl (Memᴰ.tail (Memᴰ.head refl))
