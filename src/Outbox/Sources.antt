-- ===== src/Outbox/Sources.antt =====
-- `source_objects` of src/outbox.rs: the copies of some bytes that any event records.
use divine_upload_server.Prelude.{
  Bool, ◌&&◌, ◌||◌, List, [], ◌∷◌, ◌++◌, ltb, ◌==◌, any, if◌then◌else◌,
}
use divine_upload_server.Query.{filter, order_by, text_le}
use divine_upload_server.Text.{Text, str_eq}
use divine_upload_server.Storage.Objects.{ObjectRef, StorageProvider, same_provider}
use divine_upload_server.Processing.{MediaFinalizedV1}
use divine_upload_server.Outbox.Data.{OutboxRow}

-- The authoritative source first.
unfoldable pub event_objects : MediaFinalizedV1 → List ObjectRef
event_objects event = event.source ∷ event.replicas

abbrev pub newer : OutboxRow → OutboxRow → Bool
newer a b =
    ltb b.finalized_at a.finalized_at
    || a.finalized_at == b.finalized_at && text_le b.job_id a.job_id

abbrev pub first_objects : List OutboxRow → List ObjectRef
first_objects [] = []
first_objects (r ∷ rows) = event_objects r.payload

-- The objects of the newest row that passes a test: `ORDER BY finalized_at DESC,job_id DESC LIMIT 1`.
unfoldable pub newest_objects : (OutboxRow → Bool) → List OutboxRow → List ObjectRef
newest_objects p rows = first_objects (order_by newer (filter p rows))

unfoldable pub is_of : StorageProvider → ObjectRef → Bool
is_of provider o = same_provider o.provider provider

unfoldable pub records_provider : StorageProvider → OutboxRow → Bool
records_provider provider r = any (is_of provider) (event_objects r.payload)

-- One round of the loop: a provider that has no copy yet gets the newest recorded one.
unfoldable pub add_provider :
    Text → List OutboxRow → StorageProvider → List ObjectRef → List ObjectRef
add_provider hash rows provider objects =
    if any (is_of provider) objects
    then objects
    else objects
      ++ filter (is_of provider)
          (newest_objects (λ r. str_eq r.payload.sha256 hash && records_provider provider r) rows)

-- Without an event of these bytes there are no objects, and no loop.
unfoldable pub all_providers : Text → List OutboxRow → List ObjectRef → List ObjectRef
all_providers hash rows [] = []
all_providers hash rows (o ∷ objects) =
    add_provider hash rows StorageProvider.b2
      (add_provider hash rows StorageProvider.gcs (o ∷ objects))

unfoldable pub source_objects : Text → List OutboxRow → List ObjectRef
unfolding all_providers
source_objects hash rows =
    all_providers hash rows (newest_objects (λ r. str_eq r.payload.sha256 hash) rows)
