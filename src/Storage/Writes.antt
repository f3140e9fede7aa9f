-- ===== src/Storage/Writes.antt =====
-- The writes of `MediaStorage` (src/storage/mod.rs): a write is verified by an independent read of the
-- version that was written, first in Google Cloud Storage, whose metadata wins, and then in B2.
use divine_upload_server.Prelude.{
  ℕ, Bool, true, false, not, ◌||◌, Option, none, some, List, [], ◌∷◌, ◌++◌, if◌then◌else◌,
}
use divine_upload_server.Result.{Result, ok, err, ok_or, refuse_if}
use divine_upload_server.Exec.{Exec, pure, lift, act, effect, ◌>>=◌, ◌>>◌, holding}
use divine_upload_server.Text.{Text, text, str_eq}
use divine_upload_server.Storage.Objects.{ObjectRef, StorageProvider}
use divine_upload_server.Storage.Media.{
  WriteResult, GcsError, GcsObject, GcsUpload, B2Store, Machine, MediaStorage, writes_gcs,
  writes_b2, is_dual, gcs_of, b2_of,
}
use divine_upload_server.Storage.Reads.{
  gcs_reference, delete_answer, answering, exact_generation, gcs_stat, stream_ref, verify,
  verify_stream,
}
use divine_upload_server.Resumable.Traits.{Failure, other, Bytes}

-- What a write has done so far: the copies that are stored and verified, and whether one is new.
abbrev pub Stored : Type 0
Stored = List ObjectRef × Bool

abbrev pub nothing_stored : Stored
nothing_stored = ([], false)

abbrev pub and_then : Stored → ObjectRef × Bool → Stored
and_then stored copy = (stored.0 ++ copy.0 ∷ [], stored.1 || copy.1)

abbrev owner_metadata : Option Text → List (Text × Text)
owner_metadata none = []
owner_metadata (some owner) = (text "owner", owner) ∷ []

abbrev unresolved : Failure
unresolved = other (text "GCS write outcome unresolved")

module _ {W : Type 0} (machine : Machine W) (s : MediaStorage W) where
  -- `write_guard`, held over `body`; without a database there is no guard.
  unfoldable pub guarded : {A : Type 0} → Text → Exec W Failure A → Exec W Failure A
  guarded key body = do
    url ← act machine.database_url
    elim url [
      | none ↦ body
      | some url ↦
          let name = text "divine-upload-canonical:" ++ key in
          holding (machine.lock url name) (machine.unlock name) body
    ]

  unfoldable pub initialize_coordination : Option Text → Exec W Failure Unit
  initialize_coordination url = do
    elim s.b2 [
      | none ↦ pure tt
      | some b2 ↦ do
        url ← lift (ok_or url (other (text "B2 coordination database required")))
        b2.initialize_coordination url
    ]
    effect (machine.set_database_url url)

  unfoldable pub sweep_stale_multipart : ℕ → Exec W Failure ℕ
  sweep_stale_multipart limit = elim s.b2 [
    | none ↦ pure 0
    | some b2 ↦ b2.sweep_stale_multipart limit
  ]

  -- In dual mode the metadata of a copy that is there is kept.
  unfoldable pub inherited_metadata :
      Text → Text → Option Text → Exec W Failure (Text × Option Text)
  inherited_metadata key content_type owner =
      if not (is_dual s.mode) then pure (content_type, owner) else do
        existing ← gcs_stat machine s key
        elim existing [
          | none ↦ pure (content_type, owner)
          | some o ↦ pure (o.content_type, o.owner)
        ]

  abbrev pub upload_of : Text → Text → Option Text → GcsUpload
  upload_of key content_type owner = record {
    bucket = s.gcs_bucket;
    name = key;
    if_generation_match = 0;
    content_type = content_type;
    metadata = owner_metadata owner;
  }

  -- An upload without an answer is resolved by the object that is then there.
  unfoldable pub settle_upload :
      Text → Result GcsError GcsObject → Exec W Failure (ObjectRef × Bool)
  settle_upload key (ok o) = pure (gcs_reference s.gcs_bucket key o.generation, true)
  settle_upload key (err e) = do
    found ← gcs_stat machine s key
    existing ← lift (ok_or found unresolved)
    pure (existing.reference, false)

  abbrev attempted : {A : Type 0} → Exec W GcsError A → Exec W Failure (Result GcsError A)
  attempted m w = let (r, w') = m w in (ok r, w')

  unfoldable pub upload_gcs : Text → Bytes → Text → Option Text → Exec W Failure (ObjectRef × Bool)
  upload_gcs key bytes content_type owner = do
    gcs ← lift (gcs_of s)
    result ← attempted (gcs.upload_object (upload_of key content_type owner) bytes)
    copy ← settle_upload key result
    verify machine s copy.0 bytes
    pure copy

  unfoldable pub put_gcs : Text → Bytes → Text → Option Text → Exec W Failure (ObjectRef × Bool)
  unfolding upload_gcs
  put_gcs key bytes content_type owner = do
    existing ← gcs_stat machine s key
    elim existing [
      | some o ↦ do verify machine s o.reference bytes; pure (o.reference, false)
      | none ↦ upload_gcs key bytes content_type owner
    ]

  upload_file_gcs : Text → Text → Text → Option Text → Exec W Failure (ObjectRef × Bool)
  upload_file_gcs key path content_type owner = do
    machine.open_file path
    gcs ← lift (gcs_of s)
    result ← attempted (gcs.upload_streamed_object (upload_of key content_type owner) path)
    copy ← settle_upload key result
    stream ← stream_ref machine s copy.0
    verify_stream machine s stream path
    pure copy

  unfoldable pub put_file_gcs : Text → Text → Text → Option Text → Exec W Failure (ObjectRef × Bool)
  unfolding upload_file_gcs
  put_file_gcs key path content_type owner = do
    existing ← gcs_stat machine s key
    elim existing [
      | some o ↦ do
        stream ← stream_ref machine s o.reference
        verify_stream machine s stream path
        pure (o.reference, false)
      | none ↦ upload_file_gcs key path content_type owner
    ]

  -- In dual mode the metadata that Google Cloud Storage has now is what B2 gets.
  unfoldable pub winning_metadata : Text × Option Text → Text → Exec W Failure (Text × Option Text)
  winning_metadata metadata key = if not (is_dual s.mode) then pure metadata else do
    found ← gcs_stat machine s key
    winner ← lift (ok_or found (other (text "GCS canonical winner disappeared")))
    pure (winner.content_type, winner.owner)

  -- The order of `put` and `put_file`, by how each of the two stores is written.
  unfoldable pub store_copies :
      Text
      → Text
      → Option Text
      → (Text → Option Text → Exec W Failure (ObjectRef × Bool))
      → (B2Store W → Text → Option Text → Exec W Failure (ObjectRef × Bool))
      → Exec W Failure WriteResult
  store_copies key content_type owner write_gcs write_b2 = guarded key do
    metadata ← inherited_metadata key content_type owner
    first ←
        if not (writes_gcs s.mode)
        then pure nothing_stored
        else do copy ← write_gcs metadata.0 metadata.1; pure (and_then nothing_stored copy)
    winning ← winning_metadata metadata key
    both ← if not (writes_b2 s.mode) then pure first else do
      b2 ← lift (b2_of s)
      copy ← write_b2 b2 winning.0 winning.1
      pure (and_then first copy)
    pure (record { objects = both.0; newly_stored = both.1 })

  unfoldable pub put : Text → Bytes → Text → Option Text → Exec W Failure WriteResult
  put key bytes content_type owner =
      store_copies key content_type owner (put_gcs key bytes) (λ b2. b2.put key bytes)

  unfoldable pub put_file : Text → Text → Text → Option Text → Exec W Failure WriteResult
  put_file key path content_type owner =
      store_copies key content_type owner (put_file_gcs key path) (λ b2. b2.put_file key path)

  delete_gcs : ObjectRef → Exec W Failure Unit
  delete_gcs reference = do
    lift (
        refuse_if (not (str_eq reference.bucket s.gcs_bucket)) (other (text "GCS bucket mismatch")))
    generation ←
        lift (exact_generation "Exact GCS generation required" "Invalid GCS generation" reference)
    gcs ← lift (gcs_of s)
    answering delete_answer (gcs.delete_object reference.bucket reference.key generation)

  delete_b2 : ObjectRef → Exec W Failure Unit
  delete_b2 reference = do b2 ← lift (b2_of s); b2.delete reference

  unfoldable pub delete_ref : ObjectRef → Exec W Failure Unit
  unfolding delete_gcs delete_b2
  delete_ref reference = elim reference.provider [
    | StorageProvider.gcs ↦ delete_gcs reference
    | StorageProvider.b2 ↦ delete_b2 reference
  ]
