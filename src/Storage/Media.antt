-- ===== src/Storage/Media.antt =====
-- `MediaStorage` of src/storage/mod.rs: its parts, the storage clients that it calls, and its modes.
use divine_upload_server.Prelude.{
  ℕ, Bool, true, false, ◌||◌, ◌&&◌, Option, none, some, List, [], ◌∷◌,
}
use divine_upload_server.Result.{Result, ok, ok_or, refuse_if, ◌>>◌}
use divine_upload_server.Exec.{Exec}
use divine_upload_server.Text.{Text, text}
use divine_upload_server.Text.Signed.{ℤ}
use divine_upload_server.Storage.Objects.{ObjectRef, WriteMode, dual}
use divine_upload_server.Resumable.Traits.{Failure, other, Bytes}

pub record StoredObject : Type 0 where
  pub reference : ObjectRef
  pub size : ℕ
  pub content_type : Text
  pub owner : Option Text

pub record WriteResult : Type 0 where
  pub objects : List ObjectRef
  pub newly_stored : Bool

-- The error of a call to Google Cloud Storage: an answer with a status, or no answer.
pub data GcsError : Type 0 where
  response : ℕ → GcsError
  no_response : GcsError

-- What is read of an object's metadata.
pub record GcsObject : Type 0 where
  pub generation : ℤ
  pub size : ℤ
  pub content_type : Option Text
  pub metadata : Option (List (Text × Text))

-- What an upload says of its object.
pub record GcsUpload : Type 0 where
  pub bucket : Text
  pub name : Text
  pub if_generation_match : ℕ
  pub content_type : Text
  pub metadata : List (Text × Text)

-- The client of Google Cloud Storage: calls by bucket and name, and by generation where it is given.
-- A stream is the list of what it yields.
pub record GcsCalls (W : Type 0) : Type 0 where
  pub get_object : Text → Text → Exec W GcsError GcsObject
  pub download_object : Text → Text → Option ℤ → Exec W GcsError Bytes
  pub download_streamed_object : Text → Text → ℤ → Exec W GcsError (List (Result GcsError Bytes))
  pub upload_object : GcsUpload → Bytes → Exec W GcsError GcsObject
  pub upload_streamed_object : GcsUpload → Text → Exec W GcsError GcsObject
  pub delete_object : Text → Text → ℤ → Exec W GcsError Unit

-- The operations of `B2Store` (src/storage/b2.rs) that the storage calls.
pub record B2Store (W : Type 0) : Type 0 where
  pub bucket : Text
  pub initialize_coordination : Text → Exec W Failure Unit
  pub sweep_stale_multipart : ℕ → Exec W Failure ℕ
  pub stat : Text → Exec W Failure (Option StoredObject)
  pub read : ObjectRef → Exec W Failure Bytes
  pub verify : ObjectRef → Bytes → Exec W Failure Unit
  pub stream : ObjectRef → Exec W Failure (List (Result Failure Bytes))
  pub put : Text → Bytes → Text → Option Text → Exec W Failure (ObjectRef × Bool)
  pub put_file : Text → Text → Text → Option Text → Exec W Failure (ObjectRef × Bool)
  pub delete : ObjectRef → Exec W Failure Unit

-- What the storage asks of its machine: the coordination database with its advisory locks, files by
-- their path, and SHA-256. `unlock` is the drop of a `CanonicalWriteGuard`.
pub record Machine (W : Type 0) : Type 0 where
  pub database_url : W → Option Text × W
  pub set_database_url : Option Text → W → W
  pub lock : Text → Text → Exec W Failure Unit
  pub unlock : Text → W → W
  pub open_file : Text → Exec W Failure Unit
  pub file_len : Text → Exec W Failure ℕ
  pub read_file : Text → Exec W Failure Bytes
  pub sha256 : Bytes → Bytes

pub record MediaStorage (W : Type 0) : Type 0 where
  pub mode : WriteMode
  pub gcs : Option (GcsCalls W)
  pub gcs_bucket : Text
  pub b2 : Option (B2Store W)

-- `matches!(mode, WriteMode::Gcs | WriteMode::Dual)` and its like for B2
unfoldable pub writes_gcs : WriteMode → Bool
writes_gcs WriteMode.gcs = true
writes_gcs WriteMode.b2 = false
writes_gcs dual = true

unfoldable pub writes_b2 : WriteMode → Bool
writes_b2 WriteMode.gcs = false
writes_b2 WriteMode.b2 = true
writes_b2 dual = true

unfoldable pub is_dual : WriteMode → Bool
is_dual WriteMode.gcs = false
is_dual WriteMode.b2 = false
is_dual dual = true

abbrev pub absent : {A : Type 0} → Option A → Bool
absent none = true
absent (some a) = false

abbrev pub is_empty : Text → Bool
is_empty [] = true
is_empty (c ∷ s) = false

module _ {W : Type 0} where
  unfoldable pub new :
      WriteMode → Option (GcsCalls W) → Text → Option (B2Store W) → Result Failure (MediaStorage W)
  new mode gcs gcs_bucket b2 = do
    refuse_if (writes_gcs mode && (absent gcs || is_empty gcs_bucket))
        (other (text "GCS storage configuration required"))
    refuse_if (writes_b2 mode && absent b2) (other (text "B2 storage configuration required"))
    ok (record { mode = mode; gcs = gcs; gcs_bucket = gcs_bucket; b2 = b2 })

  unfoldable pub with_mode : MediaStorage W → WriteMode → Result Failure (MediaStorage W)
  with_mode s mode = new mode s.gcs s.gcs_bucket s.b2

  unfoldable pub b2_bucket : MediaStorage W → Option Text
  b2_bucket s = elim s.b2 [ none ↦ none | some b2 ↦ some b2.bucket ]

  abbrev pub gcs_of : MediaStorage W → Result Failure (GcsCalls W)
  gcs_of s = ok_or s.gcs (other (text "GCS storage unavailable"))

  abbrev pub b2_of : MediaStorage W → Result Failure (B2Store W)
  b2_of s = ok_or s.b2 (other (text "B2 storage unavailable"))
