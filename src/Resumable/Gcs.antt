-- ===== src/Resumable/Gcs.antt =====
-- `GcsSessionStore` and `GcsResumableBackend` of src/resumable.rs, over the client of Google Cloud
-- Storage.
mod Laws
mod Tests
use mathlib.Core.Path.{◌≡◌}
use divine_upload_server.Prelude.{
  ℕ, Bool, true, false, ◌||◌, Option, none, some, List, [], ◌∷◌, ◌++◌, map, if◌then◌else◌, length,
}
use divine_upload_server.Result.{Result, ok, err}
use divine_upload_server.Result
use divine_upload_server.Exec.{Exec, pure, raise, lift, call, ◌>>=◌, ◌>>◌}
use divine_upload_server.Text.{Text, text, contains}
use divine_upload_server.Resumable.Data.{
  UploadSession, ContentRange, BackendCreateSession, BackendUploadState, in_progress, completed,
}
use divine_upload_server.Resumable.Traits.{Failure, other, Bytes}

-- What is said of an object: its name, its type and its metadata, as a list of keys with values.
pub record Object : Type 0 where
  pub bucket : Text
  pub name : Text
  pub content_type : Option Text
  pub metadata : List (Text × Text)

pub data UploadStatus : Type 0 where
  resume_incomplete finished : UploadStatus

-- The client; an error is its message. The generation, where it is given, must be the object's for
-- the call to do anything: 0 is that of an object which is not there.
pub record GcsClient (W : Type 0) : Type 0 where
  pub download_object : Text → Text → Exec W Text Bytes
  pub upload_object : Text → Text → Text → ℕ → Bytes → Exec W Text Unit
  pub delete_object : Text → Text → Exec W Text Unit
  pub prepare_resumable_upload : Text → ℕ → Object → Exec W Text Text
  pub upload_multiple_chunk : Text → Bytes → ℕ → ℕ → ℕ → Exec W Text UploadStatus
  pub cancel : Text → Exec W Text Unit
  pub download_streamed_object : Text → Text → Exec W Text (List (Result Text Bytes))
  pub get_object : Text → Text → Exec W Text Object
  pub copy_object : Text → Text → ℕ → Object → Exec W Text Unit

-- The JSON of a session, a function of another crate.
pub record SessionJson : Type 0 where
  pub to_vec : UploadSession → Bytes
  pub from_slice : Bytes → Result Failure UploadSession

unfoldable pub is_not_found_error : Text → Bool
is_not_found_error message =
    contains (text "404") message
    || contains (text "Not Found") message
    || contains (text "No such object") message

unfoldable pub session_object_key : Text → Text
session_object_key upload_id = text "__resumable/sessions/" ++ (upload_id ++ text ".json")

unfoldable pub temp_object_key : Text → Text
temp_object_key upload_id = text "__resumable/uploads/" ++ (upload_id ++ text "/blob")

-- `Err(error) if is_not_found_error(&error)`, and any other error under a message of its own.
unfoldable pub absent_or_failed : {A : Type 0} → A → Text → Text → Result Failure A
absent_or_failed absent message error =
    if is_not_found_error error then ok absent else err (other (message ++ error))

unfoldable pub or_absent :
    {A B : Type 0} → (A → Result Failure B) → B → Text → Result Text A → Result Failure B
or_absent found absent message (ok a) = found a
or_absent found absent message (err error) = absent_or_failed absent message error

-- A call, and what its answer or its error is turned into.
abbrev pub answer_of :
    {W A B : Type 0} → (Result Text A → Result Failure B) → Exec W Text A → Exec W Failure B
answer_of f m w = let (r, w') = m w in (f r, w')

abbrev pub failing : Text → Text → Failure
failing message error = other (message ++ error)

module _ {W : Type 0} (client : GcsClient W) (bucket : Text) (json : SessionJson) where
  unfoldable pub load : Text → Exec W Failure (Option UploadSession)
  load upload_id =
      answer_of
        (or_absent (λ bytes. Result.◌>>=◌ (json.from_slice bytes) (λ s. ok (some s))) none
          (text "Failed to load session manifest: "))
        (client.download_object bucket (session_object_key upload_id))

  unfoldable pub save : UploadSession → Exec W Failure Unit
  save s =
      let payload = json.to_vec s in
      call (failing (text "Failed to persist session manifest: ")) (
        client.upload_object bucket (session_object_key s.upload_id) (text "application/json")
          (length payload) payload)

  unfoldable pub delete : Text → Exec W Failure Unit
  delete upload_id =
      answer_of (or_absent ok tt (text "Failed to delete session manifest: "))
        (client.delete_object bucket (session_object_key upload_id))

module _ {W : Type 0} (client : GcsClient W) (bucket : Text) where
  unfoldable pub final_copy_metadata_object : Text → Text → Text → Object
  final_copy_metadata_object destination_key content_type owner = record {
    bucket = bucket;
    name = destination_key;
    content_type = some content_type;
    metadata = (text "owner", owner) ∷ [];
  }

  unfoldable pub create_session : Text → Text → Text → ℕ → Exec W Failure BackendCreateSession
  create_session upload_id owner content_type declared_size = do
    let temp_object = temp_object_key upload_id
    url ← call (failing (text "Failed to prepare resumable upload: ")) (
        client.prepare_resumable_upload bucket 0 (record {
          bucket = [];
          name = temp_object;
          content_type = some content_type;
          metadata = (text "owner", owner) ∷ (text "upload_id", upload_id) ∷ [];
        }))
    pure (record { session_url = url; temp_object = temp_object })

  unfoldable pub upload_state : UploadStatus → BackendUploadState
  upload_state resume_incomplete = in_progress
  upload_state finished = completed

  unfoldable pub upload_chunk :
      UploadSession → ContentRange → Bytes → Exec W Failure BackendUploadState
  upload_chunk s range chunk = do
    status ←
        call (failing (text "Failed to upload resumable chunk: "))
          (client.upload_multiple_chunk s.session_url chunk range.start range.end range.total)
    pure (upload_state status)

  unfoldable pub cancel_session : UploadSession → Exec W Failure Unit
  cancel_session s =
      call (failing (text "Failed to cancel resumable upload: ")) (client.cancel s.session_url)

  unfoldable pub stream_object : Text → Exec W Failure (List (Result Failure Bytes))
  stream_object object_key = do
    stream ←
        call (failing (text "Failed to stream object " ++ (object_key ++ text ": ")))
          (client.download_streamed_object bucket object_key)
    pure (map (Result.map_err other) stream)

  unfoldable pub object_exists : Text → Exec W Failure Bool
  object_exists object_key =
      answer_of (or_absent (λ o. ok true) false (text "Failed to check object existence: "))
        (client.get_object bucket object_key)

  unfoldable pub copy_to_final : Text → Text → Text → Text → Exec W Failure Unit
  copy_to_final source_key destination_key content_type owner =
      call (failing (text "Failed to copy final object: ")) (
        client.copy_object bucket source_key 0
          (final_copy_metadata_object destination_key content_type owner))

  unfoldable pub delete_object : Text → Exec W Failure Unit
  delete_object object_key =
      answer_of (or_absent ok tt (text "Failed to delete object " ++ (object_key ++ text ": ")))
        (client.delete_object bucket object_key)
