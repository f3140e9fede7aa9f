-- ===== src/Resumable/Data.antt =====
-- The data types of src/resumable.rs.
use divine_upload_server.Prelude.{ℕ, ◌+◌, ◌-◌, ◌%◌, ◌^◌, Bool, Option, List}
use divine_upload_server.Text.{Text}

-- An upload is described by its hash, size and media type before any byte is sent.
pub record ResumableUploadInitRequest : Type 0 where
  pub sha256 : Text
  pub size : ℕ
  pub content_type : Text
  pub file_name : Option Text

pub record ResumableCapabilities : Type 0 where
  pub resume : Bool
  pub query_offset : Bool

-- `required_headers` is the map as the list of its entries.
pub record ResumableUploadInitResponse : Type 0 where
  pub upload_id : Text
  pub upload_url : Text
  pub expires_at : Text
  pub chunk_size : ℕ
  pub next_offset : ℕ
  pub required_headers : List (Text × Text)
  pub capabilities : ResumableCapabilities

pub record StreamingInfo : Type 0 where
  pub hls_url : Option Text
  pub mp4_url : Option Text
  pub thumbnail_url : Option Text
  pub status : Option Text

pub record CompleteUploadResponse : Type 0 where
  pub sha256 : Text
  pub size : ℕ
  pub content_type : Text
  pub thumbnail_url : Option Text
  pub dim : Option Text
  pub url : Text
  pub fallback_url : Option Text
  pub thumbnail : Option Text
  pub streaming : Option StreamingInfo
  pub newly_stored : Bool

pub record UploadSessionStatus : Type 0 where
  pub next_offset : ℕ
  pub declared_size : ℕ
  pub expires_at : Text
  pub chunk_size : ℕ

-- `revision` is an `i64` that counts up from 0.
pub record UploadSession : Type 0 where
  pub revision : ℕ
  pub chunk_size : ℕ
  pub upload_id : Text
  pub owner : Text
  pub final_sha256 : Text
  pub declared_size : ℕ
  pub content_type : Text
  pub file_name : Option Text
  pub expires_at_epoch_secs : ℕ
  pub next_offset : ℕ
  pub session_url : Text
  pub session_token : Text
  pub temp_object : Text
  pub storage_complete : Bool
  pub finalized_object : Option Text

pub record ContentRange : Type 0 where
  pub start : ℕ
  pub end : ℕ
  pub total : ℕ

abbrev pub u64_mod : ℕ
u64_mod = 2 ^ 64

-- `self.end - self.start + 1` in `u64`
unfoldable pub len : ContentRange → ℕ
len r = (r.end + u64_mod - r.start + 1) % u64_mod

pub record BackendCreateSession : Type 0 where
  pub session_url : Text
  pub temp_object : Text

pub data BackendUploadState : Type 0 where
  in_progress completed : BackendUploadState

-- Each carries its message.
pub data ResumableError : Type 0 where
  unauthorized bad_request not_found conflict gone : Text → ResumableError
  range_not_satisfiable unprocessable_entity internal : Text → ResumableError
  payload_too_large unavailable : Text → ResumableError

unfoldable pub status_code : ResumableError → ℕ
status_code (unauthorized m) = 401
status_code (bad_request m) = 400
status_code (not_found m) = 404
status_code (conflict m) = 409
status_code (gone m) = 410
status_code (range_not_satisfiable m) = 416
status_code (unprocessable_entity m) = 422
status_code (internal m) = 500
status_code (payload_too_large m) = 413
status_code (unavailable m) = 503
