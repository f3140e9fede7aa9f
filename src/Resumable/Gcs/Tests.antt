-- ===== src/Resumable/Gcs/Tests.antt =====
-- A bucket in memory, and the store of sessions on it.
use divine_upload_server.Prelude.{
  ◌≡◌, ◌↔◌, ◌⊎◌, ◌++◌, refl, false, ◌&&◌, Option, none, some, [], if◌then◌else◌,
}
use divine_upload_server.Result.{Result, ok, err}
use divine_upload_server.Text.{Text, text, str_eq}
use divine_upload_server.Resumable.Data.{UploadSession}
use divine_upload_server.Resumable.Traits.{Bytes, other}
use divine_upload_server.Resumable.Gcs.{GcsClient, SessionJson, load, save, delete, finished}
use divine_upload_server.Resumable.Gcs.Laws.{SaysNotFound, load-reports}

abbrev Bucket : Type 0
Bucket = Text → Text → Option Bytes

abbrev at : Bucket → Text → Text → Option Bytes
at w b o = w b o

abbrev set_object : Text → Text → Option Bytes → Bucket → Bucket
set_object b o content w b' o' = if str_eq b b' && str_eq o o' then content else w b' o'

abbrev missing : Text
missing = text "404"

abbrev reading : Option Bytes → Result Text Bytes
reading none = err missing
reading (some bytes) = ok bytes

abbrev removing : Option Bytes → Result Text Unit
removing none = err missing
removing (some bytes) = ok tt

abbrev client : GcsClient Bucket
client = record {
  download_object = λ b o w. (reading (w b o), w);
  upload_object = λ b o content_type size payload w. (ok tt, set_object b o (some payload) w);
  delete_object = λ b o w. (removing (w b o), set_object b o none w);
  prepare_resumable_upload = λ b generation object w. (ok object.name, w);
  upload_multiple_chunk = λ url chunk start end total w. (ok finished, w);
  cancel = λ url w. (ok tt, w);
  download_streamed_object = λ b o w. (ok [], w);
  get_object = λ b o w. (err missing, w);
  copy_object = λ b o generation object w. (ok tt, w);
}

abbrev session : UploadSession
session = record {
  revision = 0;
  chunk_size = 8;
  upload_id = text "up_1";
  owner = text "me";
  final_sha256 = text "h";
  declared_size = 4;
  content_type = text "video/mp4";
  file_name = none;
  expires_at_epoch_secs = 100;
  next_offset = 0;
  session_url = text "url";
  session_token = text "tok_1";
  temp_object = text "x";
  storage_complete = false;
  finalized_object = none;
}

-- An encoding of this one session.
abbrev json : SessionJson
json = record { to_vec = λ s. s.upload_id; from_slice = λ bytes. ok session }

abbrev empty : Bucket
empty b o = none

abbrev kept : Bucket
kept = (save client (text "b") json session empty).1

abbrev gone : Bucket
gone = (delete client (text "b") json (text "up_1") kept).1

load-reports_example :
    (((load client (text "b") json (text "up_1") empty).0 ≡ ok none) ↔ SaysNotFound missing)
    × (((load client (text "b") json (text "up_1") empty).0 ≡ ok none)
        ⊎ ((load client (text "b") json (text "up_1") empty).0
            ≡ err (other (text "Failed to load session manifest: " ++ missing))))
load-reports_example = load-reports client (text "b") json (text "up_1") empty missing refl
