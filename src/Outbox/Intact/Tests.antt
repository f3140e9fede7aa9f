-- ===== src/Outbox/Intact/Tests.antt =====
-- Recovery (src/outbox.rs) reads the copy in Google Cloud Storage of an intent of two bytes.
use divine_upload_server.Prelude.{◌≤◌, refl, none, some, [], ◌∷◌}
use divine_upload_server.Exec.{pure, act, call, ◌>>=◌}
use divine_upload_server.Exec.Success.{Succeeds}
use divine_upload_server.Text.{text, str_eq, is_ascii_digit}
use divine_upload_server.Text.Decimal.{digits, parse_u64, show}
use divine_upload_server.Text.Signed.{parse_i64, show_i64, as_u64, within_i64}
use divine_upload_server.Storage.Reads.{stream_ref, exact_generation}
use divine_upload_server.Storage.Tests.{Disk, machine, both, gcs_copy}
use divine_upload_server.Outbox.Intents.{PendingUpload}
use divine_upload_server.Outbox.Recovery.{Recovery, collect, is_intact, read_intact, read_copies}
use divine_upload_server.Outbox.Intact.{ReadInTurn, read_copies-WasRead}

-- Bytes are their own hash.
abbrev recovery : Recovery Disk
recovery = record {
  pending_intents = λ limit. pure [];
  mark_checked = λ hash owner. pure tt;
  enqueue_upload = λ hash size content_type owner objects. pure tt;
  hash_text = λ bytes. bytes;
}

abbrev intent : PendingUpload
intent = record {
  sha256 = 7 ∷ 8 ∷ [];
  size = 2;
  content_type = text "video/mp4";
  owner = text "o";
  mode = text "gcs";
  gcs_bucket = text "media";
  b2_bucket = none;
}

listed :
    Succeeds
      (read_copies machine recovery intent ((both, gcs_copy) ∷ []) 100)
      (some (7 ∷ 8 ∷ []))
      (gcs_copy ∷ [], 98)
unfolding read_copies read_intact is_intact collect stream_ref exact_generation ◌>>=◌ act call pure
    parse_i64 show_i64 digits parse_u64 show as_u64 within_i64 is_ascii_digit str_eq text
listed = refl

read_copies-WasRead_example :
    ReadInTurn machine recovery intent ((both, gcs_copy) ∷ []) (some (7 ∷ 8 ∷ [])) (gcs_copy ∷ [])
    × (98 ≤ 100)
read_copies-WasRead_example =
    read_copies-WasRead machine recovery intent ((both, gcs_copy) ∷ []) 100 (some (7 ∷ 8 ∷ []))
      (gcs_copy ∷ [], 98) listed
