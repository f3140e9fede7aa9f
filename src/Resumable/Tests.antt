-- ===== src/Resumable/Tests.antt =====
-- Runs of the upload manager over the in-memory store, and the theorems at these runs.
use mathlib.Core.Option.{some-injective}
use divine_upload_server.Prelude.{
  ℕ, ◌≤◌, ◌≡◌, refl, subst, true, false, inl, inr, Option, none, some, List, [], ◌∷◌, arith,
  Bool-cases,
}
use divine_upload_server.Result.{ok}
use divine_upload_server.Exec.{◌>>=◌, holding}
use divine_upload_server.Exec.Success.{Succeeds}
use divine_upload_server.Text.{Text, text, str_eq, trim, strip_prefix, split_once, is_whitespace}
use divine_upload_server.Text.Decimal.{parse_u64}
use divine_upload_server.Resources.{check_size, max_upload_bytes, positive_setting}
use divine_upload_server.Resumable.Data.{
  UploadSession, ResumableUploadInitRequest, UploadSessionStatus, len,
}
use divine_upload_server.Resumable.Range.{
  parse_content_range, print_range, parse_content_range-print, parse_content_range-len,
}
use divine_upload_server.Resumable.Sessions.{
  locked, find_session, check_token, authorize_session, session_status, parse_bearer_token,
  hash_stream,
}
use divine_upload_server.Resumable.Manager.{send_chunk, commit_chunk, upload_chunk, store_state}
use divine_upload_server.Resumable.Completion.{
  hash_temp_object, response_of, announce, completed_response, reserve_intent, finalized,
  record_final, store_verified, verify_and_store, finish, complete_session,
}
use divine_upload_server.Resumable.Memory.{
  Memory, stored, manager, host, memory-Contract, stub_hash,
}
use divine_upload_server.Resumable.Invariant.{
  Request, init, chunk, complete, abort, run, IsSound, AllSound, run-AllSound,
}
use divine_upload_server.Resumable.Invariant.Progress.{run-Extends, Extends}
use divine_upload_server.Resumable.Success.Chunk.{Accepted, upload_chunk-Succeeds}
use divine_upload_server.Resumable.Success.Complete.{Completed, complete_session-Succeeds}

-- Nothing is committed of four bytes.
abbrev pending : UploadSession
pending = record {
  revision = 1;
  chunk_size = 0;
  upload_id = text "u";
  owner = text "me";
  final_sha256 = stub_hash;
  declared_size = 4;
  content_type = text "video/mp4";
  file_name = none;
  expires_at_epoch_secs = 100;
  next_offset = 0;
  session_url = text "memory";
  session_token = text "t";
  temp_object = text "x";
  storage_complete = false;
  finalized_object = none;
}

abbrev uploaded : UploadSession
uploaded = record pending { next_offset = 4; storage_complete = true }

abbrev world : UploadSession → Memory
world s = record {
  sessions = s ∷ [];
  blobs = (text "x", 1 ∷ 2 ∷ 3 ∷ 4 ∷ []) ∷ [];
  receipts = [];
  clock = 10;
}

pending-IsSound : IsSound pending
pending-IsSound = record {
  positive = omega arith;
  fits = omega arith;
  within = omega arith;
  whole = inl refl;
}

none_stored : {A X : Type 0} {a : A} → none ≡ some a → X
none_stored e = cc

world-AllSound : (s : UploadSession) → IsSound s → AllSound stored (world s)
world-AllSound s g id t e = elim (Bool-cases (str_eq s.upload_id id)) [
  | inl hit ↦ subst IsSound (some-injective _ _ (rw hit at e)) g
  | inr miss ↦ none_stored (rw miss at e)
]

abbrev bearer : Option Text
bearer = some (text "Bearer t")

abbrev four_bytes : List ℕ
four_bytes = 1 ∷ 2 ∷ 3 ∷ 4 ∷ []

abbrev requests : List Request
requests =
    chunk (text "u") bearer (text "bytes 0-3/4") four_bytes
    ∷ complete (text "u") (text "me")
    ∷ abort (text "u") bearer
    ∷ []

abbrev new_request : ResumableUploadInitRequest
new_request = record {
  sha256 = stub_hash;
  size = 4;
  content_type = text "video/mp4";
  file_name = none;
}

parse_content_range-print_example :
    parse_content_range (print_range 5 9 20) 20 ≡ ok (record { start = 5; end = 9; total = 20 })
parse_content_range-print_example =
    parse_content_range-print 5 9 20 20 (omega arith) (omega arith) (omega arith)

parse_content_range-len_example :
    (len (record { start = 5; end = 9; total = 20 }) ≡ 5)
    × (len (record { start = 5; end = 9; total = 20 }) ≤ 20)
parse_content_range-len_example =
    parse_content_range-len (print_range 5 9 20) 20 (record { start = 5; end = 9; total = 20 })
      parse_content_range-print_example (omega arith)

run-AllSound_example :
    AllSound stored (run manager host (init (text "me") new_request ∷ requests) (world pending))
run-AllSound_example =
    run-AllSound manager host stored memory-Contract (init (text "me") new_request ∷ requests)
      (world pending) (omega arith) (world-AllSound pending pending-IsSound)

run-Extends_example :
    Extends (some pending) (stored (run manager host requests (world pending)) (text "u"))
unfolding text str_eq
run-Extends_example =
    run-Extends manager host stored memory-Contract (text "u") requests (world pending)
      (tt, (tt, (tt, tt))) (world-AllSound pending pending-IsSound)

abbrev after_chunk : UploadSessionStatus
after_chunk = record {
  next_offset = 4;
  declared_size = 4;
  expires_at = text "then";
  chunk_size = 8388608;
}

chunk_accepted :
    Succeeds
      (upload_chunk manager host (text "u") bearer (text "bytes 0-3/4") four_bytes)
      (world pending)
      after_chunk
unfolding upload_chunk locked holding ◌>>=◌ find_session authorize_session check_token
    parse_bearer_token parse_content_range commit_chunk send_chunk session_status text str_eq trim
    strip_prefix split_once parse_u64 len store_state is_whitespace
chunk_accepted = refl

upload_chunk-Succeeds_example :
    Accepted manager host bearer (text "bytes 0-3/4") four_bytes pending after_chunk (
      stored
        (upload_chunk manager host
          (text "u")
          bearer
          (text "bytes 0-3/4")
          four_bytes
          (world pending)).1
        (text "u"))
unfolding text str_eq
upload_chunk-Succeeds_example =
    upload_chunk-Succeeds manager host stored memory-Contract (text "u") bearer (text "bytes 0-3/4")
      four_bytes (world pending) pending after_chunk refl pending-IsSound chunk_accepted

complete_accepted :
    Succeeds
      (complete_session manager host (text "u") (text "me"))
      (world uploaded)
      (response_of manager host uploaded true)
unfolding complete_session locked holding ◌>>=◌ find_session finish verify_and_store store_verified
    record_final completed_response announce reserve_intent hash_temp_object hash_stream check_size
    max_upload_bytes positive_setting text str_eq response_of finalized
complete_accepted = refl

complete_session-Succeeds_example :
    Completed manager host
      (text "me")
      uploaded
      (response_of manager host uploaded true)
      (stored (complete_session manager host (text "u") (text "me") (world uploaded)).1 (text "u"))
unfolding text str_eq
complete_session-Succeeds_example =
    complete_session-Succeeds manager host stored memory-Contract (text "u") (text "me")
      (world uploaded) uploaded (response_of manager host uploaded true) refl refl complete_accepted
