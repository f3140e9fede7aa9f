-- ===== src/Inbox/Http/Tests.antt =====
-- Requests to the boundary of the inbox, over a store that counts what it accepts.
use divine_upload_server.Prelude.{ℕ, ◌+◌, ◌≡◌, ◌↔◌, refl, true, false, Option, none, some, [], ◌∷◌}
use divine_upload_server.Exec.{pure, call, lift, ◌>>=◌}
use divine_upload_server.Result.{ok}
use divine_upload_server.Text.{
  Text, text, str_eq, byte_len, strip_prefix, starts_with, all_bytes, contains, contains_char,
  is_ascii_alphanumeric, is_ascii_digit,
}
use divine_upload_server.Storage.Objects.{same_provider}
use divine_upload_server.Processing.{version_or_empty, refresh_job_id, is_empty, is_lower_hexdigit}
use divine_upload_server.Inbox.Data.{InboxSettings}
use divine_upload_server.Inbox.Validate.{
  validate_event, validate_copies, validate_reference, is_hash, is_bad_owner,
}
use divine_upload_server.Inbox.Http.{
  Request, Readers, Store, Boundary, received, finalized, handle, with_body, perform, answer_of,
  operation, accept_event, token_matches, same_mac, expected_token, path_of, response,
}
use divine_upload_server.Inbox.Authority.{
  Credential, token_matches_iff, handle-Unauthorized, Accepted, handle-Accepted,
}
use divine_upload_server.Resumable.Traits.{Bytes}
use divine_upload_server.Inbox.Tests.{hash, one_hash, event}

abbrev settings : InboxSettings
settings = record {
  intake_token = text "in";
  worker_token = text "work";
  producer_journal_enabled = false;
}

-- A MAC of one byte, as of every key that starts alike.
abbrev one_byte : Text → Bytes
one_byte [] = 0 ∷ []
one_byte (c ∷ key) = c ∷ []

abbrev boundary : Boundary ℕ
boundary = record { mac = one_byte; in_time = λ w. true; interrupted = λ w. w }

-- Every body is the event.
abbrev readers : Readers Unit Unit
readers = record {
  event = λ body. some event;
  lookup = λ body. none;
  lease = λ body. none;
  completion = λ body. none;
  is_empty_object = λ body. none;
  begin = λ body. none;
  prepare = λ body. none;
  inspect = λ body. none;
  dispatch = λ body. none;
}

abbrev counter : Store ℕ Unit Unit Unit
counter = record {
  accept = λ event key w. (ok tt, w + 1);
  lookup = λ id. pure none;
  claim = pure none;
  renew = λ lease. pure false;
  complete = λ lease manifest. pure false;
  journal_begin = λ lease. pure tt;
  journal_prepare = λ input. pure tt;
  journal_inspect = λ id. pure tt;
  journal_dispatch = λ input. pure tt;
  journal_completion_replay = λ lease manifest. pure false;
}

abbrev request : Option Text → Request
request authorization = record {
  route = finalized;
  authorization = authorization;
  idempotency_key = some hash;
  body = received [];
}

token_matches_iff_example :
    (token_matches one_byte (some (text "Bearer in")) (text "in") ≡ true)
    ↔ Credential one_byte (text "in") (some (text "Bearer in"))
token_matches_iff_example = token_matches_iff one_byte (some (text "Bearer in")) (text "in")

handle-Unauthorized_example :
    ((handle boundary one_hash settings readers counter (request none) 7).0.status ≡ 401)
    × ((handle boundary one_hash settings readers counter (request none) 7).1 ≡ 7)
handle-Unauthorized_example =
    handle-Unauthorized boundary one_hash settings readers counter (request none) 7
      (λ (token, header, _, _). cc header)

acknowledged :
    (handle boundary one_hash settings readers counter
      (request (some (text "Bearer in")))
      7).0.status
    ≡ 200
unfolding handle token_matches same_mac strip_prefix expected_token path_of starts_with with_body
    perform answer_of operation accept_event ◌>>=◌ lift call pure response validate_event
    validate_copies validate_reference version_or_empty refresh_job_id is_hash is_bad_owner is_empty
    byte_len all_bytes contains contains_char is_ascii_alphanumeric is_ascii_digit is_lower_hexdigit
    same_provider str_eq text
acknowledged = refl

handle-Accepted_example :
    Credential one_byte (text "in") (some (text "Bearer in"))
    × Accepted boundary one_hash settings readers counter hash
        (received [])
        7
        (handle boundary one_hash settings readers counter (request (some (text "Bearer in"))) 7)
handle-Accepted_example =
    handle-Accepted boundary one_hash settings readers counter (some (text "Bearer in")) (some hash)
      (received []) 7 acknowledged
