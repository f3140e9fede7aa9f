-- ===== src/RequestLog.antt =====
-- src/request_log.rs: the access log with the edge's correlation identifier.
mod Laws
mod Tests
use mathlib.Core.Path.{◌≡◌}
use divine_upload_server.Prelude.{
  ℕ, Bool, true, false, ◌||◌, Option, none, some, List, [], ◌∷◌, ◌++◌, ◌==◌, take, if◌then◌else◌,
}
use divine_upload_server.Text.{Text, text, is_ascii_alphanumeric}
use divine_upload_server.Text.Decimal.{show, parse_u64}

abbrev pub absent : Text
absent = text "-"

abbrev pub max_request_id_len : ℕ
max_request_id_len = 64

pub record RequestLogFields : Type 0 where
  pub req_id : Text
  pub method : Text
  pub path : Text
  pub status : Option ℕ
  pub duration_ms : ℕ
  pub content_length : Option ℕ

unfoldable pub is_id_char : ℕ → Bool
is_id_char c = is_ascii_alphanumeric c || c == b'-' || c == b'_'

unfoldable pub keep : (ℕ → Bool) → Text → Text
keep p [] = []
keep p (c ∷ s) = let rest = keep p s in if p c then c ∷ rest else rest

unfoldable pub sanitize : Text → Text
sanitize value = take max_request_id_len (keep is_id_char value)

unfoldable pub or_placeholder : Text → Text
or_placeholder [] = absent
or_placeholder (c ∷ s) = c ∷ s

-- The header's value, where it is there and is text.
unfoldable pub correlation_id : Option Text → Text
correlation_id none = absent
correlation_id (some value) = or_placeholder (sanitize value)

unfoldable pub declared_content_length : Option Text → Option ℕ
declared_content_length none = none
declared_content_length (some value) = parse_u64 value

unfoldable pub or_absent : Option ℕ → Text
or_absent none = absent
or_absent (some n) = show n

-- The fields after the identifier.
unfoldable pub later_fields : RequestLogFields → Text
later_fields fields =
    text "method="
    ++ (fields.method
        ++ (text " path="
            ++ (fields.path
                ++ (text " status="
                    ++ (or_absent fields.status
                        ++ (text " duration_ms="
                            ++ (show fields.duration_ms
                                ++ (text " content_length="
                                    ++ or_absent fields.content_length))))))))

unfoldable pub format_request_log : RequestLogFields → Text
format_request_log fields =
    text "[REQUEST] req_id=" ++ (fields.req_id ++ b' ' ∷ later_fields fields)
