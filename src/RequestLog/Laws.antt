-- ===== src/RequestLog/Laws.antt =====
-- No header forges a field of a log line.
use divine_upload_server.Prelude.{
  ℕ, zero, suc, ◌≤◌, ◌≡◌, ◌≢◌, refl, Bool, true, Option, none, some, [], ◌∷◌, ◌++◌, arith, take,
  length, length-take-le, All, Bool-cases, inl, inr, sym, subst,
}
use divine_upload_server.Text.{
  Text, text, strip_prefix, split_once, is_ascii_alphanumeric, is_ascii_digit,
}
use divine_upload_server.Text.Laws.{strip_prefix-append, split_once-append}
use divine_upload_server.RequestLog.{
  RequestLogFields, is_id_char, keep, sanitize, or_placeholder, correlation_id, later_fields,
  format_request_log,
}

All-keep : (p : ℕ → Bool) (s : Text) → All (λ c. p c ≡ true) (keep p s)
unfolding keep
All-keep p [] = tt
All-keep p (c ∷ s) = elim (Bool-cases (p c)) [
  | inl hit ↦ rw hit (hit, All-keep p s)
  | inr miss ↦ rw miss (All-keep p s)
]

All-take : (P : ℕ → Type 0) (n : ℕ) (s : Text) → All P s → All P (take n s)
All-take P zero s h = tt
All-take P (suc n) [] h = tt
All-take P (suc n) (c ∷ s) (h, hs) = (h, All-take P n s hs)

-- A character of an identifier: a letter, a digit, a dash or an underscore.
abbrev pub IsIdChar : ℕ → Type 0
IsIdChar c = is_id_char c ≡ true

abbrev pub IsId : Text → Type 0
IsId s = All IsIdChar s × (length s ≤ 64) × (s ≢ [])

placeholder-IsId : (s : Text) → All IsIdChar s → length s ≤ 64 → IsId (or_placeholder s)
unfolding or_placeholder is_id_char is_ascii_alphanumeric is_ascii_digit text
placeholder-IsId [] h n = ((refl, tt), omega arith, λ e. cc)
placeholder-IsId (c ∷ s) h n = (h, n, λ e. cc)

correlation_id-IsId : (header : Option Text) → IsId (correlation_id header)
unfolding correlation_id sanitize is_id_char is_ascii_alphanumeric is_ascii_digit text
correlation_id-IsId none = ((refl, tt), omega arith, λ e. cc)
correlation_id-IsId (some value) =
    placeholder-IsId (sanitize value) (All-take IsIdChar 64 _ (All-keep is_id_char value))
      (length-take-le 64 (keep is_id_char value))

id_not_space : (c : ℕ) → IsIdChar c → c ≢ b' '
unfolding is_id_char is_ascii_alphanumeric is_ascii_digit
id_not_space c h = ground arith

All-solid : (s : Text) → All IsIdChar s → All (λ c. c ≢ b' ') s
All-solid [] h = tt
All-solid (c ∷ s) (h, hs) = (id_not_space c h, All-solid s hs)

-- Whatever a client puts in the header: the identifier that is logged is never empty, has at most 64
-- characters, all of them letters, digits, dashes or underscores, and it is what stands in the line
-- between the prefix and the first space, with the other fields after it.
pub format_request_log-correlation_id :
    (header : Option Text) (fields : RequestLogFields)
    → fields.req_id ≡ correlation_id header
    → IsId fields.req_id
      × ((rest : Text) × (strip_prefix (text "[REQUEST] req_id=") (format_request_log fields)
            ≡ some rest)
          × (split_once b' ' rest ≡ some (fields.req_id, later_fields fields)))
unfolding format_request_log
format_request_log-correlation_id header fields e =
    let id = subst IsId (sym e) (correlation_id-IsId header) in
    (
      id,
      (
        fields.req_id ++ b' ' ∷ later_fields fields,
        strip_prefix-append (text "[REQUEST] req_id=") _,
        split_once-append b' ' _ _ (All-solid fields.req_id id.0),
      ),
    )
