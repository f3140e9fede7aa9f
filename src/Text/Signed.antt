-- ===== src/Text/Signed.antt =====
-- `i64`: its decimal reading and printing, and the cast to `u64`.
use divine_upload_server.Prelude.{
  ℕ, ◌-◌, ◌+◌, Option, none, some, [], ◌∷◌, leb, ◌==◌, if◌then◌else◌,
}
use divine_upload_server.Text.{Text}
use divine_upload_server.Text.Decimal.{max_u64, parse_u64, show}

-- `negsuc n` is `- (n + 1)`.
pub data ℤ : Type 0 where
  pos negsuc : ℕ → ℤ

abbrev pub max_i64 : ℕ
max_i64 = 9223372036854775807

unfoldable pub within_i64 : Option ℕ → Option ℤ
within_i64 none = none
within_i64 (some n) = if leb n max_i64 then some (pos n) else none

negated : Option ℕ → Option ℤ
negated none = none
negated (some n) =
    if n == 0 then some (pos 0) else if leb n (max_i64 + 1) then some (negsuc (n - 1)) else none

-- A second sign is not a digit.
unsigned : Text → Option ℕ
unsigned [] = none
unsigned (c ∷ s) = if c == b'+' then none else parse_u64 (c ∷ s)

unfoldable pub parse_i64 : Text → Option ℤ
unfolding negated unsigned
parse_i64 [] = none
parse_i64 (c ∷ s) = if c == b'-' then negated (unsigned s) else within_i64 (parse_u64 (c ∷ s))

unfoldable pub show_i64 : ℤ → Text
show_i64 (pos n) = show n
show_i64 (negsuc n) = b'-' ∷ show (n + 1)

-- `n as u64`
unfoldable pub as_u64 : ℤ → ℕ
as_u64 (pos n) = n
as_u64 (negsuc n) = max_u64 - n

-- `n as i64` of a `u64`
unfoldable pub as_i64 : ℕ → ℤ
as_i64 n = if leb n max_i64 then pos n else negsuc (max_u64 - n)
