-- ===== src/Text/Decimal.antt =====
-- `u64::from_str` and the decimal print of `format!("{}", n)`.
use mathlib.Core.List.{concat-ne-nil}
use divine_upload_server.Prelude.{
  ℕ, zero, suc, ◌+◌, ◌-◌, ◌*◌, ◌/◌, ◌%◌, ◌^◌, ◌≤◌, ◌<◌, ◌≡◌, ◌≢◌, refl, sym, ◌∙◌, Option, none,
  some, [], ◌∷◌, ◌++◌, arith, leb, ◌==◌, ◌&&◌, if◌then◌else◌, All, All-append, ap, ==_false,
}
use native.Mathlib.Decide.{ℕ_discrete}
use native.Mathlib.Nat.{pow-suc}
use divine_upload_server.Text.{Text, text, is_ascii_digit}

abbrev pub max_u64 : ℕ
max_u64 = 2 ^ 64 - 1

-- `checked_mul(10)` and `checked_add(digit)`, digit by digit; `none` is a `ParseIntError`.
scan : Text → ℕ → Option ℕ
unfolding is_ascii_digit
scan [] n = some n
scan (c ∷ s) n =
    if is_ascii_digit c && leb (n * 10 + (c - b'0')) max_u64
    then scan s (n * 10 + (c - b'0'))
    else none

digits_only : Text → Option ℕ
unfolding scan
digits_only [] = none
digits_only (c ∷ s) = scan (c ∷ s) 0

-- One leading `+` is accepted, and an empty text or a `+` alone is not.
unfoldable pub parse_u64 : Text → Option ℕ
unfolding digits_only
parse_u64 [] = none
parse_u64 (c ∷ s) = if c == b'+' then digits_only s else digits_only (c ∷ s)

-- At most `rounds` digits of a positive number; twenty are enough below 10 ^ 20.
unfoldable pub digits : ℕ → ℕ → Text
digits zero n = []
digits (suc rounds) n =
    let front = digits rounds (n / 10) in if n == 0 then [] else front ++ (b'0' + n % 10) ∷ []

unfoldable pub show : ℕ → Text
show n = if n == 0 then b'0' ∷ [] else digits 20 n

show_examples : (show 0 ≡ text "0") × (show max_u64 ≡ text "18446744073709551615")
unfolding show digits text
show_examples = (refl, refl)

parse_u64_examples :
    (parse_u64 (text "+7") ≡ some 7)
    × (parse_u64 (text "18446744073709551616") ≡ none)
    × (parse_u64 (text "") ≡ none)
    × (parse_u64 (text "-1") ≡ none)
unfolding parse_u64 text
parse_u64_examples = (refl, refl, refl, refl)

abbrev pub IsDigit : ℕ → Type 0
IsDigit c = (b'0' ≤ c) × (c ≤ b'9')

abbrev then_scan : Option ℕ → Text → Option ℕ
then_scan none s = none
then_scan (some n) s = scan s n

scan-append : (s t : Text) (n : ℕ) → scan (s ++ t) n ≡ then_scan (scan s n) t
unfolding scan
scan-append [] t n = refl
scan-append (c ∷ s) t n = ground (arith, scan-append s t (n * 10 + (c - b'0')))

show_positive : (n : ℕ) → n ≢ 0 → show n ≡ digits 20 n
unfolding show
show_positive n h = rw (==_false n 0 h)

scan_digit : (n : ℕ) → n ≤ max_u64 → scan ((b'0' + n % 10) ∷ []) (n / 10) ≡ some n
unfolding scan
scan_digit n h = ground arith

digits_step : (r n : ℕ) → n ≢ 0 → digits (suc r) n ≡ digits r (n / 10) ++ (b'0' + n % 10) ∷ []
unfolding digits
digits_step r n h = ground arith

scan-digits : (r n : ℕ) → n < 10 ^ r → n ≤ max_u64 → scan (digits r n) 0 ≡ some n
unfolding scan digits
scan-digits zero n h fits = ground arith
scan-digits (suc r) n h fits = elim (ℕ_discrete n 0) [
  | yes e ↦ rw e
  | no positive ↦
      rw
        (
          digits_step r n positive,
          scan-append (digits r (n / 10)) _ 0,
          scan-digits r (n / 10) (omega (arith, pow-suc 10 r)) (omega arith),
        )
        (scan_digit n fits)
]

digits-All : (r n : ℕ) → All IsDigit (digits r n)
unfolding digits
digits-All zero n = tt
digits-All (suc r) n = elim (ℕ_discrete n 0) [
  | yes e ↦ rw e tt
  | no positive ↦
      rw (digits_step r n positive)
        (All-append IsDigit _ _ (digits-All r (n / 10)) ((omega arith, omega arith), tt))
]

pub show-All : (n : ℕ) → All IsDigit (show n)
unfolding show
show-All n = elim (ℕ_discrete n 0) [
  | yes e ↦ rw e ((omega arith, omega arith), tt)
  | no positive ↦ rw (show_positive n positive) (digits-All 20 n)
]

-- A printed number ends in a digit.
pub show_last : (n : ℕ) → (s : Text) × (c : ℕ) × (show n ≡ s ++ c ∷ []) × IsDigit c
unfolding show
show_last n = elim (ℕ_discrete n 0) [
  | yes e ↦ ([], b'0', rw e refl, (omega arith, omega arith))
  | no positive ↦ (
    digits 19 (n / 10),
    b'0' + n % 10,
    show_positive n positive ∙ digits_step 19 n positive,
    (omega arith, omega arith),
  )
]

parse_u64-scan : (s : Text) → s ≢ [] → All IsDigit s → parse_u64 s ≡ scan s 0
unfolding parse_u64
parse_u64-scan [] h d = absurd (h refl)
parse_u64-scan (c ∷ s) h (d, ds) = ground arith

show-ne-nil : (n : ℕ) → show n ≢ []
show-ne-nil n e = let (s, c, p, d) = show_last n in concat-ne-nil c s (sym p ∙ e)

-- Every `u64` is read back from its decimal print.
pub parse_u64-show : (n : ℕ) → n ≤ max_u64 → parse_u64 (show n) ≡ some n
parse_u64-show n h = elim (ℕ_discrete n 0) [
  | yes e ↦ rw e (unfold parse_u64 show in refl)
  | no positive ↦
      parse_u64-scan (show n) (show-ne-nil n) (show-All n)
      ∙ ap (λ s. scan s 0) (show_positive n positive)
      ∙ scan-digits 20 n (omega arith) h
]
