-- ===== src/Resumable/Range.antt =====
-- `parse_content_range` of src/resumable.rs.
use divine_upload_server.Prelude.{
  ℕ, ◌+◌, ◌-◌, ◌≤◌, ◌<◌, ◌≡◌, ◌≢◌, refl, ◌∙◌, ap, false, ◌||◌, some, [], ◌∷◌, ◌++◌, arith,
  append_assoc, sym, subst, All-append, ltb, leb, ◌==◌, not, if◌then◌else◌, All,
}
use divine_upload_server.Result.{Result, ok, err, ok_or, ◌>>=◌, ◌>>◌, refuse_if}
use divine_upload_server.Text.{Text, text, trim, strip_prefix, split_once, is_whitespace}
use divine_upload_server.Text.Decimal.{
  parse_u64, show, max_u64, parse_u64-show, show-All, show_last, IsDigit,
}
use divine_upload_server.Text.Laws.{split_once-append, strip_prefix-append, trim_id}
use divine_upload_server.Resumable.Data.{
  ContentRange, ResumableError, bad_request, range_not_satisfiable, len,
}

abbrev total_mismatch : ℕ → ℕ → ResumableError
total_mismatch total expected = range_not_satisfiable (
    text "Declared total "
    ++ (show total ++ (text " does not match session size " ++ show expected)))

abbrev outside : ResumableError
outside = range_not_satisfiable (text "Content-Range is outside the declared upload size")

unfoldable pub parse_content_range : Text → ℕ → Result ResumableError ContentRange
parse_content_range raw expected_total = do
  range ←
      ok_or (strip_prefix (text "bytes ") (trim raw))
        (bad_request (text "Content-Range must start with 'bytes '"))
  parts ← ok_or (split_once b'/' range) (bad_request (text "Content-Range must include total size"))
  total ← ok_or (parse_u64 parts.1) (bad_request (text "Invalid total size in Content-Range"))
  refuse_if (not (total == expected_total)) (total_mismatch total expected_total)
  bounds ←
      ok_or (split_once b'-' parts.0)
        (bad_request (text "Content-Range must include start and end offsets"))
  start ← ok_or (parse_u64 bounds.0) (bad_request (text "Invalid start offset in Content-Range"))
  end ← ok_or (parse_u64 bounds.1) (bad_request (text "Invalid end offset in Content-Range"))
  refuse_if (ltb end start || leb total end) outside
  ok (record { start = start; end = end; total = total })

-- The header value that a client sends for the bytes from `start` to `end` of `total`.
pub print_range : ℕ → ℕ → ℕ → Text
print_range start end total =
    text "bytes " ++ ((show start ++ b'-' ∷ show end) ++ b'/' ∷ show total)

-- An accepted range lies inside the declared size.
pub parse_content_range_within :
    (raw : Text) (expected : ℕ) (r : ContentRange)
    → parse_content_range raw expected ≡ ok r
    → (r.total ≡ expected) × (r.start ≤ r.end) × (r.end < expected)
unfolding parse_content_range
parse_content_range_within raw expected r h = ground arith

-- The length of an accepted range of a size below 2 ^ 64 has not wrapped around: it is the number
-- of bytes from `start` to `end`.
pub parse_content_range-len :
    (raw : Text) (expected : ℕ) (r : ContentRange)
    → parse_content_range raw expected ≡ ok r
    → expected ≤ max_u64
    → (len r ≡ r.end - r.start + 1) × (len r ≤ expected)
unfolding len
parse_content_range-len raw expected r h fits =
    let inside = parse_content_range_within raw expected r h in
    (omega (arith, inside.1, inside.2), omega (arith, inside.1, inside.2))

digits_lack : (c : ℕ) (s : Text) → (c < b'0') → All IsDigit s → All (λ d. d ≢ c) s
digits_lack c [] below h = tt
digits_lack c (d ∷ s) below (hd, hs) = ((λ e. omega (arith, e)), digits_lack c s below hs)

digit_solid : (c : ℕ) → IsDigit c → is_whitespace c ≡ false
unfolding is_whitespace
digit_solid c h = ground arith

trim_ends :
    (a : ℕ) (u s : Text) (c : ℕ)
    → is_whitespace a ≡ false
    → is_whitespace c ≡ false
    → trim (a ∷ (u ++ (s ++ c ∷ []))) ≡ a ∷ (u ++ (s ++ c ∷ []))
trim_ends a u s c ha hc = rw (← append_assoc u s (c ∷ [])) (trim_id a c (u ++ s) ha hc)

abbrev bounds_text : ℕ → ℕ → Text
bounds_text start end = show start ++ b'-' ∷ show end

trim-print_range :
    (start end total : ℕ) → trim (print_range start end total) ≡ print_range start end total
unfolding print_range text is_whitespace
trim-print_range start end total =
    let (s, c, e, d) = show_last total in
    let u : Text = text "ytes " ++ (bounds_text start end ++ b'/' ∷ []) in
    let same : u ++ show total ≡ text "ytes " ++ (bounds_text start end ++ b'/' ∷ show total) =
      ap (λ t. text "ytes " ++ t) (append_assoc (bounds_text start end) (b'/' ∷ []) (show total)) in
    let spaced : u ++ (s ++ c ∷ []) ≡ text "ytes " ++ (bounds_text start end ++ b'/' ∷ show total) =
      ap (λ t. u ++ t) (sym e) ∙ same in
    subst (λ t. trim (b'b' ∷ t) ≡ b'b' ∷ t) spaced (trim_ends b'b' u s c refl (digit_solid c d))

bounds_text_lack : (start end : ℕ) → All (λ d. d ≢ b'/') (bounds_text start end)
bounds_text_lack start end =
    All-append _ (show start) (b'-' ∷ show end) (digits_lack b'/' _ (omega arith) (show-All start))
      ((λ e. omega (arith, e)), digits_lack b'/' _ (omega arith) (show-All end))

split-bounds :
    (start end : ℕ) → split_once b'-' (bounds_text start end) ≡ some (show start, show end)
split-bounds start end =
    split_once-append b'-' _ _ (digits_lack b'-' _ (omega arith) (show-All start))

split-total :
    (start end total : ℕ)
    → split_once b'/' (bounds_text start end ++ b'/' ∷ show total)
      ≡ some (bounds_text start end, show total)
split-total start end total = split_once-append b'/' _ _ (bounds_text_lack start end)

-- A printed range is decided exactly: it is refused with 416 if its total is not the declared size,
-- or if it is empty, inverted or ends at or past the total, and is read back otherwise.
pub parse_content_range-print :
    (start end total expected : ℕ)
    → start ≤ max_u64
    → end ≤ max_u64
    → total ≤ max_u64
    → parse_content_range (print_range start end total) expected ≡ (
        if not (total == expected)
        then err (total_mismatch total expected)
        else if ltb end start || leb total end
        then err outside
        else ok (record { start = start; end = end; total = total }))
unfolding parse_content_range text
parse_content_range-print start end total expected hs he ht =
    rw (parse_content_range, trim-print_range start end total)
      (unfold parse_content_range print_range in
        rw
          (
            strip_prefix-append (text "bytes ") (bounds_text start end ++ b'/' ∷ show total),
            split-total start end total,
            parse_u64-show total ht,
            split-bounds start end,
            parse_u64-show start hs,
            parse_u64-show end he,
          )
          (ground arith))
