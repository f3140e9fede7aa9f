-- ===== src/Text/Laws.antt =====
-- Laws of the text functions.
use divine_upload_server.Prelude.{
  ℕ, ◌≡◌, ◌≢◌, ◌↔◌, refl, sym, ap, ◌∙◌, subst, true, false, some, [], ◌∷◌, ◌++◌, arith, All,
  reverse, reverse-append, reverse-reverse,
}
use divine_upload_server.Text.{
  Text, str_eq, is_whitespace, trim_start, trim_end, trim, strip_prefix, split_once,
}

str_eq_sound : (s t : Text) → str_eq s t ≡ true → s ≡ t
unfolding str_eq
str_eq_sound [] [] h = refl
str_eq_sound [] (b ∷ t) h = cc
str_eq_sound (a ∷ s) [] h = cc
str_eq_sound (a ∷ s) (b ∷ t) h = ground (arith, str_eq_sound s t)

pub str_eq_refl : (s : Text) → str_eq s s ≡ true
unfolding str_eq
str_eq_refl [] = refl
str_eq_refl (a ∷ s) = ground (arith, str_eq_refl s)

-- The test decides equality.
pub str_eq_iff : (s t : Text) → (str_eq s t ≡ true) ↔ (s ≡ t)
str_eq_iff s t = (str_eq_sound s t, λ e. subst (λ u. str_eq s u ≡ true) e (str_eq_refl s))

pub split_once-append :
    (sep : ℕ) (s t : Text) → All (λ c. c ≢ sep) s → split_once sep (s ++ sep ∷ t) ≡ some (s, t)
unfolding split_once
split_once-append sep [] t h = ground arith
split_once-append sep (c ∷ s) t (ne, h) = ground (arith, split_once-append sep s t h)

pub strip_prefix-append : (p s : Text) → strip_prefix p (p ++ s) ≡ some s
unfolding strip_prefix
strip_prefix-append [] s = refl
strip_prefix-append (c ∷ p) s = ground (arith, strip_prefix-append p s)

trim_start_id : (c : ℕ) (s : Text) → is_whitespace c ≡ false → trim_start (c ∷ s) ≡ c ∷ s
unfolding trim_start
trim_start_id c s h = rw h

trim_end_id : (b : ℕ) (s : Text) → is_whitespace b ≡ false → trim_end (s ++ b ∷ []) ≡ s ++ b ∷ []
unfolding trim_end
trim_end_id b s h =
    ap (λ u. reverse (trim_start u)) (reverse-append s (b ∷ []))
    ∙ ap reverse (trim_start_id b (reverse s) h)
    ∙ ap reverse (sym (reverse-append s (b ∷ [])))
    ∙ reverse-reverse (s ++ b ∷ [])

-- A text with no white space at either end is its own `trim`.
pub trim_id :
    (a b : ℕ) (s : Text)
    → is_whitespace a ≡ false
    → is_whitespace b ≡ false
    → trim (a ∷ (s ++ b ∷ [])) ≡ a ∷ (s ++ b ∷ [])
unfolding trim
trim_id a b s ha hb = ap trim_end (trim_start_id a (s ++ b ∷ []) ha) ∙ trim_end_id b (a ∷ s) hb
