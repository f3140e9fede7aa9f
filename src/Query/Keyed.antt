-- ===== src/Query/Keyed.antt =====
-- Tables with a primary key: what the statements on them leave under each key.
use divine_upload_server.Query.{first}
use divine_upload_server.Query.Laws.{
  option_map, first-append, first-append-none, first-passes, first-map, All-map, All-imp,
}
use divine_upload_server.Prelude.{
  ◌≡◌, refl, sym, ap, subst, ◌∙◌, inl, inr, false, Option, none, some, List, [], ◌∷◌, ◌++◌, map,
  if◌then◌else◌, All, All-append, Bool-cases, Option-cases,
}
use divine_upload_server.Text.{Text, str_eq}
use divine_upload_server.Text.Laws.{str_eq_iff}

module _ {A : Type 0} (key : A → Text) where
  abbrev pub find : Text → List A → Option A
  find id = first (λ x. str_eq (key x) id)

  -- The row of the key of `a` becomes `a`.
  abbrev pub placed : A → A → A
  placed a b = if str_eq (key b) (key a) then a else b

  -- Each row is the one that its key finds.
  abbrev pub IsKeyed : List A → Type 0
  IsKeyed xs = All (λ x. find (key x) xs ≡ some x) xs

  pub find-key : (id : Text) (xs : List A) (a : A) → find id xs ≡ some a → key a ≡ id
  find-key id xs a e = (str_eq_iff _ _).0 (first-passes _ xs a e)

  module _ (f : A → A) (keeps : (a : A) → key (f a) ≡ key a) where
    pub find-map : (id : Text) (xs : List A) → find id (map f xs) ≡ option_map f (find id xs)
    find-map id = first-map _ f (λ a. ap (λ k. str_eq k id) (keeps a))

    pub IsKeyed-map : (xs : List A) → IsKeyed xs → IsKeyed (map f xs)
    IsKeyed-map xs =
        All-map _ _ f
          (λ a e.
            subst (λ k. find k (map f xs) ≡ some (f a)) (sym (keeps a))
              (find-map (key a) xs ∙ ap (option_map f) e))
          xs

  placed_key : (a b : A) → key (placed a b) ≡ key b
  placed_key a b = elim (Bool-cases (str_eq (key b) (key a))) [
    | inl hit ↦ rw hit (sym ((str_eq_iff _ _).0 hit))
    | inr miss ↦ rw miss refl
  ]

  -- `UPDATE`: the key finds what is left in its place.
  pub find-put :
      (a b : A) (id : Text) (xs : List A)
      → find id xs ≡ some b
      → find id (map (placed a) xs) ≡ some (placed a b)
  find-put a b id xs e = find-map (placed a) (placed_key a) id xs ∙ ap (option_map (placed a)) e

  pub find-put-none :
      (a : A) (id : Text) (xs : List A) → find id xs ≡ none → find id (map (placed a) xs) ≡ none
  find-put-none a id xs e = find-map (placed a) (placed_key a) id xs ∙ ap (option_map (placed a)) e

  pub find-put-same :
      (a b : A) (id : Text) (xs : List A)
      → find id xs ≡ some b
      → key a ≡ key b
      → find id (map (placed a) xs) ≡ some a
  find-put-same a b id xs e same =
      find-put a b id xs e ∙ ap some (rw ((str_eq_iff (key b) (key a)).1 (sym same)) refl)

  pub IsKeyed-put : (a : A) (xs : List A) → IsKeyed xs → IsKeyed (map (placed a) xs)
  IsKeyed-put a = IsKeyed-map (placed a) (placed_key a)

  module _ (a : A) (xs : List A) where
    -- `INSERT`: other keys find what they found.
    pub find-appended : (id : Text) (b : A) → find id xs ≡ some b → find id (xs ++ a ∷ []) ≡ some b
    find-appended id b e = first-append _ xs _ b e

    pub find-fresh : (id : Text) → find id xs ≡ none → key a ≡ id → find id (xs ++ a ∷ []) ≡ some a
    unfolding first
    find-fresh id absent same =
        first-append-none _ xs _ absent ∙ rw ((str_eq_iff (key a) id).1 same) refl

    pub IsKeyed-appended : find (key a) xs ≡ none → IsKeyed xs → IsKeyed (xs ++ a ∷ [])
    IsKeyed-appended absent keyed =
        All-append _ xs _ (All-imp _ _ (λ b e. find-appended _ b e) xs keyed)
          (find-fresh _ absent refl, tt)

    -- A row of another key is as it was.
    pub find-appended-other :
        (id : Text) → str_eq (key a) id ≡ false → find id (xs ++ a ∷ []) ≡ find id xs
    unfolding first
    find-appended-other id other = elim (Option-cases (find id xs)) [
      | inl absent ↦ first-append-none _ xs _ absent ∙ rw other (sym absent)
      | inr (b, there) ↦ find-appended id b there ∙ sym there
    ]

    pub find-put-other :
        (id : Text) → str_eq (key a) id ≡ false → find id (map (placed a) xs) ≡ find id xs
    find-put-other id other = elim (Option-cases (find id xs)) [
      | inl absent ↦ find-put-none a id xs absent ∙ sym absent
      | inr (b, there) ↦ elim (Bool-cases (str_eq (key b) (key a))) [
        | inl hit ↦
            let same = sym ((str_eq_iff _ _).0 hit) ∙ find-key id xs b there in
            cc (sym ((str_eq_iff (key a) id).1 same) ∙ other)
        | inr miss ↦ find-put a b id xs there ∙ rw miss (sym there)
      ]
    ]
