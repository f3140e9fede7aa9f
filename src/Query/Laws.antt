-- ===== src/Query/Laws.antt =====
-- Laws of the parts of a query.
use mathlib.Core.List.{Memᴰ}
use mathlib.Core.Option.{some-injective}
use divine_upload_server.Query.{filter, first, insert_by, order_by}
use divine_upload_server.Prelude.{
  ◌≡◌, refl, sym, ap, subst, ◌∙◌, inl, inr, Bool, true, Option, none, some, List, [], ◌∷◌, ◌++◌,
  map, All, Bool-cases, any, ◌||◌, arith,
}

abbrev pub option_map : {A B : Type 0} → (A → B) → Option A → Option B
option_map f none = none
option_map f (some a) = some (f a)

module _ {A : Type 0} where
  pub first-append :
      (p : A → Bool) (xs ys : List A) (a : A) → first p xs ≡ some a → first p (xs ++ ys) ≡ some a
  unfolding first
  first-append p [] ys a e = cc
  first-append p (x ∷ xs) ys a e = elim (Bool-cases (p x)) [
    | inl hit ↦ rw hit (rw hit at e)
    | inr miss ↦ rw miss (first-append p xs ys a (rw miss at e))
  ]

  pub first-append-none :
      (p : A → Bool) (xs ys : List A) → first p xs ≡ none → first p (xs ++ ys) ≡ first p ys
  unfolding first
  first-append-none p [] ys e = refl
  first-append-none p (x ∷ xs) ys e = elim (Bool-cases (p x)) [
    | inl hit ↦ cc (rw hit at e)
    | inr miss ↦ rw miss (first-append-none p xs ys (rw miss at e))
  ]

  pub first-passes : (p : A → Bool) (xs : List A) (a : A) → first p xs ≡ some a → p a ≡ true
  unfolding first
  first-passes p [] a e = cc
  first-passes p (x ∷ xs) a e = elim (Bool-cases (p x)) [
    | inl hit ↦ subst (λ y. p y ≡ true) (some-injective _ _ (rw hit at e)) hit
    | inr miss ↦ first-passes p xs a (rw miss at e)
  ]

  -- A change of elements that the test does not see.
  pub first-map :
      (p : A → Bool) (f : A → A)
      → ((a : A) → p (f a) ≡ p a)
      → (xs : List A) → first p (map f xs) ≡ option_map f (first p xs)
  unfolding first
  first-map p f same [] = refl
  first-map p f same (x ∷ xs) = elim (Bool-cases (p x)) [
    | inl hit ↦ rw (same x ∙ hit, hit) refl
    | inr miss ↦ rw (same x ∙ miss, miss) (first-map p f same xs)
  ]

  -- A row that is left out is not one that is looked for.
  pub first-filter :
      (p q : A → Bool)
      → ((a : A) → p a ≡ true → q a ≡ true)
      → (xs : List A) → first p (filter q xs) ≡ first p xs
  unfolding first filter
  first-filter p q kept [] = refl
  first-filter p q kept (x ∷ xs) = elim (Bool-cases (p x)) [
    | inl hit ↦ rw (kept x hit, hit) refl
    | inr miss ↦ elim (Bool-cases (q x)) [
      | inl stays ↦ rw (stays, miss) (first-filter p q kept xs)
      | inr goes ↦ rw (goes, miss) (first-filter p q kept xs)
    ]
  ]

  pub any-append : (p : A → Bool) (xs : List A) (a : A) → any p (xs ++ a ∷ []) ≡ (any p xs || p a)
  any-append p [] a = ground arith
  any-append p (x ∷ xs) a = elim (Bool-cases (p x)) [
    | inl hit ↦ rw hit refl
    | inr miss ↦ rw miss (any-append p xs a)
  ]

  pub All-filter :
      (P : A → Type 0) (p : A → Bool) (xs : List A)
      → All P xs
      → All (λ x. P x × (p x ≡ true)) (filter p xs)
  unfolding filter
  All-filter P p [] h = tt
  All-filter P p (x ∷ xs) (h, hs) = elim (Bool-cases (p x)) [
    | inl hit ↦ rw hit ((h, hit), All-filter P p xs hs)
    | inr miss ↦ rw miss (All-filter P p xs hs)
  ]

  All-insert_by :
      (P : A → Type 0) (before : A → A → Bool) (x : A) (ys : List A)
      → P x
      → All P ys
      → All P (insert_by before x ys)
  unfolding insert_by
  All-insert_by P before x [] h hs = (h, tt)
  All-insert_by P before x (y ∷ ys) h (hy, hs) = elim (Bool-cases (before x y)) [
    | inl hit ↦ rw hit (h, (hy, hs))
    | inr miss ↦ rw miss (hy, All-insert_by P before x ys h hs)
  ]

  pub All-order_by :
      (P : A → Type 0) (before : A → A → Bool) (xs : List A) → All P xs → All P (order_by before xs)
  unfolding order_by
  All-order_by P before [] h = tt
  All-order_by P before (x ∷ xs) (h, hs) =
      All-insert_by P before x (order_by before xs) h (All-order_by P before xs hs)

pub All-imp :
    {A : Type 0} (P Q : A → Type 0) → ((a : A) → P a → Q a) → (xs : List A) → All P xs → All Q xs
All-imp P Q g [] h = tt
All-imp P Q g (x ∷ xs) (h, hs) = (g x h, All-imp P Q g xs hs)

-- A list has its own elements, and what holds of all of them holds of each.
pub All-Memᴰ : {A : Type 0} (xs : List A) → All (λ x. Memᴰ x xs) xs
All-Memᴰ [] = tt
All-Memᴰ (x ∷ xs) = (
  Memᴰ.head refl,
  All-imp (λ y. Memᴰ y xs) (λ y. Memᴰ y (x ∷ xs)) (λ y here. Memᴰ.tail here) xs (All-Memᴰ xs),
)

pub All_at : {A : Type 0} (P : A → Type 0) (xs : List A) (x : A) → All P xs → Memᴰ x xs → P x
All_at P [] x h here = elim here [ ]
All_at P (y ∷ ys) x (h, hs) (Memᴰ.head e) = subst P (sym e) h
All_at P (y ∷ ys) x (h, hs) (Memᴰ.tail here) = All_at P ys x hs here

pub any_of :
    {A : Type 0} (p : A → Bool) (xs : List A) (x : A) → Memᴰ x xs → p x ≡ true → any p xs ≡ true
any_of p [] x here h = elim here [ ]
any_of p (y ∷ ys) x (Memᴰ.head e) h = rw (sym (ap p e) ∙ h) refl
any_of p (y ∷ ys) x (Memᴰ.tail here) h = elim (Bool-cases (p y)) [
  | inl hit ↦ rw hit refl
  | inr miss ↦ rw miss (any_of p ys x here h)
]

-- What a query orders are rows of its table that pass its test.
pub All-query :
    {A : Type 0} (p : A → Bool) (before : A → A → Bool) (xs : List A)
    → All (λ x. Memᴰ x xs × (p x ≡ true)) (order_by before (filter p xs))
All-query p before xs =
    All-order_by _ before (filter p xs) (All-filter (λ x. Memᴰ x xs) p xs (All-Memᴰ xs))

pub All-map :
    {A B : Type 0} (P : A → Type 0) (Q : B → Type 0) (f : A → B)
    → ((a : A) → P a → Q (f a))
    → (xs : List A) → All P xs
    → All Q (map f xs)
All-map P Q f g [] h = tt
All-map P Q f g (x ∷ xs) (h, hs) = (g x h, All-map P Q f g xs hs)
