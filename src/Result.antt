-- ===== src/Result.antt =====
-- `std::result::Result`, with `?` as the bind of a `do` block.
use Prim.Native.Nat.{ℕ}
use mathlib.Core.Path.{◌≡◌}
use native.Mathlib.Omega.{arith}
use divine_upload_server.Prelude.{◌||◌, ◌==◌, not, refl, ap, ◌⊎◌, inl, inr, if◌then◌else◌}
use mathlib.Core.Option.{Option, none, some}
use mathlib.Core.Bool.{Bool, true, false}

pub data Result {ℓ} (E A : Type ℓ) : Type ℓ where
  ok : A → Result E A
  err : E → Result E A

module _ {ℓ} {E A : Type ℓ} where
  abbrev pub ok_or : Option A → E → Result E A
  ok_or none e = err e
  ok_or (some a) e = ok a

  -- the effect of a call of which the result is dropped, `let _ = f().await`
  abbrev pub is_err : Result E A → Bool
  is_err (ok a) = false
  is_err (err e) = true

  abbrev pub is_ok : Result E A → Bool
  is_ok (ok a) = true
  is_ok (err e) = false

abbrev pub map_err {ℓ} : {E F A : Type ℓ} → (E → F) → Result E A → Result F A
map_err f (ok a) = ok a
map_err f (err e) = err (f e)

infixl 5 ◌>>=◌ ◌>>◌
abbrev pub ◌>>=◌ {ℓ} : {E A B : Type ℓ} → Result E A → (A → Result E B) → Result E B
ok a >>= f = f a
err e >>= f = err e

abbrev pub ◌>>◌ {ℓ} : {E B : Type ℓ} → Result E Unit → Result E B → Result E B
m >> n = m >>= λ _. n

-- `if refused { return Err(e) }`
abbrev pub refuse_if {ℓ} : {E : Type ℓ} → Bool → E → Result E Unit
refuse_if true e = err e
refuse_if false e = ok tt

pub ok_or-some : {E A : Type 0} (o : Option A) (e : E) {a : A} → ok_or o e ≡ ok a → o ≡ some a
ok_or-some none e h = cc
ok_or-some (some a) e h = cc

pub not_refused_if : {E : Type 0} (b : Bool) (e : E) {u : Unit} → refuse_if b e ≡ ok u → b ≡ false
not_refused_if true e h = cc
not_refused_if false e h = refl

-- A test for two failures that found none.
pub both-hold : (a b : Bool) → (not a || not b) ≡ false → (a ≡ true) × (b ≡ true)
both-hold a b h = ground arith

pub not_refused :
    {E : Type 0} (a b : ℕ) (e : E) {u : Unit} → refuse_if (not (a == b)) e ≡ ok u → a ≡ b
not_refused a b e h = ground arith

-- What the success of each kind of step says.
module _ {E A : Type 0} where
  abbrev value_or : A → Result E A → A
  value_or a (ok b) = b
  value_or a (err e) = a

  pub ok-injective : (a b : A) → ◌≡◌ {A = Result E A} (ok a) (ok b) → a ≡ b
  ok-injective a b e = ap (value_or a) e

  abbrev error_or : E → Result E A → E
  error_or e (ok b) = e
  error_or e (err x) = x

  pub err-injective : (a b : E) → ◌≡◌ {A = Result E A} (err a) (err b) → a ≡ b
  err-injective a b e = ap (error_or a) e

  pub passes :
      (b : Bool) (e : E) (m : Result E A) (a : A)
      → (refuse_if b e >> m) ≡ ok a
      → (b ≡ false) × (m ≡ ok a)
  passes true e m a h = cc
  passes false e m a h = (refl, h)

  pub branch :
      (b : Bool) (m n : Result E A) (a : A)
      → (if b then m else n) ≡ ok a
      → ((b ≡ true) × (m ≡ ok a)) ⊎ ((b ≡ false) × (n ≡ ok a))
  branch true m n a h = inl (refl, h)
  branch false m n a h = inr (refl, h)

pub bind-ok :
    {E A B : Type 0} (m : Result E A) (f : A → Result E B) (b : B)
    → (m >>= f) ≡ ok b
    → (a : A) × (m ≡ ok a) × (f a ≡ ok b)
bind-ok (ok a) f b h = (a, refl, h)
bind-ok (err e) f b h = cc
