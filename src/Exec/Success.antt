-- ===== src/Exec/Success.antt =====
-- What a success of effectful code says of its parts: each part has succeeded, in the world that the
-- parts before it have left.
use divine_upload_server.Result.{Result, ok, err, map_err, err-injective}
use divine_upload_server.Prelude.{◌≡◌, refl, ap, ◌⊎◌, inl, inr, Bool, true, false, if◌then◌else◌}
use divine_upload_server.Exec.{Exec, pure, raise, lift, act, call, ◌>>=◌, holding, close, continue}

abbrev pub Succeeds : {W E A : Type 0} → Exec W E A → W → A → Type 0
Succeeds m w a = (m w).0 ≡ ok a

module _ {W E A B : Type 0} where
  continue-ok :
      (r : Result E A) (f : A → Exec W E B) (w : W) (b : B)
      → (continue r f w).0 ≡ ok b
      → (a : A) × (r ≡ ok a) × ((f a w).0 ≡ ok b) × ((continue r f w).1 ≡ (f a w).1)
  continue-ok (ok a) f w b h = (a, refl, h, refl)
  continue-ok (err e) f w b h = cc

  -- The parts of a block that succeeded, and the world that the block leaves.
  pub bind-Succeeds :
      (m : Exec W E A) (f : A → Exec W E B) (w : W) (b : B)
      → Succeeds (m >>= f) w b
      → (a : A) × Succeeds m w a × Succeeds (f a) (m w).1 b × (((m >>= f) w).1 ≡ (f a (m w).1).1)
  unfolding ◌>>=◌
  bind-Succeeds m f w b h = continue-ok (m w).0 f (m w).1 b h

  -- A check that let the block go on.
  pub lift-Succeeds :
      (r : Result E A) (f : A → Exec W E B) (w : W) (b : B)
      → Succeeds (lift r >>= f) w b
      → (a : A) × (r ≡ ok a) × Succeeds (f a) w b × (((lift r >>= f) w).1 ≡ (f a w).1)
  unfolding ◌>>=◌
  lift-Succeeds r f w b h = continue-ok r f w b h

module _ {W E A : Type 0} where
  pub pure-Succeeds : (a : A) (w : W) (b : A) → Succeeds {E = E} (pure a) w b → a ≡ b
  unfolding pure
  pure-Succeeds a w b h = cc

  pub last-Succeeds : (r : Result E A) (w : W) (b : A) → Succeeds (lift r) w b → r ≡ ok b
  unfolding lift
  last-Succeeds r w b h = h

  pub lift_world : (r : Result E A) (w : W) → (lift r w).1 ≡ w
  unfolding lift
  lift_world r w = refl

  pub act-Succeeds : (f : W → A × W) (w : W) (b : A) → Succeeds {E = E} (act f) w b → (f w).0 ≡ b
  unfolding act
  act-Succeeds f w b h = cc

  pub raise-Succeeds : {X : Type 0} (e : E) (w : W) (b : A) → Succeeds (raise e) w b → X
  unfolding raise
  raise-Succeeds e w b h = cc

pub map_err-ok :
    {E F A : Type 0} (g : F → E) (r : Result F A) (a : A) → map_err g r ≡ ok a → r ≡ ok a
map_err-ok g (ok b) a h = cc
map_err-ok g (err e) a h = cc

module _ {W E F A : Type 0} where
  pub call_world : (g : F → E) (m : Exec W F A) (w : W) → (call g m w).1 ≡ (m w).1
  unfolding call
  call_world g m w = refl

  pub call-Succeeds :
      (g : F → E) (m : Exec W F A) (w : W) (a : A) → Succeeds (call g m) w a → Succeeds m w a
  unfolding call
  call-Succeeds g m w a h = map_err-ok g (m w).0 a h

module _ {W E A : Type 0} where
  -- The body of a guarded block succeeded under the guard, and then the guard was dropped.
  pub holding-Succeeds :
      (acquire : Exec W E Unit) (release : W → W) (body : Exec W E A) (w : W) (a : A)
      → Succeeds (holding acquire release body) w a
      → Succeeds body (acquire w).1 a
        × ((holding acquire release body w).1 ≡ release (body (acquire w).1).1)
  unfolding holding close
  holding-Succeeds acquire release body w a h =
      let parts = bind-Succeeds acquire _ w a h in (parts.2, parts.3)

module _ {W A : Type 0} (E : Type 0) where
  pub pure_world : (a : A) (w : W) → (pure {E = E} a w).1 ≡ w
  unfolding pure
  pure_world a w = refl

module _ {W E A : Type 0} where
  -- A test that chose the first of two, because the second fails.
  pub taken :
      (b : Bool) (m n : Exec W E A) (w : W) (a : A)
      → Succeeds (if b then m else n) w a
      → ((b ≡ true) × Succeeds m w a) ⊎ ((b ≡ false) × Succeeds n w a)
  taken true m n w a h = inl (refl, h)
  taken false m n w a h = inr (refl, h)

  pub if_world :
      (b c : Bool) (m n : Exec W E A) (w : W)
      → b ≡ c
      → ((if b then m else n) w).1 ≡ ((if c then m else n) w).1
  if_world b c m n w e = ap (λ d. ((if d then m else n) w).1) e

module _ {W E A B : Type 0} where
  continued_world :
      (g : A → Result E B) (r : Result E A) (w : W) → (continue r (λ a. lift (g a)) w).1 ≡ w
  unfolding lift
  continued_world g (ok a) w = refl
  continued_world g (err e) w = refl

  -- A check at the end leaves the world as it was.
  pub lifted_world :
      (m : Exec W E A) (g : A → Result E B) (w : W) → ((m >>= λ a. lift (g a)) w).1 ≡ (m w).1
  unfolding ◌>>=◌
  lifted_world m g w = continued_world g (m w).0 (m w).1

  -- A check at the start leaves it too, if it fails.
  pub checked_world :
      (r : Result E A) (f : A → Exec W E B) (w : W)
      → (((lift r >>= f) w).1 ≡ w) ⊎ ((a : A) × (((lift r >>= f) w).1 ≡ (f a w).1))
  unfolding ◌>>=◌ lift
  checked_world (ok a) f w = inr (a, refl)
  checked_world (err e) f w = inl refl

module _ {W E A B : Type 0} where
  continue-err :
      (r : Result E A) (f : A → Exec W E B) (w : W) (e : E)
      → (continue r f w).0 ≡ err e
      → (r ≡ err e) ⊎ ((a : A) × ((f a w).0 ≡ err e))
  continue-err (ok a) f w e h = inr (a, h)
  continue-err (err x) f w e h = inl (ap err (err-injective x e h))

  -- An error of a block is one of its parts'.
  pub bind-err :
      (m : Exec W E A) (f : A → Exec W E B) (w : W) (e : E)
      → ((m >>= f) w).0 ≡ err e
      → ((m w).0 ≡ err e) ⊎ ((a : A) × ((f a (m w).1).0 ≡ err e))
  unfolding ◌>>=◌
  bind-err m f w e h = continue-err (m w).0 f (m w).1 e h

-- Code that ends with an error, in a world.
abbrev pub Halts : {W E A : Type 0} → Exec W E A → W → W → Type 0
Halts {E = E} m w v = ((m w).1 ≡ v) × ((e : E) × ((m w).0 ≡ err e))

module _ {W E A B : Type 0} where
  continue-Halts :
      (r : Result E A) (f : A → Exec W E B) (w : W)
      → ((a : A) → r ≡ ok a → Halts (f a) w w)
      → Halts (continue r f) w w
  continue-Halts (ok a) f w h = h a refl
  continue-Halts (err e) f w h = (refl, (e, refl))

  -- A block that has no part with an effect after its first.
  pub bind-Halts :
      (m : Exec W E A) (f : A → Exec W E B) (w : W)
      → ((a : A) → Succeeds m w a → Halts (f a) (m w).1 (m w).1)
      → Halts (m >>= f) w (m w).1
  unfolding ◌>>=◌
  bind-Halts m f w h = continue-Halts (m w).0 f (m w).1 h

  pub lift-Halts : (e : E) (f : A → Exec W E B) (w : W) → Halts (lift (err e) >>= f) w w
  unfolding ◌>>=◌ lift
  lift-Halts e f w = (refl, (e, refl))

  pub passed-Halts :
      (a : A) (f : A → Exec W E B) (w v : W) → Halts (f a) w v → Halts (lift (ok a) >>= f) w v
  unfolding ◌>>=◌ lift
  passed-Halts a f w v h = h
