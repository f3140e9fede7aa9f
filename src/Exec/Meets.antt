-- ===== src/Exec/Meets.antt =====
-- Invariants and results of effectful code, one rule for each way to build it.
use divine_upload_server.Result.{Result, ok, err, map_err}
use divine_upload_server.Prelude.{◌≡◌, refl, Bool, true, false, if◌then◌else◌}
use divine_upload_server.Exec.{
  Exec, pure, raise, lift, act, ignore, effect, call, ◌>>=◌, holding, close, continue,
}

abbrev pub Holds : {E A : Type 0} → (A → Type 0) → Result E A → Type 0
Holds Q (ok a) = Q a
Holds Q (err e) = Unit

pub Holds-of :
    {E A : Type 0} (Q : A → Type 0) (r : Result E A) → ((a : A) → r ≡ ok a → Q a) → Holds Q r
Holds-of Q (ok a) h = h a refl
Holds-of Q (err e) h = tt

-- `m` keeps `P`, whether it returns or fails, and what it returns meets `Q`.
pub record Meets {W E A : Type 0} (P : W → Type 0) (Q : A → Type 0) (m : Exec W E A) : Type 0 where
  pub at : (w : W) → P w → P (m w).1 × Holds Q (m w).0

module _ {W E A : Type 0} {P : W → Type 0} {Q : A → Type 0} where
  pub Meets-pure : (a : A) → Q a → Meets {E = E} P Q (pure a)
  unfolding pure
  Meets-pure a q = record { at = λ w h. (h, q) }

  pub Meets-raise : (e : E) → Meets P Q (raise {A = A} e)
  unfolding raise
  Meets-raise e = record { at = λ w h. (h, tt) }

  pub Meets-lift : (r : Result E A) → Holds Q r → Meets P Q (lift r)
  unfolding lift
  Meets-lift r q = record { at = λ w h. (h, q) }

  pub Meets-act :
      (f : W → A × W) → ((w : W) → P w → P (f w).1 × Q (f w).0) → Meets {E = E} P Q (act f)
  unfolding act
  Meets-act f h = record { at = h }

  pub Meets-if :
      (b : Bool) {m n : Exec W E A}
      → (b ≡ true → Meets P Q m)
      → (b ≡ false → Meets P Q n)
      → Meets P Q (if b then m else n)
  Meets-if true hm hn = hm refl
  Meets-if false hm hn = hn refl

module _ {W E : Type 0} {P : W → Type 0} where
  pub Meets-effect :
      (f : W → W) → ((w : W) → P w → P (f w)) → Meets {E = E} P (λ (_ : Unit). Unit) (effect f)
  unfolding effect
  Meets-effect f h = record { at = λ w p. (h w p, tt) }

map_err-Holds :
    {E F A : Type 0} (Q : A → Type 0) (g : F → E) (r : Result F A)
    → Holds Q r
    → Holds Q (map_err g r)
map_err-Holds Q g (ok a) q = q
map_err-Holds Q g (err e) q = tt

module _ {W E A : Type 0} {P : W → Type 0} {Q : A → Type 0} where
  pub Meets-ignore : (m : Exec W E A) → Meets P Q m → (w : W) → P w → P (ignore m w)
  unfolding ignore
  Meets-ignore m h w p = (h.at w p).0

module _ {W E F A : Type 0} {P : W → Type 0} {Q : A → Type 0} where
  pub Meets-call : (g : F → E) {m : Exec W F A} → Meets P Q m → Meets P Q (call g m)
  unfolding call
  Meets-call g {m} h = record { at = λ w p. ((h.at w p).0, map_err-Holds Q g (m w).0 (h.at w p).1) }

module _ {W E A B : Type 0} {P : W → Type 0} {Q : A → Type 0} {R : B → Type 0} where
  continue-Meets :
      (f : A → Exec W E B) (r : Result E A) (w : W)
      → ((a : A) → Q a → Meets P R (f a))
      → P w
      → Holds Q r
      → P (continue r f w).1 × Holds R (continue r f w).0
  continue-Meets f (ok a) w hf p q = (hf a q).at w p
  continue-Meets f (err e) w hf p q = (p, tt)

  pub Meets-bind :
      {m : Exec W E A} {f : A → Exec W E B}
      → Meets P Q m
      → ((a : A) → Q a → Meets P R (f a))
      → Meets P R (m >>= f)
  unfolding ◌>>=◌
  Meets-bind {m} {f} hm hf = record {
    at = λ w p. let (r, w') = m w in let both = hm.at w p in continue-Meets f r w' hf both.0 both.1;
  }

module _ {W E A B : Type 0} {P : W → Type 0} {Q : B → Type 0} {f : A → Exec W E B} where
  -- A check that returns early with an error; what follows may use that it did not.
  pub Meets-checked :
      (r : Result E A) → ((a : A) → r ≡ ok a → Meets P Q (f a)) → Meets P Q (lift r >>= f)
  Meets-checked r h = Meets-bind (Meets-lift r (Holds-of (λ a. r ≡ ok a) r (λ a e. e))) h

module _ {W E A : Type 0} (P : W → Type 0) (Q : A → Type 0) where
  close-Meets :
      (release : W → W) (o : Result E A × W)
      → ((w : W) → P w → P (release w))
      → P o.1 × Holds Q o.0
      → P (close release o).1 × Holds Q (close release o).0
  unfolding close
  close-Meets release (r, w) hr (p, q) = (hr w p, q)

module _ {W E A : Type 0} {P : W → Type 0} {Q : A → Type 0} where
  pub Meets-holding :
      {acquire : Exec W E Unit} {release : W → W} {body : Exec W E A}
      → Meets P (λ _. Unit) acquire
      → ((w : W) → P w → P (release w))
      → Meets P Q body
      → Meets P Q (holding acquire release body)
  unfolding holding
  Meets-holding {release} {body} ha hr hb =
      Meets-bind ha λ _ _. record { at = λ w p. close-Meets P Q release (body w) hr (hb.at w p) }

pub ruleset meets_rules =
    (Meets-pure, Meets-raise, Meets-lift, Meets-act, Meets-effect, Meets-call, Meets-if, Meets-bind)
