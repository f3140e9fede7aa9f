-- ===== src/Exec.antt =====
-- Code that changes the world and may fail: `async fn … -> Result<A, E>` run to its end. What was
-- done before an error stays done, so the world comes back beside the error too.
pub mod Meets
pub mod Success
use divine_upload_server.Result.{Result, ok, err, map_err}

abbrev pub Exec : Type 0 → Type 0 → Type 0 → Type 0
Exec W E A = W → Result E A × W

module _ {W E A : Type 0} where
  unfoldable pub pure : A → Exec W E A
  pure a w = (ok a, w)

  pub raise : E → Exec W E A
  raise e w = (err e, w)

  -- A result that is at hand.
  unfoldable pub lift : Result E A → Exec W E A
  lift r w = (r, w)

  -- A call that cannot fail.
  unfoldable pub act : (W → A × W) → Exec W E A
  act f w = let (a, w') = f w in (ok a, w')

  -- `let _ = f().await`, and calls of which no result is used
  pub ignore : Exec W E A → W → W
  ignore m w = (m w).1

module _ {W E : Type 0} where
  pub effect : (W → W) → Exec W E Unit
  effect f w = (ok tt, f w)

module _ {W E F A : Type 0} where
  -- `f().await.map_err(g)?`
  unfoldable pub call : (F → E) → Exec W F A → Exec W E A
  call g m w = let (r, w') = m w in (map_err g r, w')

module _ {W E A B : Type 0} where
  abbrev continue : Result E A → (A → Exec W E B) → Exec W E B
  continue (ok a) f w = f a w
  continue (err e) f w = (err e, w)

  infixl 5 ◌>>=◌ ◌>>◌
  unfoldable pub ◌>>=◌ : Exec W E A → (A → Exec W E B) → Exec W E B
  unfolding pure raise lift act ignore effect call
  ◌>>=◌ m f w = let (r, w') = m w in continue r f w'

  abbrev pub ◌>>◌ : Exec W E A → Exec W E B → Exec W E B
  m >> n = m >>= λ _. n

module _ {W E A : Type 0} where
  close : (W → W) → Result E A × W → Result E A × W
  close release (r, w) = (r, release w)

  -- A guard that is taken, held over the body and dropped when the body returns, also by an error.
  unfoldable pub holding : Exec W E Unit → (W → W) → Exec W E A → Exec W E A
  unfolding ◌>>=◌ close
  holding acquire release body = acquire >>= λ _ w. close release (body w)
