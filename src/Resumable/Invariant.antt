-- ===== src/Resumable/Invariant.antt =====
-- What holds of every stored session, whatever requests are served and whatever calls fail.
pub mod Progress
use divine_upload_server.Prelude.{
  ℕ, ◌+◌, ◌%◌, ◌≤◌, ◌<◌, ◌≡◌, ◌≢◌, refl, sym, ap, subst, ◌∙◌, ◌⊎◌, inl, inr, Bool, true, false,
  Option, none, some, arith, List, [], ◌∷◌, All,
}
use mathlib.Core.Option.{some-injective}
use divine_upload_server.Exec.{Exec, ignore}
use divine_upload_server.Exec.Meets.{Meets, Meets-ignore}
use divine_upload_server.Text.{Text}
use divine_upload_server.Text.Decimal.{max_u64}
use divine_upload_server.Resumable.Data.{UploadSession, ResumableUploadInitRequest, ContentRange}
use divine_upload_server.Resumable.Traits.{Host, Bytes}
use divine_upload_server.Resumable.Sessions.{ResumableManager}
use divine_upload_server.Resumable.Manager.{init_session, head_session, upload_chunk}
use divine_upload_server.Resumable.Completion.{finalized, complete_session, abort_session}
use divine_upload_server.Resumable.Contract.{Sessions, Contract, StoreLaws}
use divine_upload_server.Resumable.Keeps.{
  Rules, advanced, init_keeps, head_keeps, chunk_keeps, complete_keeps, abort_keeps,
}

pub data Request : Type 0 where
  init : Text → ResumableUploadInitRequest → Request
  head abort : Text → Option Text → Request
  chunk : Text → Option Text → Text → Bytes → Request
  complete : Text → Text → Request

module _ {W : Type 0} (m : ResumableManager W) (host : Host W) where
  -- The world after a request, answered or refused.
  pub serve : Request → W → W
  serve (init owner request) = ignore (init_session m host owner request)
  serve (head id auth) = ignore (head_session m host id auth)
  serve (chunk id auth header body) = ignore (upload_chunk m host id auth header body)
  serve (complete id owner) = ignore (complete_session m host id owner)
  serve (abort id auth) = ignore (abort_session m host id auth)

  pub run : List Request → W → W
  run [] w = w
  run (r ∷ rs) w = run rs (serve r w)

-- The size that a request declares is a `u64`.
abbrev pub Fits : Request → Type 0
Fits (init owner request) = request.size ≤ max_u64
Fits _ = Unit

-- The committed bytes lie within the declared size, which is positive; a finalized session has all
-- its bytes, is complete in storage and names the hash that it was declared with.
pub record IsSound (s : UploadSession) : Type 0 where
  pub positive : 0 < s.declared_size
  pub fits : s.declared_size ≤ max_u64
  pub within : s.next_offset ≤ s.declared_size
  pub whole :
      (s.finalized_object ≡ none)
      ⊎ ((s.finalized_object ≡ some s.final_sha256)
          × (s.next_offset ≡ s.declared_size)
          × (s.storage_complete ≡ true))

abbrev pub AllSound : {W : Type 0} → Sessions W → W → Type 0
AllSound at w = (id : Text) (s : UploadSession) → at w id ≡ some s → IsSound s

advanced-IsSound :
    (s : UploadSession) (r : ContentRange) (b : Bool)
    → IsSound s
    → r.start ≡ s.next_offset
    → r.start ≤ r.end
    → r.end < s.declared_size
    → IsSound (advanced s r b)
advanced-IsSound s r b g start order inside = ground arith

finalized-IsSound :
    (s : UploadSession) → IsSound s → s.next_offset ≡ s.declared_size → IsSound (finalized s)
unfolding finalized
finalized-IsSound s g e = ground arith

new-IsSound :
    (s : UploadSession)
    → 0 < s.declared_size
    → s.declared_size ≤ max_u64
    → s.next_offset ≡ 0
    → s.finalized_object ≡ none
    → IsSound s
new-IsSound s p fits zero_offset unfinalized = ground arith

revised-IsSound :
    (s t : UploadSession) (r : ℕ)
    → IsSound s
    → some (record s { revision = r }) ≡ some t
    → IsSound t
revised-IsSound s t r g e =
    subst IsSound (some-injective _ _ e)
      (record { positive = g.positive; fits = g.fits; within = g.within; whole = g.whole })

module _ {W : Type 0} (m : ResumableManager W) (host : Host W) (at : Sessions W)
    (c : Contract m host at) where
  saved-AllSound :
      (s : UploadSession) → IsSound s → (w : W) → AllSound at w → AllSound at (m.store.save s w).1
  saved-AllSound s g w all id t e = elim (c.store.save_effect s w id) [
    | inl same ↦ all id t (sym same ∙ e)
    | inr both ↦ revised-IsSound s t both.1.0 g (sym both.1.1 ∙ e)
  ]

  removed-AllSound : (gone : Text) (w : W) → AllSound at w → AllSound at (m.store.delete gone w).1
  removed-AllSound gone w all id t e = elim (c.store.delete_effect gone w id) [
    | inl same ↦ all id t (sym same ∙ e)
    | inr both ↦ cc (sym both.1 ∙ e)
  ]

  IsSound-rules : Rules m at (AllSound at) IsSound
  IsSound-rules = record {
    stable = λ w w' same all id s e. all id s (sym (same id) ∙ e);
    stored = λ w id s all e. all id s e;
    saved = saved-AllSound;
    removed = removed-AllSound;
    chunk = advanced-IsSound;
    done = finalized-IsSound;
  }

  serve-AllSound : (r : Request) (w : W) → Fits r → AllSound at w → AllSound at (serve m host r w)
  unfolding serve
  serve-AllSound (init owner request) w fits all =
      Meets-ignore _
        (init_keeps m host at c _ _ IsSound-rules owner request (λ s p size zero_offset unfinalized.
          new-IsSound s p (rw size fits) zero_offset unfinalized))
        w all
  serve-AllSound (head id auth) w fits all =
      Meets-ignore _ (head_keeps m host at c _ _ IsSound-rules id auth) w all
  serve-AllSound (chunk id auth header body) w fits all =
      Meets-ignore _ (chunk_keeps m host at c _ _ IsSound-rules id auth header body) w all
  serve-AllSound (complete id owner) w fits all =
      Meets-ignore _ (complete_keeps m host at c _ _ IsSound-rules id owner) w all
  serve-AllSound (abort id auth) w fits all =
      Meets-ignore _ (abort_keeps m host at c _ _ IsSound-rules id auth) w all

  -- Where the sizes that init requests declare are 64-bit: whatever requests are served, and whatever
  -- calls of the store, the backend and the outbox fail, every stored session stays sound.
  pub run-AllSound :
      (rs : List Request) (w : W) → All Fits rs → AllSound at w → AllSound at (run m host rs w)
  unfolding run
  run-AllSound [] w fits all = all
  run-AllSound (r ∷ rs) w (f, fits) all =
      run-AllSound rs (serve m host r w) fits (serve-AllSound r w f all)
