-- ===== src/Resumable/Invariant/Progress.antt =====
-- How a stored session may change while clients upload, complete and abort.
use divine_upload_server.Prelude.{
  ℕ, ◌≤◌, ◌<◌, ◌≡◌, refl, sym, ap, subst, ◌∙◌, ◌⊎◌, inl, inr, Bool, Option, none, some, arith, List,
  [], ◌∷◌, All,
}
use divine_upload_server.Exec.Meets.{Meets-ignore}
use divine_upload_server.Text.{Text}
use divine_upload_server.Resumable.Data.{UploadSession, ContentRange}
use divine_upload_server.Resumable.Traits.{Host}
use divine_upload_server.Resumable.Sessions.{ResumableManager}
use divine_upload_server.Resumable.Completion.{finalized}
use divine_upload_server.Resumable.Contract.{Sessions, Contract}
use divine_upload_server.Resumable.Keeps.{
  Rules, advanced, head_keeps, chunk_keeps, complete_keeps, abort_keeps,
}
use divine_upload_server.Resumable.Invariant.{
  Request, init, head, abort, chunk, complete, serve, run, IsSound, AllSound, IsSound-rules,
}

-- The same upload, by the same client on the same terms, with no committed byte given back and a
-- finalized object never changed.
pub record Later (s t : UploadSession) : Type 0 where
  pub upload_id : t.upload_id ≡ s.upload_id
  pub owner : t.owner ≡ s.owner
  pub final_sha256 : t.final_sha256 ≡ s.final_sha256
  pub declared_size : t.declared_size ≡ s.declared_size
  pub content_type : t.content_type ≡ s.content_type
  pub file_name : t.file_name ≡ s.file_name
  pub expires : t.expires_at_epoch_secs ≡ s.expires_at_epoch_secs
  pub session_url : t.session_url ≡ s.session_url
  pub session_token : t.session_token ≡ s.session_token
  pub temp_object : t.temp_object ≡ s.temp_object
  pub chunk_size : t.chunk_size ≡ s.chunk_size
  pub offset : s.next_offset ≤ t.next_offset
  pub object : (s.finalized_object ≡ none) ⊎ (t.finalized_object ≡ s.finalized_object)

-- A session that is not there does not appear; one that is there is deleted or moves on.
abbrev pub Extends : Option UploadSession → Option UploadSession → Type 0
Extends none o = o ≡ none
Extends (some s) none = Unit
Extends (some s) (some t) = Later s t

-- `init_session` makes sessions; the other requests work on those that are there.
abbrev pub IsNotInit : Request → Type 0
IsNotInit (init owner request) = ⊥
IsNotInit _ = Unit

Later-advanced :
    (a s : UploadSession) (r : ContentRange) (b : Bool)
    → IsSound s
    → r.start ≡ s.next_offset
    → r.start ≤ r.end
    → r.end < s.declared_size
    → Later a s
    → Later a (advanced s r b)
Later-advanced a s r b g start order inside l = ground arith

Later-finalized : (a s : UploadSession) → IsSound s → Later a s → Later a (finalized s)
unfolding finalized
Later-finalized a s g l = ground arith

Later-revised : (a s : UploadSession) (n : ℕ) → Later a s → Later a (record s { revision = n })
Later-revised a s n l = ground arith

Extends-map :
    (base : Option UploadSession) (s t : UploadSession)
    → ((a : UploadSession) → Later a s → Later a t)
    → Extends base (some s)
    → Extends base (some t)
Extends-map none s t f e = cc
Extends-map (some a) s t f e = f a e

Extends-none : (base : Option UploadSession) → Extends base none
Extends-none none = refl
Extends-none (some a) = tt

Extends-refl : (base : Option UploadSession) → Extends base base
Extends-refl none = refl
Extends-refl (some a) = ground arith

module _ {W : Type 0} (m : ResumableManager W) (host : Host W) (at : Sessions W)
    (c : Contract m host at) (j : Text) (base : Option UploadSession) where
  abbrev Moves : W → Type 0
  Moves w = AllSound at w × Extends base (at w j)

  abbrev GoodMove : UploadSession → Type 0
  GoodMove s = IsSound s × (s.upload_id ≡ j → Extends base (some s))

  Moves-rules : Rules m at Moves GoodMove
  unfolding finalized
  Moves-rules =
      let sound = IsSound-rules m host at c in
      record {
        stable =
            λ w w' same p. (sound.stable w w' same p.0, subst (Extends base) (sym (same j)) p.1);
        stored = λ w id s p e. (
          p.0 id s e,
          λ named.
              subst (Extends base) (ap (at w) (sym (sym (c.store.keyed w id s e) ∙ named)) ∙ e) p.1,
        );
        saved = λ s g w p. (
          sound.saved s g.0 w p.0,
          elim (c.store.save_effect s w j) [
            | inl same ↦ subst (Extends base) (sym same) p.1
            | inr both ↦
                subst (Extends base) (sym both.1.1)
                  (Extends-map base s _ (λ a. Later-revised a s both.1.0) (g.1 (sym both.0)))
          ],
        );
        removed = λ gone w p. (
          sound.removed gone w p.0,
          elim (c.store.delete_effect gone w j) [
            | inl same ↦ subst (Extends base) (sym same) p.1
            | inr both ↦ subst (Extends base) (sym both.1) (Extends-none base)
          ],
        );
        chunk = λ s r b g start order inside. (
          sound.chunk s r b g.0 start order inside,
          λ named.
              Extends-map base s _ (λ a. Later-advanced a s r b g.0 start order inside) (g.1 named),
        );
        done = λ s g whole. (
          sound.done s g.0 whole,
          λ named. Extends-map base s _ (λ a. Later-finalized a s g.0) (g.1 named),
        );
      }

  serve-Moves : (r : Request) (w : W) → IsNotInit r → Moves w → Moves (serve m host r w)
  unfolding serve
  serve-Moves (init owner request) w n p = absurd n
  serve-Moves (head id auth) w n p =
      Meets-ignore _ (head_keeps m host at c _ _ Moves-rules id auth) w p
  serve-Moves (chunk id auth header body) w n p =
      Meets-ignore _ (chunk_keeps m host at c _ _ Moves-rules id auth header body) w p
  serve-Moves (complete id owner) w n p =
      Meets-ignore _ (complete_keeps m host at c _ _ Moves-rules id owner) w p
  serve-Moves (abort id auth) w n p =
      Meets-ignore _ (abort_keeps m host at c _ _ Moves-rules id auth) w p

  run-Moves : (rs : List Request) (w : W) → All IsNotInit rs → Moves w → Moves (run m host rs w)
  unfolding run
  run-Moves [] w ns p = p
  run-Moves (r ∷ rs) w (n, ns) p = run-Moves rs (serve m host r w) ns (serve-Moves r w n p)

-- Whatever is uploaded, completed, aborted or asked, by anybody and with any failures: a session
-- that is still stored has kept its terms and its token, has lost no committed byte, and names the
-- same object if it was finalized; and no session has appeared.
pub run-Extends :
    {W : Type 0} (m : ResumableManager W) (host : Host W) (at : Sessions W) (c : Contract m host at)
    (id : Text) (rs : List Request) (w : W)
    → All IsNotInit rs
    → AllSound at w
    → Extends (at w id) (at (run m host rs w) id)
run-Extends m host at c id rs w ns all =
    (run-Moves m host at c id (at w id) rs w ns (all, Extends-refl (at w id))).1
