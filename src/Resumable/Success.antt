-- ===== src/Resumable/Success.antt =====
-- What the client may conclude from a success of `upload_chunk` or `complete_session`.
pub mod Chunk
pub mod Complete
use divine_upload_server.Exec.Success.{taken, if_world}
use divine_upload_server.Prelude.{
  ℕ, ◌+◌, ◌-◌, ◌*◌, ◌%◌, ◌≤◌, ◌<◌, ◌≡◌, ◌≢◌, refl, sym, ap, subst, ◌∙◌, ◌⊎◌, inl, inr, Bool, true,
  false, not, Option, none, some, arith, List, length, ◌==◌, ==_iff, leb, ltb, Bool-cases,
  if◌then◌else◌, ◌&&◌,
}
use divine_upload_server.Result.{Result, ok, err, ok_or, refuse_if, ok_or-some, not_refused}
use divine_upload_server.Exec.{Exec, pure, raise, lift, act, effect, call, ◌>>=◌, holding}
use divine_upload_server.Exec.Success.{
  Succeeds, bind-Succeeds, lift-Succeeds, pure-Succeeds, call_world, act-Succeeds, raise-Succeeds,
  last-Succeeds, call-Succeeds, holding-Succeeds,
}
use divine_upload_server.Text.{Text, str_eq}
use divine_upload_server.Text.Laws.{str_eq_iff}
use divine_upload_server.Text.Decimal.{max_u64}
use divine_upload_server.Resumable.Data.{
  UploadSession, UploadSessionStatus, ContentRange, len, u64_mod, ResumableError,
}
use divine_upload_server.Resumable.Range.{
  parse_content_range, parse_content_range_within, parse_content_range-len,
}
use divine_upload_server.Resumable.Traits.{Host, Failure, Bytes, internal_error}
use divine_upload_server.Resumable.Sessions.{
  ResumableManager, locked, expired, find_session, check_token, authorize_session, is_some, service,
  session_status, parse_bearer_token,
}
use divine_upload_server.Resumable.Manager.{retry_chunk, commit_chunk, upload_chunk}
use divine_upload_server.Resumable.Contract.{Sessions, Contract}
use divine_upload_server.Resumable.Invariant.{IsSound}

module _ {W : Type 0} (m : ResumableManager W) (host : Host W) (at : Sessions W)
    (c : Contract m host at) where
  pub find-Succeeds :
      (id : Text) (w : W) (s : UploadSession)
      → Succeeds (find_session m host id) w s
      → at w id ≡ some s
  unfolding find_session
  find-Succeeds id w s h =
      let parts = bind-Succeeds (service (m.store.load id)) _ w s h in
      let read =
        c.store.load_reads id w parts.0 (call-Succeeds internal_error _ w parts.0 parts.1) in
      read ∙ ok_or-some parts.0 _ (last-Succeeds _ _ s parts.2)

  expired-fails :
      {A X : Type 0} (s : UploadSession) (w : W) (a : A) → Succeeds (expired m host s) w a → X
  unfolding expired
  expired-fails s w a h = let parts = bind-Succeeds _ _ w a h in raise-Succeeds _ _ a parts.2

  token-Succeeds :
      (s t : UploadSession) (auth : Option Text) (w : W)
      → Succeeds (check_token m host s auth) w t
      → (s ≡ t) × (parse_bearer_token auth ≡ some s.session_token)
  unfolding check_token
  token-Succeeds s t auth w h =
      let parts = lift-Succeeds _ _ w t h in
      elim (taken (str_eq parts.0 s.session_token) _ _ w t parts.2) [
        | inl (same, done) ↦
            (pure-Succeeds s w t done, ok_or-some _ _ parts.1 ∙ ap some ((str_eq_iff _ _).0 same))
        | inr (_, failed) ↦ raise-Succeeds _ w t failed
      ]

  -- The session that a client is authorized for is the stored one, the client has its token, and it
  -- has not expired at the time that is read.
  pub authorize-Succeeds :
      (id : Text) (auth : Option Text) (w : W) (s : UploadSession)
      → Succeeds (authorize_session m host id auth) w s
      → (at w id ≡ some s)
        × (parse_bearer_token auth ≡ some s.session_token)
        × ((v : W) × ((host.now_epoch_secs v).0 < s.expires_at_epoch_secs))
  unfolding authorize_session
  authorize-Succeeds id auth w s h =
      let (found, found_ok, rest, _) = bind-Succeeds (find_session m host id) _ w s h in
      let v = (find_session m host id w).1 in
      let (now, now_ok, rest', _) = bind-Succeeds (act host.now_epoch_secs) _ v s rest in
      elim (taken (leb found.expires_at_epoch_secs now) _ _ _ s rest') [
        | inl (_, late) ↦ expired-fails found _ s late
        | inr (live, checked) ↦
            let (same, token) = token-Succeeds found s auth _ checked in
            subst
              (λ t.
                (at w id ≡ some t)
                × (parse_bearer_token auth ≡ some t.session_token)
                × ((u : W) × ((host.now_epoch_secs u).0 < t.expires_at_epoch_secs)))
              same
              (
                find-Succeeds id w found found_ok,
                token,
                (v, ground (arith, act-Succeeds host.now_epoch_secs v now now_ok)),
              )
      ]

  -- A call under the session lock succeeds when its body does, over the same stored sessions.
  pub locked-Succeeds :
      {A : Type 0} (id : Text) (body : Exec W ResumableError A) (w : W) (a : A)
      → Succeeds (locked m host id body) w a
      → Succeeds body (m.store.lock id w).1 a
        × (at (m.store.lock id w).1 id ≡ at w id)
        × (at (locked m host id body w).1 id ≡ at (body (m.store.lock id w).1).1 id)
  unfolding locked
  locked-Succeeds id body w a h =
      let entered = call_world internal_error (m.store.lock id) w in
      let parts = holding-Succeeds _ (m.store.unlock id) body w a h in
      (
        subst (λ v. Succeeds body v a) entered parts.0,
        c.store.lock_quiet id w id,
        ap (λ v. at v id) parts.1
            ∙ c.store.unlock_quiet id _ id
            ∙ ap (λ v. at (body v).1 id) entered,
      )
