-- ===== src/Resumable/Success/Chunk.antt =====
-- What an accepted chunk means.
use divine_upload_server.Prelude.{
  ℕ, ◌+◌, ◌-◌, ◌*◌, ◌%◌, ◌≤◌, ◌<◌, ◌≡◌, sym, ap, subst, ◌∙◌, ◌⊎◌, inl, inr, Bool, true, false, not,
  Option, none, some, arith, length, ◌==◌, ==_iff, ltb, ltb→lt, if◌then◌else◌, ◌&&◌,
}
use mathlib.Core.Option.{some-injective}
use divine_upload_server.Result.{ok, refuse_if, not_refused}
use divine_upload_server.Exec.{pure, ◌>>◌}
use divine_upload_server.Exec.Success.{
  Succeeds, bind-Succeeds, lift-Succeeds, pure-Succeeds, pure_world, call_world, raise-Succeeds,
  call-Succeeds,
}
use divine_upload_server.Text.{Text}
use divine_upload_server.Text.Decimal.{max_u64}
use divine_upload_server.Resumable.Data.{
  UploadSession, UploadSessionStatus, ContentRange, len, u64_mod, ResumableError,
}
use divine_upload_server.Resumable.Range.{
  parse_content_range, parse_content_range_within, parse_content_range-len,
}
use divine_upload_server.Resumable.Traits.{Host, Bytes, internal_error}
use divine_upload_server.Resumable.Sessions.{
  ResumableManager, authorize_session, is_some, service, session_status, parse_bearer_token,
}
use divine_upload_server.Resumable.Manager.{retry_chunk, send_chunk, commit_chunk, upload_chunk}
use divine_upload_server.Resumable.Contract.{Sessions, Contract}
use divine_upload_server.Resumable.Invariant.{IsSound}
use divine_upload_server.Resumable.Success.{locked-Succeeds, authorize-Succeeds}
use divine_upload_server.Exec.Success.{taken, if_world}

-- The chunk continued the upload: its bytes are the ones that were due, all that the range
-- announced, a multiple of 256 KiB unless they were the last, and the stored session counts them.
-- `after` is what is then stored under the identifier.
pub record Committed (s : UploadSession) (r : ContentRange) (chunk : Bytes)
    (st : UploadSessionStatus) (after : Option UploadSession) : Type 0 where
  pub due : r.start ≡ s.next_offset
  pub whole_body : length chunk ≡ r.end - r.start + 1
  pub aligned : (st.next_offset ≡ s.declared_size) ⊎ (length chunk % (256 * 1024) ≡ 0)
  pub advanced : st.next_offset ≡ s.next_offset + length chunk
  pub recorded :
      (b : Bool) × (n : ℕ) × (after
        ≡ some (record s { revision = n; next_offset = st.next_offset; storage_complete = b }))

-- The chunk had been committed before, as the backend confirmed: nothing advances.
pub record Repeated {W : Type 0} (m : ResumableManager W) (s : UploadSession) (r : ContentRange)
    (chunk : Bytes) (st : UploadSessionStatus) : Type 0 where
  pub earlier : r.end < s.next_offset
  pub unmoved : st.next_offset ≡ s.next_offset
  pub confirmed : (v : W) × Succeeds (m.backend.is_committed_retry s r chunk) v true

aligned_offset :
    (r : ContentRange) (size : ℕ) (e : ResumableError) (u : Unit)
    → refuse_if (not ((r.end + 1) % u64_mod == size) && not (len r % (256 * 1024) == 0)) e ≡ ok u
    → ((r.end + 1) % u64_mod ≡ size) ⊎ (len r % (256 * 1024) ≡ 0)
aligned_offset r size e u h = ground arith

-- What the success of an upload request says: the token was the session's and the clock was read
-- before its expiry, it was not finalized, the range was well formed, and the chunk continued the
-- upload or repeated a part of it.
pub record Accepted {W : Type 0} (m : ResumableManager W) (host : Host W) (auth : Option Text)
    (header : Text) (chunk : Bytes) (s : UploadSession) (st : UploadSessionStatus)
    (after : Option UploadSession) : Type 0 where
  pub token : parse_bearer_token auth ≡ some s.session_token
  pub live : (v : W) × ((host.now_epoch_secs v).0 < s.expires_at_epoch_secs)
  pub unfinalized : s.finalized_object ≡ none
  pub range : ContentRange
  pub parsed : parse_content_range header s.declared_size ≡ ok range
  pub outcome : Committed s range chunk st after ⊎ Repeated m s range chunk st

open_session :
    (s : UploadSession) (e : ResumableError) (u : Unit)
    → refuse_if (is_some s.finalized_object) e ≡ ok u
    → s.finalized_object ≡ none
open_session s e u h = ground arith

Committed-from :
    (s : UploadSession) (r : ContentRange) (chunk : Bytes) (st : UploadSessionStatus)
    (after : Option UploadSession)
    → r.start ≡ s.next_offset
    → (len r ≡ r.end - r.start + 1) × (len r ≤ s.declared_size)
    → r.end < s.declared_size
    → r.start ≤ r.end
    → s.declared_size ≤ max_u64
    → len r ≡ length chunk
    → ((r.end + 1) % u64_mod ≡ s.declared_size) ⊎ (len r % (256 * 1024) ≡ 0)
    → st.next_offset ≡ (r.end + 1) % u64_mod
    → (b : Bool) (n : ℕ)
    → after
      ≡ some (record s { revision = n; next_offset = (r.end + 1) % u64_mod; storage_complete = b })
    → Committed s r chunk st after
Committed-from s r chunk st after due long inside order fits body aligned moved b n found = record {
  due = due;
  whole_body = sym body ∙ long.0;
  aligned = elim aligned [
    | inl last ↦ inl (moved ∙ last)
    | inr even ↦ inr (ap (λ (k : ℕ). k % (256 * 1024)) (sym body) ∙ even)
  ];
  advanced = omega arith;
  recorded = (
    b,
    n,
    found
        ∙ ap (λ k. some (record s { revision = n; next_offset = k; storage_complete = b }))
            (sym moved),
  );
}

module _ {W : Type 0} (m : ResumableManager W) (host : Host W) (at : Sessions W)
    (c : Contract m host at) where
  -- The end of an accepted chunk: the session is saved and its status returned.
  saved-Succeeds :
      (s : UploadSession) (w : W) (st : UploadSessionStatus)
      → let save = (service (m.store.save s) >> pure (session_status m host s)) in
        Succeeds save w st
        → (session_status m host s ≡ st)
          × ((n : ℕ) × (at (save w).1 s.upload_id ≡ some (record s { revision = n })))
  saved-Succeeds s w st h =
      let (u, saved, rest, world) = bind-Succeeds (service (m.store.save s)) _ w st h in
      let (n, found) =
        c.store.save_done s w (call-Succeeds internal_error (m.store.save s) w u saved) in
      let ends =
        pure_world ResumableError (session_status m host s) _
        ∙ call_world internal_error (m.store.save s) w in
      (pure-Succeeds _ _ st rest, (n, ap (λ v. at v s.upload_id) (world ∙ ends) ∙ found))

  sent-Succeeds :
      (s : UploadSession) (r : ContentRange) (chunk : Bytes) (w : W) (st : UploadSessionStatus)
      → Succeeds (send_chunk m host s r chunk) w st
      → (st.next_offset ≡ (r.end + 1) % u64_mod)
        × ((b : Bool) × (n : ℕ) × (at (send_chunk m host s r chunk w).1 s.upload_id
              ≡ some (record s {
                revision = n;
                next_offset = (r.end + 1) % u64_mod;
                storage_complete = b;
              })))
  unfolding send_chunk session_status
  sent-Succeeds s r chunk w st h =
      let (state, sent, rest, world) =
        bind-Succeeds (service (m.backend.upload_chunk s r chunk)) _ w st h in
      let (status, (n, found)) = saved-Succeeds _ _ st rest in
      (ap (λ t. t.next_offset) (sym status), (_, n, ap (λ v. at v s.upload_id) world ∙ found))

  commit-Succeeds :
      (s : UploadSession) (r : ContentRange) (chunk : Bytes) (w : W) (st : UploadSessionStatus)
      → r.start ≡ s.next_offset
      → (len r ≡ r.end - r.start + 1) × (len r ≤ s.declared_size)
      → r.end < s.declared_size
      → r.start ≤ r.end
      → s.declared_size ≤ max_u64
      → Succeeds (commit_chunk m host s r chunk) w st
      → Committed s r chunk st (at (commit_chunk m host s r chunk w).1 s.upload_id)
  unfolding commit_chunk
  commit-Succeeds s r chunk w st due long inside order fits h =
      let (u, body, h1, w1) = lift-Succeeds _ _ w st h in
      let (u', aligned, h2, w2) = lift-Succeeds _ _ w st h1 in
      let (moved, (b, n, found)) = sent-Succeeds s r chunk w st h2 in
      Committed-from s r chunk st _ due long inside order fits (not_refused _ _ _ body)
        (aligned_offset r s.declared_size _ u' aligned) moved b n
        (ap (λ v. at v s.upload_id) (w1 ∙ w2) ∙ found)

  Repeated-from :
      (s : UploadSession) (r : ContentRange) (chunk : Bytes) (st : UploadSessionStatus) (w : W)
      (b : Bool)
      → b ≡ true
      → Succeeds
          (if ltb r.end s.next_offset
            then service (m.backend.is_committed_retry s r chunk)
            else pure {E = ResumableError} false)
          w
          b
      → session_status m host s ≡ st
      → Repeated m s r chunk st
  unfolding session_status
  Repeated-from s r chunk st w b e asked status =
      elim (taken (ltb r.end s.next_offset) _ _ w b asked) [
        | inl (early, confirmed) ↦ record {
          earlier = ltb→lt _ _ early;
          unmoved = ap (λ t. t.next_offset) (sym status);
          confirmed = (w, call-Succeeds internal_error _ w true (rw e at confirmed));
        }
        | inr (_, skipped) ↦ cc (pure-Succeeds false w b skipped)
      ]

  retry-Succeeds :
      (s : UploadSession) (r : ContentRange) (chunk : Bytes) (w : W) (st : UploadSessionStatus)
      → Succeeds (retry_chunk m host s r chunk) w st
      → Repeated m s r chunk st
  unfolding retry_chunk
  retry-Succeeds s r chunk w st h =
      let (committed, asked, rest, world) = bind-Succeeds _ _ w st h in
      elim (taken committed _ _ _ st rest) [
        | inl (yes_committed, done) ↦
            Repeated-from s r chunk st w committed yes_committed asked (pure-Succeeds _ _ st done)
        | inr (_, failed) ↦ raise-Succeeds _ _ st failed
      ]

  -- The chunk's range is placed: at the offset that is due, or earlier.
  placed-Succeeds :
      (header : Text) (chunk : Bytes) (w : W) (s : UploadSession) (r : ContentRange)
      (st : UploadSessionStatus)
      → IsSound s
      → parse_content_range header s.declared_size ≡ ok r
      → let place =
          (if r.start == s.next_offset
            then commit_chunk m host s r chunk
            else retry_chunk m host s r chunk) in
        Succeeds place w st
        → Committed s r chunk st (at (place w).1 s.upload_id) ⊎ Repeated m s r chunk st
  placed-Succeeds header chunk w s r st sound parsed h =
      let within = parse_content_range_within header s.declared_size r parsed in
      elim (taken (r.start == s.next_offset) _ _ w st h) [
        | inl (due, done) ↦ inl (
            subst (λ v. Committed s r chunk st (at v s.upload_id))
              (sym (
                if_world _ true (commit_chunk m host s r chunk) (retry_chunk m host s r chunk) w
                  due))
              (commit-Succeeds s r chunk w st ((==_iff _ _).0 due)
                (parse_content_range-len header s.declared_size r parsed sound.fits) within.2
                within.1 sound.fits done))
        | inr (_, done) ↦ inr (retry-Succeeds s r chunk w st done)
      ]

  -- An upload request that succeeds came with the session's token before it expired, for a session
  -- that was not finalized, with a well-formed range; and it either continued the upload, or
  -- repeated what was there.
  pub upload_chunk-Succeeds :
      (id : Text) (auth : Option Text) (header : Text) (chunk : Bytes) (w : W) (s : UploadSession)
      (st : UploadSessionStatus)
      → at w id ≡ some s
      → IsSound s
      → Succeeds (upload_chunk m host id auth header chunk) w st
      → Accepted m host auth header chunk s st
          (at (upload_chunk m host id auth header chunk w).1 id)
  unfolding upload_chunk
  upload_chunk-Succeeds id auth header chunk w s st here sound h =
      let (body_done, same, left) = locked-Succeeds m host at c id _ w st h in
      let v = (m.store.lock id w).1 in
      let (t, authorized, h1, w1) =
        bind-Succeeds (authorize_session m host id auth) _ v st body_done in
      let (found, token, live) = authorize-Succeeds m host at c id auth v t authorized in
      let (u, unfinalized, h2, w2) = lift-Succeeds _ _ _ st h1 in
      let (r, parsed, h3, w3) = lift-Succeeds _ _ _ st h2 in
      let t_is_s : t ≡ s = some-injective _ _ (sym found ∙ same ∙ here) in
      let placed =
        placed-Succeeds header chunk _ t r st (subst IsSound (sym t_is_s) sound) parsed h3 in
      let ends =
        left ∙ ap (λ x. at x id) (w1 ∙ w2 ∙ w3) ∙ ap (at _) (sym (c.store.keyed v id t found)) in
      subst
        (λ x.
          Accepted m host auth header chunk x st
            (at (upload_chunk m host id auth header chunk w).1 id))
        t_is_s
        (record {
          token = token;
          live = live;
          unfinalized = open_session t _ u unfinalized;
          range = r;
          parsed = parsed;
          outcome =
              subst (λ o. Committed t r chunk st o ⊎ Repeated m t r chunk st) (sym ends) placed;
        })
