-- ===== src/Resumable/Success/Complete.antt =====
-- What a completed upload means.
use divine_upload_server.Prelude.{
  ℕ, ◌<◌, ◌≡◌, refl, sym, ap, subst, ◌∙◌, inl, inr, Bool, true, false, not, Option, none, some,
  arith, leb,
}
use mathlib.Core.Option.{some-injective}
use divine_upload_server.Result.{ok, refuse_if, not_refused}
use divine_upload_server.Exec.{Exec, act, ignore, effect, ◌>>◌}
use divine_upload_server.Exec.Meets.{
  Meets, Holds, Holds-of, Meets-pure, Meets-bind, Meets-call, Meets-effect, Meets-ignore,
}
use divine_upload_server.Exec.Success.{
  Succeeds, bind-Succeeds, lift-Succeeds, call_world, act-Succeeds, raise-Succeeds, call-Succeeds,
  holding-Succeeds,
}
use divine_upload_server.Text.{Text, str_eq}
use divine_upload_server.Text.Laws.{str_eq_iff}
use divine_upload_server.Resumable.Data.{UploadSession, CompleteUploadResponse}
use divine_upload_server.Resumable.Traits.{Host, internal_error, SessionOutbox}
use divine_upload_server.Resumable.Sessions.{ResumableManager, find_session, is_some, service}
use divine_upload_server.Resumable.Completion.{
  hash_temp_object, response_of, announce, completed_response, reserve_intent, finalized,
  record_final, store_verified, verify_and_store, finish, complete_session,
}
use divine_upload_server.Resumable.Contract.{Sessions, Contract, OptionLaws, QuietCall}
use divine_upload_server.Resumable.Success.{locked-Succeeds, find-Succeeds, expired-fails}
use divine_upload_server.Exec.Success.{taken, if_world}

-- The stored bytes were read back and have the declared hash and size, they were put in their final
-- place, the answer says so, and the session is recorded as final.
pub record Stored {W : Type 0} (m : ResumableManager W) (host : Host W) (s : UploadSession)
    (reply : CompleteUploadResponse) (after : Option UploadSession) : Type 0 where
  pub verified :
      (v : W) × Succeeds (hash_temp_object m host s.temp_object) v (s.final_sha256, s.declared_size)
  pub newly : Bool
  pub placed : (v : W) × Succeeds (m.backend.finalize s) v newly
  pub answer : reply ≡ response_of m host s newly
  pub recorded : (n : ℕ) × (after ≡ some (record (finalized s) { revision = n }))

-- The client owned the session, it had not expired, and all declared bytes were committed.
pub record Completed {W : Type 0} (m : ResumableManager W) (host : Host W) (owner : Text)
    (s : UploadSession) (reply : CompleteUploadResponse) (after : Option UploadSession)
    : Type 0 where
  pub owned : s.owner ≡ owner
  pub live : (v : W) × ((host.now_epoch_secs v).0 < s.expires_at_epoch_secs)
  pub whole : s.next_offset ≡ s.declared_size
  pub stored : Stored m host s reply after

is_some-none : {A : Type 0} (o : Option A) → is_some o ≡ true → o ≡ none → ⊥
is_some-none none h e = cc
is_some-none (some a) h e = cc

pair_path : {A B : Type 0} {p : A × B} {a : A} {b : B} → p.0 ≡ a → p.1 ≡ b → p ≡ (a, b)
pair_path e f = λ i. (e i, f i)

passed : {E : Type 0} (b : Bool) (e : E) (u : Unit) → refuse_if (not b) e ≡ ok u → b ≡ true
passed true e u h = refl
passed false e u h = cc

not-false : (b : Bool) → not b ≡ false → b ≡ true
not-false true h = refl
not-false false h = cc

module _ {W : Type 0} (m : ResumableManager W) (host : Host W) (at : Sessions W)
    (c : Contract m host at) where
  unchanged :
      {E A : Type 0} (o : Option UploadSession) (id : Text) (f : Exec W E A)
      → QuietCall at f
      → Meets (λ w. at w id ≡ o) (λ _. Unit) f
  unchanged o id f q = record { at = λ w e. (q w id ∙ e, Holds-of _ (f w).0 (λ _ _. tt)) }

  announce_unchanged :
      (b : Option (SessionOutbox W)) (s : UploadSession) (o : Option UploadSession) (id : Text)
      → OptionLaws b at
      → Meets (λ w. at w id ≡ o) (λ _. Unit) (announce m host b s)
  unfolding announce
  announce_unchanged none s o id l = Meets-pure tt tt
  announce_unchanged (some outbox) s o id l =
      Meets-bind (Meets-call internal_error (unchanged o id _ (c.backend.objects_quiet s)))
        λ objects _. Meets-call internal_error (
          unchanged o id _
            (l.enqueue_quiet s.upload_id s.final_sha256 s.declared_size s.owner objects))

  response_unchanged :
      (s : UploadSession) (b : Bool) (o : Option UploadSession) (id : Text)
      → Meets
          (λ w. at w id ≡ o)
          (λ reply. response_of m host s b ≡ reply)
          (completed_response m host s b)
  unfolding completed_response
  response_unchanged s b o id =
      Meets-bind (announce_unchanged m.outbox s o id c.outbox) (λ _ _. Meets-pure _ refl)

  tail_unchanged :
      (s : UploadSession) (b : Bool) (o : Option UploadSession) (id : Text)
      → Meets
          (λ w. at w id ≡ o)
          (λ reply. response_of m host (finalized s) b ≡ reply)
          (effect (ignore (m.backend.delete_object s.temp_object))
            >> completed_response m host (finalized s) b)
  tail_unchanged s b o id =
      Meets-bind
        (Meets-effect _ (Meets-ignore _ (unchanged o id _ (c.backend.delete_quiet s.temp_object))))
        (λ _ _. response_unchanged (finalized s) b o id)

  record-Succeeds :
      (s : UploadSession) (b : Bool) (w : W) (reply : CompleteUploadResponse)
      → Succeeds (record_final m host s b) w reply
      → (response_of m host (finalized s) b ≡ reply)
        × ((n : ℕ) × (at (record_final m host s b w).1 s.upload_id
              ≡ some (record (finalized s) { revision = n })))
  unfolding record_final finalized
  record-Succeeds s b w reply h =
      let (u, saved, h1, w1) = bind-Succeeds (service (m.store.save (finalized s))) _ w reply h in
      let (n, found) =
        c.store.save_done (finalized s) w (call-Succeeds internal_error _ w u saved) in
      let v = (service (m.store.save (finalized s)) w).1 in
      let (kept, answered) =
        (tail_unchanged s b (some (record (finalized s) { revision = n })) s.upload_id).at v
          (ap (λ x. at x s.upload_id) (call_world internal_error _ w) ∙ found) in
      (
        subst (Holds (λ r. response_of m host (finalized s) b ≡ r)) h1 answered,
        (n, ap (λ x. at x s.upload_id) w1 ∙ kept),
      )

  stored-Succeeds :
      (s : UploadSession) (w : W) (reply : CompleteUploadResponse)
      → Succeeds (store_verified m host s) w reply
      → (b : Bool) × (v : W) × Succeeds (m.backend.finalize s) v b
        × (response_of m host (finalized s) b ≡ reply)
        × ((n : ℕ) × (at (store_verified m host s w).1 s.upload_id
              ≡ some (record (finalized s) { revision = n })))
  unfolding store_verified
  stored-Succeeds s w reply h =
      let (u, reserved, h1, w1) = bind-Succeeds (reserve_intent m host m.outbox s) _ w reply h in
      let v = (reserve_intent m host m.outbox s w).1 in
      let (b, done, h2, w2) = bind-Succeeds (service (m.backend.finalize s)) _ v reply h1 in
      let (same, (n, found)) = record-Succeeds s b _ reply h2 in
      (
        b,
        v,
        call-Succeeds internal_error _ v b done,
        same,
        (n, ap (λ x. at x s.upload_id) (w1 ∙ w2) ∙ found),
      )

  verified-Succeeds :
      (id : Text) (s : UploadSession) (w : W) (reply : CompleteUploadResponse)
      → Succeeds (verify_and_store m host id s) w reply
      → ((v : W) × Succeeds
            (hash_temp_object m host s.temp_object)
            v
            (s.final_sha256, s.declared_size))
        × ((v : W) × Succeeds (store_verified m host s) v reply
            × ((verify_and_store m host id s w).1 ≡ (store_verified m host s v).1))
  unfolding verify_and_store
  verified-Succeeds id s w reply h =
      let (computed, hashed, h1, w1) =
        bind-Succeeds (service (hash_temp_object m host s.temp_object)) _ w reply h in
      let v = (service (hash_temp_object m host s.temp_object) w).1 in
      elim (taken (not (str_eq computed.0 s.final_sha256)) _ _ v reply h1) [
        | inl (_, bad) ↦
            let (u, _, h2, _) = bind-Succeeds _ _ v reply bad in raise-Succeeds _ _ reply h2
        | inr (same, good) ↦
            let (u, sized, h2, w2) = lift-Succeeds _ _ v reply good in
            (
              (
                w,
                subst (Succeeds (hash_temp_object m host s.temp_object) w)
                    (pair_path ((str_eq_iff _ _).0 (not-false _ same)) (not_refused _ _ _ sized))
                    (call-Succeeds internal_error _ w computed hashed),
              ),
              (v, h2, w1 ∙ if_world _ false _ _ v same ∙ w2),
            )
      ]

  finish-Succeeds :
      (id : Text) (s : UploadSession) (w : W) (reply : CompleteUploadResponse)
      → Succeeds (finish m host id s) w reply
      → Stored m host s reply (at (finish m host id s w).1 s.upload_id)
  unfolding finish response_of finalized
  finish-Succeeds id s w reply h =
      let (u, sized, h1, w1) = lift-Succeeds _ _ w reply h in
      let (body, world) =
        holding-Succeeds _ host.release (verify_and_store m host id s) w reply h1 in
      let (verified, (v, done, w2)) = verified-Succeeds id s _ reply body in
      let (b, x, placed, answer, (n, found)) = stored-Succeeds s v reply done in
      record {
        verified = verified;
        newly = b;
        placed = (x, placed);
        answer = sym answer;
        recorded = (
          n,
          ap (λ y. at y s.upload_id) (w1 ∙ world)
              ∙ c.host_quiet.release_quiet _ s.upload_id
              ∙ ap (λ y. at y s.upload_id) w2
              ∙ found,
        );
      }

  -- `complete_session` for a session that is not final yet answers with success only when all of
  -- `Completed` holds: no upload is announced whose bytes were not read back and found to match.
  pub complete_session-Succeeds :
      (id owner : Text) (w : W) (s : UploadSession) (reply : CompleteUploadResponse)
      → at w id ≡ some s
      → s.finalized_object ≡ none
      → Succeeds (complete_session m host id owner) w reply
      → Completed m host owner s reply (at (complete_session m host id owner w).1 id)
  unfolding complete_session
  complete_session-Succeeds id owner w s reply here unfinalized h =
      let (body_done, same, left) = locked-Succeeds m host at c id _ w reply h in
      let v0 = (m.store.lock id w).1 in
      let (t, found_ok, h1, w1) = bind-Succeeds (find_session m host id) _ v0 reply body_done in
      let found = find-Succeeds m host at c id v0 t found_ok in
      let t_is_s : t ≡ s = some-injective _ _ (sym found ∙ same ∙ here) in
      let (u, owned, h2, w2) = lift-Succeeds _ _ _ reply h1 in
      let v = (find_session m host id v0).1 in
      let (now, now_ok, h3, w3) = bind-Succeeds (act host.now_epoch_secs) _ v reply h2 in
      elim (taken (leb t.expires_at_epoch_secs now) _ _ _ reply h3) [
        | inl (_, late) ↦ expired-fails m host at c t _ reply late
        | inr (live, h4) ↦
            let (u', whole, h5, w5) = lift-Succeeds _ _ _ reply h4 in
            elim (taken (is_some t.finalized_object) _ _ _ reply h5) [
              | inl (final, _) ↦ absurd (
                  is_some-none t.finalized_object final
                    (ap (λ x. x.finalized_object) t_is_s ∙ unfinalized))
              | inr (fresh, done) ↦
                  let ends =
                    left
                    ∙ ap (λ x. at x id)
                        (w1
                          ∙ w2
                          ∙ w3
                          ∙ if_world _ false _ _ _ live
                          ∙ w5
                          ∙ if_world _ false _ _ _ fresh)
                    ∙ ap (at _) (sym (c.store.keyed v0 id t found)) in
                  subst
                    (λ x.
                      Completed m host owner x reply (at (complete_session m host id owner w).1 id))
                    t_is_s
                    (record {
                      owned = (str_eq_iff _ _).0 (passed _ _ u owned);
                      live = (v, ground (arith, act-Succeeds host.now_epoch_secs v now now_ok));
                      whole = not_refused _ _ _ whole;
                      stored =
                          subst (Stored m host t reply) (sym ends)
                            (finish-Succeeds id t _ reply done);
                    })
            ]
      ]
