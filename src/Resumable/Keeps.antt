-- ===== src/Resumable/Keeps.antt =====
-- Each method of the manager keeps a property of the stored sessions that loading, saving, deleting
-- and the two updates of a session keep.
use divine_upload_server.Prelude.{
  ℕ, ◌+◌, ◌%◌, ◌≤◌, ◌<◌, ◌≡◌, refl, ◌∙◌, Bool, false, Option, none, some, arith, not, ◌==◌, ==_iff,
  leb, ltb,
}
use divine_upload_server.Result.{ok, ok_or, ok_or-some, not_refused}
use divine_upload_server.Exec.{Exec, act}
use divine_upload_server.Exec.Meets.{
  Meets, Holds-of, Meets-checked, Meets-pure, Meets-raise, Meets-lift, Meets-act, Meets-if,
  Meets-effect, Meets-call, Meets-bind, Meets-holding, Meets-ignore, meets_rules,
}
use divine_upload_server.Text.{Text, str_eq}
use divine_upload_server.Resumable.Data.{
  UploadSession, ResumableUploadInitRequest, ContentRange, u64_mod, ResumableError,
}
use divine_upload_server.Resumable.Range.{parse_content_range_within}
use divine_upload_server.Resumable.Traits.{Host, internal_error, SessionOutbox, Bytes}
use divine_upload_server.Resumable.Sessions.{
  ResumableManager, locked, expired, cleanup_expired_session, forget_receipt, find_session,
  check_token, authorize_session, is_some, validate_init_request,
}
use divine_upload_server.Resumable.Manager.{
  init_session, head_session, retry_chunk, send_chunk, commit_chunk, upload_chunk,
}
use divine_upload_server.Resumable.Completion.{
  hash_temp_object, announce, completed_response, has_receipt, replay, reserve_intent, discard,
  finalized, record_final, store_verified, verify_and_store, finish, complete_session,
  abort_session,
}
use divine_upload_server.Resumable.Contract.{Sessions, Quiet, QuietCall, Contract, OptionLaws}

abbrev pub advanced : UploadSession → ContentRange → Bool → UploadSession
advanced s r b = record s { next_offset = (r.end + 1) % u64_mod; storage_complete = b }

-- `P` speaks of the stored sessions alone, and gives `Good` of each; saving a good session and
-- deleting any keep `P`; the updates that the manager makes lead from good sessions to good ones.
pub record Rules {W : Type 0} (m : ResumableManager W) (at : Sessions W) (P : W → Type 0)
    (Good : UploadSession → Type 0) : Type 0 where
  pub stable : (w w' : W) → ((id : Text) → at w' id ≡ at w id) → P w → P w'
  pub stored : (w : W) (id : Text) (s : UploadSession) → P w → at w id ≡ some s → Good s
  pub saved : (s : UploadSession) → Good s → (w : W) → P w → P (m.store.save s w).1
  pub removed : (id : Text) (w : W) → P w → P (m.store.delete id w).1
  pub chunk :
      (s : UploadSession) (r : ContentRange) (b : Bool)
      → Good s
      → r.start ≡ s.next_offset
      → r.start ≤ r.end
      → r.end < s.declared_size
      → Good (advanced s r b)
  pub done : (s : UploadSession) → Good s → s.next_offset ≡ s.declared_size → Good (finalized s)

init_positive :
    (request : ResumableUploadInitRequest) {u : Unit}
    → validate_init_request request ≡ ok u
    → 0 < request.size
unfolding validate_init_request
init_positive request h = ground arith

module _ {W : Type 0} (m : ResumableManager W) (host : Host W) (at : Sessions W)
    (c : Contract m host at) (P : W → Type 0) (Good : UploadSession → Type 0)
    (rules : Rules m at P Good) where
  quiet : (f : W → W) → Quiet at f → (w : W) → P w → P (f w)
  quiet f q w p = rules.stable w (f w) (q w) p

  quiet_call : {E A : Type 0} (f : Exec W E A) → QuietCall at f → Meets P (λ _. Unit) f
  quiet_call f q = record {
    at = λ w p. (quiet (λ v. (f v).1) q w p, Holds-of _ (f w).0 (λ _ _. tt));
  }

  clock : Meets {E = ResumableError} P (λ _. Unit) (act host.now_epoch_secs)
  clock =
      Meets-act _ (λ w p. (quiet (λ v. (host.now_epoch_secs v).1) c.host_quiet.now_quiet w p, tt))

  random_keeps : (n : ℕ) → Meets {E = ResumableError} P (λ _. Unit) (act (host.random_bytes n))
  random_keeps n =
      Meets-act _
        (λ w p. (quiet (λ v. (host.random_bytes n v).1) (c.host_quiet.random_quiet n) w p, tt))

  save_keeps : (s : UploadSession) → Good s → Meets P (λ _. Unit) (m.store.save s)
  save_keeps s g = record {
    at = λ w p. (rules.saved s g w p, Holds-of _ (m.store.save s w).0 (λ _ _. tt));
  }

  delete_keeps : (id : Text) → Meets P (λ _. Unit) (m.store.delete id)
  delete_keeps id = record {
    at = λ w p. (rules.removed id w p, Holds-of _ (m.store.delete id w).0 (λ _ _. tt));
  }

  forget_keeps :
      (o : Option (SessionOutbox W)) (s : UploadSession)
      → OptionLaws o at
      → Meets P (λ _. Unit) (forget_receipt m host o s)
  unfolding forget_receipt
  forget_keeps none s l = search meets_rules
  forget_keeps (some outbox) s l = quiet_call _ (l.forget_quiet s.upload_id)

  cleanup_keeps : (s : UploadSession) (w : W) → P w → P (cleanup_expired_session m host s w)
  unfolding cleanup_expired_session
  cleanup_keeps s = Meets-ignore _ (
      Meets-bind
        (Meets-if (is_some s.finalized_object) (λ _. Meets-pure tt tt)
          (λ _.
            Meets-bind (quiet_call _ (c.backend.cancel_quiet s))
              (λ _ _. quiet_call _ (c.backend.delete_quiet s.temp_object))))
        (λ _ _. Meets-bind (forget_keeps m.outbox s c.outbox) (λ _ _. delete_keeps s.upload_id)))

  expired_keeps : {A : Type 0} (Q : A → Type 0) (s : UploadSession) → Meets P Q (expired m host s)
  unfolding expired
  expired_keeps Q s = Meets-bind (Meets-effect _ (cleanup_keeps s)) (λ _ _. Meets-raise _)

  load_keeps :
      (id : Text) → Meets P (λ o. (s : UploadSession) → o ≡ some s → Good s) (m.store.load id)
  load_keeps id = record {
    at = λ w p. (
      quiet (λ v. (m.store.load id v).1) (c.store.load_quiet id) w p,
      Holds-of _ (m.store.load id w).0
          λ o read s e. rules.stored w id s p (c.store.load_reads id w o read ∙ e),
    );
  }

  find_keeps : (id : Text) → Meets P Good (find_session m host id)
  unfolding find_session
  find_keeps id = Meets-bind (Meets-call internal_error (load_keeps id)) λ o good.
      Meets-lift (ok_or o _) (Holds-of Good (ok_or o _) (λ s e. good s (ok_or-some o _ e)))

  token_keeps :
      (s : UploadSession) (auth : Option Text) → Good s → Meets P Good (check_token m host s auth)
  unfolding check_token
  token_keeps s auth g =
      Meets-bind (Meets-lift {Q = λ _. Unit} _ (Holds-of _ _ (λ _ _. tt))) λ token _.
        Meets-if (str_eq token s.session_token) (λ _. Meets-pure s g) (λ _. Meets-raise _)

  authorize_keeps :
      (id : Text) (auth : Option Text) → Meets P Good (authorize_session m host id auth)
  unfolding authorize_session
  authorize_keeps id auth = Meets-bind (find_keeps id) λ s g. Meets-bind clock λ now _.
      Meets-if (leb s.expires_at_epoch_secs now) (λ _. expired_keeps Good s)
        (λ _. token_keeps s auth g)

  locked_keeps :
      {A : Type 0} {Q : A → Type 0} {body : Exec W ResumableError A} (id : Text)
      → Meets P Q body
      → Meets P Q (locked m host id body)
  unfolding locked
  locked_keeps id h =
      Meets-holding (Meets-call internal_error (quiet_call _ (c.store.lock_quiet id)))
        (quiet (m.store.unlock id) (c.store.unlock_quiet id)) h

  pub head_keeps :
      (id : Text) (auth : Option Text) → Meets P (λ _. Unit) (head_session m host id auth)
  unfolding head_session
  head_keeps id auth =
      locked_keeps id (Meets-bind (authorize_keeps id auth) (λ s _. Meets-pure _ tt))

  retry_keeps :
      (s : UploadSession) (r : ContentRange) (chunk : Bytes)
      → Meets P (λ _. Unit) (retry_chunk m host s r chunk)
  unfolding retry_chunk
  retry_keeps s r chunk =
      Meets-bind
        (Meets-if (ltb r.end s.next_offset)
          (λ _. Meets-call internal_error (quiet_call _ (c.backend.retry_quiet s r chunk)))
          (λ _. Meets-pure _ tt))
        λ committed _. Meets-if committed (λ _. Meets-pure _ tt) (λ _. Meets-raise _)

  commit_keeps :
      (s : UploadSession) (r : ContentRange) (chunk : Bytes)
      → Good s
      → r.start ≡ s.next_offset
      → r.start ≤ r.end
      → r.end < s.declared_size
      → Meets P (λ _. Unit) (commit_chunk m host s r chunk)
  unfolding commit_chunk send_chunk
  commit_keeps s r chunk g start order inside = Meets-checked _ λ _ _. Meets-checked _ λ _ _.
      Meets-bind (Meets-call internal_error (quiet_call _ (c.backend.chunk_quiet s r chunk)))
        λ state _.
          Meets-bind
            (Meets-call internal_error (save_keeps _ (rules.chunk s r _ g start order inside)))
            (λ _ _. Meets-pure _ tt)

  pub chunk_keeps :
      (id : Text) (auth : Option Text) (header : Text) (chunk : Bytes)
      → Meets P (λ _. Unit) (upload_chunk m host id auth header chunk)
  unfolding upload_chunk
  chunk_keeps id auth header chunk = locked_keeps id (
      Meets-bind (authorize_keeps id auth) λ s g. Meets-checked _ λ _ _. Meets-checked _ λ r e.
        let inside = parse_content_range_within header s.declared_size r e in
        Meets-if (r.start == s.next_offset)
          (λ start. commit_keeps s r chunk g ((==_iff _ _).0 start) inside.1 inside.2)
          (λ _. retry_keeps s r chunk))

  hash_keeps : (key : Text) → Meets P (λ _. Unit) (hash_temp_object m host key)
  unfolding hash_temp_object
  hash_keeps key =
      Meets-bind (quiet_call _ (c.backend.stream_quiet key))
        λ stream _. Meets-checked _ λ _ _. Meets-pure _ tt

  announce_keeps :
      (o : Option (SessionOutbox W)) (s : UploadSession)
      → OptionLaws o at
      → Meets P (λ _. Unit) (announce m host o s)
  unfolding announce
  announce_keeps none s l = Meets-pure tt tt
  announce_keeps (some outbox) s l =
      Meets-bind (Meets-call internal_error (quiet_call _ (c.backend.objects_quiet s))) λ objects _.
        Meets-call internal_error (
          quiet_call _ (l.enqueue_quiet s.upload_id s.final_sha256 s.declared_size s.owner objects))

  response_keeps :
      (s : UploadSession) (b : Bool) → Meets P (λ _. Unit) (completed_response m host s b)
  unfolding completed_response
  response_keeps s b = Meets-bind (announce_keeps m.outbox s c.outbox) (λ _ _. Meets-pure _ tt)

  receipt_keeps :
      (o : Option (SessionOutbox W)) (s : UploadSession)
      → OptionLaws o at
      → Meets P (λ _. Unit) (has_receipt m host o s)
  unfolding has_receipt
  receipt_keeps none s l = Meets-pure false tt
  receipt_keeps (some outbox) s l =
      Meets-call internal_error
        (quiet_call _ (l.receipt_quiet s.upload_id s.final_sha256 s.declared_size s.owner))

  replay_keeps : (s : UploadSession) → Meets P (λ _. Unit) (replay m host s)
  unfolding replay
  replay_keeps s =
      Meets-bind (receipt_keeps m.outbox s c.outbox)
        λ receipt _. Meets-if receipt (λ _. Meets-pure _ tt) (λ _. response_keeps s false)

  reserve_keeps :
      (o : Option (SessionOutbox W)) (s : UploadSession)
      → Meets P (λ _. Unit) (reserve_intent m host o s)
  unfolding reserve_intent
  reserve_keeps none s = Meets-pure tt tt
  reserve_keeps (some outbox) s = Meets-call internal_error (quiet_call _ (c.backend.begin_quiet s))

  discard_keeps : (id : Text) (s : UploadSession) (w : W) → P w → P (discard m host id s w)
  unfolding discard
  discard_keeps id s w p =
      Meets-ignore _ (delete_keeps id) _
        (Meets-ignore _ (quiet_call _ (c.backend.delete_quiet s.temp_object)) w p)

  store_keeps :
      (id : Text) (s : UploadSession)
      → Good s
      → s.next_offset ≡ s.declared_size
      → Meets P (λ _. Unit) (verify_and_store m host id s)
  unfolding verify_and_store store_verified record_final
  store_keeps id s g whole =
      Meets-bind (Meets-call internal_error (hash_keeps s.temp_object)) λ computed _.
        Meets-if (not (str_eq computed.0 s.final_sha256))
          (λ _. Meets-bind (Meets-effect _ (discard_keeps id s)) (λ _ _. Meets-raise _))
          λ _. Meets-checked _ λ _ _. Meets-bind (reserve_keeps m.outbox s) λ _ _.
            Meets-bind (Meets-call internal_error (quiet_call _ (c.backend.finalize_quiet s)))
              λ newly _.
                Meets-bind (Meets-call internal_error (save_keeps _ (rules.done s g whole))) λ _ _.
                  Meets-bind
                    (Meets-effect _
                      (Meets-ignore _ (quiet_call _ (c.backend.delete_quiet s.temp_object))))
                    (λ _ _. response_keeps (finalized s) newly)

  finish_keeps :
      (id : Text) (s : UploadSession)
      → Good s
      → s.next_offset ≡ s.declared_size
      → Meets P (λ _. Unit) (finish m host id s)
  unfolding finish
  finish_keeps id s g whole = Meets-checked _ λ _ _.
      Meets-holding (Meets-call _ (quiet_call _ c.host_quiet.acquire_quiet))
        (quiet host.release c.host_quiet.release_quiet) (store_keeps id s g whole)

  pub complete_keeps : (id owner : Text) → Meets P (λ _. Unit) (complete_session m host id owner)
  unfolding complete_session
  complete_keeps id owner = locked_keeps id (
      Meets-bind (find_keeps id) λ s g. Meets-checked _ λ _ _. Meets-bind clock λ now _.
        Meets-if (leb s.expires_at_epoch_secs now) (λ _. expired_keeps _ s)
          λ _. Meets-checked _ λ _ whole.
            Meets-if (is_some s.finalized_object) (λ _. replay_keeps s)
              (λ _. finish_keeps id s g (not_refused _ _ _ whole)))

  pub abort_keeps :
      (id : Text) (auth : Option Text) → Meets P (λ _. Unit) (abort_session m host id auth)
  unfolding abort_session
  abort_keeps id auth = locked_keeps id (
      Meets-bind (authorize_keeps id auth) λ s g. Meets-checked _ λ _ _.
        Meets-bind (Meets-call internal_error (quiet_call _ (c.backend.cancel_quiet s))) λ _ _.
          Meets-bind
            (Meets-effect _ (Meets-ignore _ (quiet_call _ (c.backend.delete_quiet s.temp_object))))
            (λ _ _. Meets-call internal_error (delete_keeps id)))

  -- A session that `init_session` makes: nothing is committed of its positive size.
  pub init_keeps :
      (owner : Text) (request : ResumableUploadInitRequest)
      → ((s : UploadSession)
          → 0 < s.declared_size
          → s.declared_size ≡ request.size
          → s.next_offset ≡ 0
          → s.finalized_object ≡ none
          → Good s)
      → Meets P (λ _. Unit) (init_session m host owner request)
  unfolding init_session
  init_keeps owner request new = Meets-checked _ λ _ _. Meets-checked _ λ _ valid.
      Meets-bind (random_keeps 12) λ id_bytes _. Meets-bind (random_keeps 24) λ token_bytes _.
        Meets-bind (Meets-call internal_error (quiet_call _ (c.backend.create_quiet _ owner _ _)))
          λ created _. Meets-bind clock λ now _.
            Meets-bind
              (Meets-call internal_error
                (save_keeps _ (new _ (init_positive request valid) refl refl refl)))
              (λ _ _. Meets-pure _ tt)
