-- ===== src/Inbox/Authority.antt =====
-- Who the boundary of src/inbox_http.rs lets in, and what its answers prove.
use mathlib.Core.Option.{some-injective}
use divine_upload_server.Prelude.{
  ℕ, ◌≡◌, ◌↔◌, refl, sym, ap, subst, ◌∙◌, inl, inr, Bool, true, false, Option, none, some, [], ◌∷◌,
  ◌++◌, Bool-cases, ◌==◌, ==_iff, &&-true,
}
use divine_upload_server.Result.{
  Result, ok, err, refuse_if, is_err, ok_or-some, err-injective, map_err, not_refused_if,
}
use divine_upload_server.Exec.{lift, pure, call}
use divine_upload_server.Exec.Success.{
  Succeeds, bind-err, bind-Succeeds, lift-Succeeds, call-Succeeds, call_world, pure_world,
  pure-Succeeds,
}
use divine_upload_server.Text.{Text, text, str_eq, byte_len, strip_prefix, starts_with}
use divine_upload_server.Text.Laws.{str_eq_iff, strip_prefix-append}
use divine_upload_server.Processing.{MediaFinalizedV1, Encoding}
use divine_upload_server.Inbox.Data.{InboxSettings, inbox_conflict, invalid_completion, failed}
use divine_upload_server.Inbox.Validate.{validate_event}
use divine_upload_server.Resumable.Traits.{Bytes}
use divine_upload_server.Inbox.Http.{
  Request, Route, claim, lookup, renew, complete, begin, prepare, inspect, dispatch, path_of,
  StoreError, inbox, journal, invalid, stale, conflict, gate_unavailable, parsed, Readers, Store,
  Boundary, Body, received, late, unavailable, finalized, Response, Value, durable, same_mac,
  bearer, token_matches, expected_token, handle, with_body, perform, answer_of, operation,
  accept_event, database_error, error, response, text_or_empty,
}

strip_prefix_sound : (p s r : Text) → strip_prefix p s ≡ some r → s ≡ p ++ r
unfolding strip_prefix
strip_prefix_sound [] s r h = some-injective _ _ h
strip_prefix_sound (a ∷ p) [] r h = cc
strip_prefix_sound (a ∷ p) (b ∷ s) r h = elim (Bool-cases (a == b)) [
  | inl hit ↦
      ap (λ t. b ∷ t) (strip_prefix_sound p s r (rw hit at h))
      ∙ ap (λ x. x ∷ (p ++ r)) (sym ((==_iff a b).0 hit))
  | inr miss ↦ cc (rw miss at h)
]

-- A header that the code cannot tell from `Bearer ` and the secret: its token has the length and the MAC
-- of the secret. The MAC is not injective, so this is all that a comparison of MACs can decide.
abbrev pub Credential : (Text → Bytes) → Text → Option Text → Type 0
Credential mac secret authorization =
    (token : Text) × (authorization ≡ some (text "Bearer " ++ token))
    × (byte_len token ≡ byte_len secret)
    × (mac token ≡ mac secret)

bearer-some :
    (authorization : Option Text) (token : Text)
    → bearer authorization ≡ some token
    → authorization ≡ some (text "Bearer " ++ token)
bearer-some none token h = cc
bearer-some (some header) token h = ap some (strip_prefix_sound (text "Bearer ") header token h)

matched :
    (mac : Text → Bytes) (authorization : Option Text) (secret : Text)
    → token_matches mac authorization secret ≡ true
    → Credential mac secret authorization
unfolding token_matches same_mac
matched mac authorization secret h = by_token (bearer authorization) refl h
  where
    by_token :
        (found : Option Text)
        → bearer authorization ≡ found
        → same_mac mac secret found ≡ true
        → Credential mac secret authorization
    by_token none there h = cc
    by_token (some token) there h =
        let (long, same) = &&-true (byte_len token == byte_len secret) _ h in
        (
          token,
          bearer-some authorization token there,
          (==_iff _ _).0 long,
          sym ((str_eq_iff _ _).0 same),
        )

-- A credential is accepted exactly if the header is `Bearer ` and a token that has the length and the
-- MAC of the expected one.
pub token_matches_iff :
    (mac : Text → Bytes) (authorization : Option Text) (secret : Text)
    → (token_matches mac authorization secret ≡ true) ↔ Credential mac secret authorization
unfolding token_matches same_mac
token_matches_iff mac authorization secret = (
  matched mac authorization secret,
  λ (token, header, long, same).
      subst (λ a. token_matches mac a secret ≡ true) (sym header)
        (rw (strip_prefix-append (text "Bearer ") token)
          (rw ((==_iff (byte_len token) _).1 long, (str_eq_iff (mac secret) _).1 (sym same)) refl)),
)

-- The secret of a route: the intake's delivers events, the worker's does all else.
abbrev pub secret_of : InboxSettings → Route → Text
secret_of settings finalized = settings.intake_token
secret_of settings _ = settings.worker_token

expected-secret :
    (settings : InboxSettings) (route : Route)
    → expected_token settings route ≡ secret_of settings route
unfolding expected_token path_of str_eq text
expected-secret settings finalized = refl
expected-secret settings claim = refl
expected-secret settings lookup = refl
expected-secret settings renew = refl
expected-secret settings complete = refl
expected-secret settings begin = refl
expected-secret settings prepare = refl
expected-secret settings inspect = refl
expected-secret settings dispatch = refl

-- No other status is 200.
not_200 : {X : Type 0} (n : ℕ) → (n == 200) ≡ false → n ≡ 200 → X
not_200 n differs same = true_false (sym ((==_iff n 200).1 same) ∙ differs)
  where
    true_false : {X : Type 0} → true ≡ false → X
    true_false e = cc e

module _ {W P D A : Type 0} (boundary : Boundary W) (e : Encoding) (settings : InboxSettings)
    (readers : Readers P D) (store : Store W P D A) where
  -- A request without a credential of its route is answered 401, and nothing is asked of the store.
  pub handle-Unauthorized :
      (request : Request) (w : W)
      → ¬ Credential boundary.mac (secret_of settings request.route) request.authorization
      → ((handle boundary e settings readers store request w).0.status ≡ 401)
        × ((handle boundary e settings readers store request w).1 ≡ w)
  unfolding handle error response
  handle-Unauthorized request w missing =
      let expected = expected_token settings request.route in
      elim (Bool-cases (token_matches boundary.mac request.authorization expected)) [
        | inl hit ↦
            elim (missing (
              subst (λ x. Credential boundary.mac x request.authorization)
                (expected-secret settings request.route)
                (matched boundary.mac request.authorization expected hit))) [ ]
        | inr miss ↦ rw miss (refl, refl)
      ]

  -- What an acknowledged event was.
  abbrev pub Accepted : Text → Body → W → Response A × W → Type 0
  Accepted key body w out =
      (bytes : Bytes) × (event : MediaFinalizedV1) × (body ≡ received bytes)
      × (readers.event bytes ≡ some event)
      × (is_err (validate_event e event key) ≡ false)
      × Succeeds (store.accept event key) w tt
      × (out.1 ≡ (store.accept event key w).1)
      × (out.0.value ≡ durable event.job_id)

  -- An operation's value is one that its code returned: no error has the status 200.
  operation-Accepted :
      (key : Text) (bytes : Bytes) (w : W) (value : Value A)
      → Succeeds (operation boundary e settings readers store finalized key bytes) w value
      → Accepted key (received bytes) w (
        response 200 value,
        (operation boundary e settings readers store finalized key bytes w).1,
      )
  unfolding operation accept_event response
  operation-Accepted key bytes w value h =
      let (event, there, h1, world1) = lift-Succeeds _ _ w value h in
      let (_, valid, h2, world2) = lift-Succeeds _ _ w value h1 in
      let (u, accepted, done, world3) =
        bind-Succeeds (call database_error (store.accept event key)) _ w value h2 in
      (
        bytes,
        event,
        refl,
        ok_or-some _ _ there,
        not_refused_if _ _ valid,
        call-Succeeds database_error (store.accept event key) w tt accepted,
        world1
            ∙ world2
            ∙ world3
            ∙ pure_world (Response A) (durable event.job_id) _
            ∙ call_world database_error (store.accept event key) w,
        sym (pure-Succeeds (durable event.job_id) _ value done),
      )

  -- Errors are not successes.
  abbrev IsError : Response A → Type 0
  IsError r = (r.status == 200) ≡ false

  database_error-IsError : (x : StoreError) → IsError (database_error x)
  unfolding database_error error response
  database_error-IsError (journal invalid) = refl
  database_error-IsError (journal stale) = refl
  database_error-IsError (journal conflict) = refl
  database_error-IsError (journal gate_unavailable) = refl
  database_error-IsError (inbox inbox_conflict) = refl
  database_error-IsError (inbox invalid_completion) = refl
  database_error-IsError (inbox (failed words)) = refl

  parsed-IsError : {T : Type 0} (o : Option T) (r : Response A) → parsed o ≡ err r → IsError r
  unfolding error response
  parsed-IsError none r h = subst IsError (err-injective _ _ h) refl
  parsed-IsError (some t) r h = cc

  refused-IsError : (b : Bool) (x r : Response A) → IsError x → refuse_if b x ≡ err r → IsError r
  refused-IsError true x r is h = subst IsError (err-injective _ _ h) is
  refused-IsError false x r is h = cc

  called-IsError :
      {T : Type 0} (o : Result StoreError T) (r : Response A)
      → map_err database_error o ≡ err r
      → IsError r
  called-IsError (ok t) r h = cc
  called-IsError (err x) r h = subst IsError (err-injective _ _ h) (database_error-IsError x)

  accept_event-IsError :
      (key : Text) (bytes : Bytes) (w : W) (r : Response A)
      → (accept_event boundary e settings readers store key bytes w).0 ≡ err r
      → IsError r
  unfolding accept_event error response call lift pure
  accept_event-IsError key bytes w r h =
      elim (bind-err (lift (parsed (readers.event bytes))) _ w r h) [
        | inl bad ↦ parsed-IsError (readers.event bytes) r bad
        | inr (event, h1) ↦
            elim (bind-err
              (lift (
                refuse_if (is_err (validate_event e event key))
                  (error 400 (text "invalid finalization envelope"))))
              _ w r h1) [
                | inl bad ↦ refused-IsError (is_err (validate_event e event key)) _ r refl bad
                | inr (_, h2) ↦
                    elim (bind-err (call database_error (store.accept event key)) _ w r h2) [
                      | inl bad ↦ called-IsError (store.accept event key w).0 r bad
                      | inr (_, h3) ↦ cc
                    ]
              ]
      ]

  abbrev ran : Text → Bytes → W → Result (Response A) (Value A) × W
  ran key bytes w = operation boundary e settings readers store finalized key bytes w

  abbrev answered : Result (Response A) (Value A) → Response A
  answered = answer_of boundary e settings readers store

  performed-Accepted :
      (key : Text) (bytes : Bytes) (w : W) (r : Result (Response A) (Value A))
      → (ran key bytes w).0 ≡ r
      → (answered r).status ≡ 200
      → Accepted key (received bytes) w (answered r, (ran key bytes w).1)
  unfolding answer_of operation
  performed-Accepted key bytes w (ok value) e' h = operation-Accepted key bytes w value e'
  performed-Accepted key bytes w (err r) e' h =
      not_200 r.status (accept_event-IsError key bytes w r e') h

  perform-Accepted :
      (key : Text) (bytes : Bytes) (w : W)
      → (perform boundary e settings readers store finalized key bytes w).0.status ≡ 200
      → Accepted key
          (received bytes)
          w
          (perform boundary e settings readers store finalized key bytes w)
  unfolding perform error response
  perform-Accepted key bytes w h = elim (Bool-cases (boundary.in_time w)) [
    | inl timely ↦
        rw timely (performed-Accepted key bytes w (ran key bytes w).0 refl (rw timely at h))
    | inr missed ↦ not_200 504 refl (rw missed at h)
  ]

  with_body-Accepted :
      (key : Text) (body : Body) (w : W)
      → (with_body boundary e settings readers store finalized key body w).0.status ≡ 200
      → Accepted key body w (with_body boundary e settings readers store finalized key body w)
  unfolding with_body error response
  with_body-Accepted key late w h = not_200 408 refl h
  with_body-Accepted key unavailable w h = not_200 413 refl h
  with_body-Accepted key (received bytes) w h = perform-Accepted key bytes w h

  -- A finalized event that is acknowledged with the status 200 came with a token that has the length and
  -- the MAC of the intake token, was read and passed validation, and the store has accepted it: the
  -- answer names its job, and nothing else has happened.
  pub handle-Accepted :
      (authorization key : Option Text) (body : Body) (w : W)
      → (handle boundary e settings readers store
          (record {
            route = finalized;
            authorization = authorization;
            idempotency_key = key;
            body = body;
          })
          w).0.status
        ≡ 200
      → Credential boundary.mac settings.intake_token authorization
        × Accepted (text_or_empty key) body w (
            handle boundary e settings readers store
              (record {
                route = finalized;
                authorization = authorization;
                idempotency_key = key;
                body = body;
              })
              w)
  unfolding handle error response expected_token path_of str_eq text starts_with
  handle-Accepted authorization key body w h =
      elim (Bool-cases (token_matches boundary.mac authorization settings.intake_token)) [
        | inl hit ↦ (
          matched boundary.mac authorization settings.intake_token hit,
          rw hit (with_body-Accepted (text_or_empty key) body w (rw hit at h)),
        )
        | inr miss ↦ not_200 401 refl (rw miss at h)
      ]
