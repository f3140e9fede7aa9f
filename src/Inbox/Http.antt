-- ===== src/Inbox/Http.antt =====
-- src/inbox_http.rs: the internal HTTP boundary of the inbox, over the operations of its store.
mod Tests
use divine_upload_server.Prelude.{
  ℕ, Bool, true, false, not, ◌&&◌, ◌||◌, Option, none, some, List, ◌==◌, length, if◌then◌else◌,
}
use divine_upload_server.Result.{Result, ok, err, ok_or, refuse_if, is_err}
use divine_upload_server.Exec.{Exec, pure, raise, lift, call, ◌>>=◌, ◌>>◌}
use divine_upload_server.Text.{Text, text, str_eq, byte_len, strip_prefix, starts_with}
use divine_upload_server.Storage.Objects.{ObjectRef}
use divine_upload_server.Processing.{MediaFinalizedV1, Encoding}
use divine_upload_server.Inbox.Data.{
  Assignment, Lease, ProcessingReceipt, InboxError, inbox_conflict, invalid_completion, failed,
  InboxSettings,
}
use divine_upload_server.Inbox.Validate.{validate_event, is_hash}
use divine_upload_server.Resumable.Traits.{Bytes}

pub data JournalError : Type 0 where
  invalid stale conflict gate_unavailable : JournalError

-- An `anyhow::Error` of the store, by what `database_error` asks of it.
pub data StoreError : Type 0 where
  inbox : InboxError → StoreError
  journal : JournalError → StoreError

-- The routes of `router`.
pub data Route : Type 0 where
  finalized claim lookup renew complete begin prepare inspect dispatch : Route

unfoldable pub path_of : Route → Text
path_of finalized = text "/internal/media-finalized"
path_of claim = text "/internal/media-processing/claim"
path_of lookup = text "/internal/media-processing/lookup"
path_of renew = text "/internal/media-processing/renew"
path_of complete = text "/internal/media-processing/complete"
path_of begin = text "/internal/media-processing/attempts/begin"
path_of prepare = text "/internal/media-processing/attempts/prepare"
path_of inspect = text "/internal/media-processing/attempts/inspect"
path_of dispatch = text "/internal/media-processing/attempts/dispatch"

-- The JSON of an answer, by its fields; `A` is a journal's attempt.
pub data Value (A : Type 0) : Type 0 where
  message : Text → Value A
  attempt : A → Value A
  durable : Text → Value A
  receipt : Option ProcessingReceipt → Value A
  assignment : Option Assignment → Value A
  renewed completed : Value A

pub record Response (A : Type 0) : Type 0 where
  pub status : ℕ
  pub cache_control : Text
  pub value : Value A

-- A body within the limit, or what was wrong with it.
pub data Body : Type 0 where
  late : Body
  unavailable : Body
  received : Bytes → Body

-- The headers are those that are text.
pub record Request : Type 0 where
  pub route : Route
  pub authorization : Option Text
  pub idempotency_key : Option Text
  pub body : Body

-- The JSON readers of the bodies; `P` is the body of a `Prepare`, `D` that of a `Dispatch`.
pub record Readers (P D : Type 0) : Type 0 where
  pub event : Bytes → Option MediaFinalizedV1
  pub lookup : Bytes → Option Text
  pub lease : Bytes → Option Lease
  pub completion : Bytes → Option (Lease × ObjectRef)
  pub is_empty_object : Bytes → Option Bool
  pub begin : Bytes → Option Lease
  pub prepare : Bytes → Option P
  pub inspect : Bytes → Option Text
  pub dispatch : Bytes → Option D

-- The operations of `InboxStore`, those of the journal among them.
pub record Store (W P D A : Type 0) : Type 0 where
  pub accept : MediaFinalizedV1 → Text → Exec W StoreError Unit
  pub lookup : Text → Exec W StoreError (Option ProcessingReceipt)
  pub claim : Exec W StoreError (Option Assignment)
  pub renew : Lease → Exec W StoreError Bool
  pub complete : Lease → ObjectRef → Exec W StoreError Bool
  pub journal_begin : Lease → Exec W StoreError A
  pub journal_prepare : P → Exec W StoreError A
  pub journal_inspect : Text → Exec W StoreError A
  pub journal_dispatch : D → Exec W StoreError Unit
  pub journal_completion_replay : Lease → ObjectRef → Exec W StoreError Bool

-- The HMAC of a key over the fixed label, and the deadline of a request: whether an operation ends in
-- time, and the world that one that does not leaves.
pub record Boundary (W : Type 0) : Type 0 where
  pub mac : Text → Bytes
  pub in_time : W → Bool
  pub interrupted : W → W

abbrev pub text_or_empty : Option Text → Text
text_or_empty none = text ""
text_or_empty (some key) = key

module _ {A : Type 0} where
  unfoldable pub response : ℕ → Value A → Response A
  response status value = record {
    status = status;
    cache_control = text "private, no-store";
    value = value;
  }

  unfoldable pub error : ℕ → Text → Response A
  unfolding response
  error status words = response status (message words)

  unfoldable pub database_error : StoreError → Response A
  database_error (journal invalid) = error 400 (text "invalid producer journal request")
  database_error (journal stale) = error 409 (text "producer assignment is stale")
  database_error (journal conflict) = error 409 (text "conflicting producer artifact plan")
  database_error (journal gate_unavailable) = error 503 (text "producer parent gate unavailable")
  database_error (inbox inbox_conflict) = error 409 (text "conflicting finalization input")
  database_error (inbox invalid_completion) = error 400 (text "invalid private completion marker")
  database_error (inbox (failed words)) = error 503 (text "processing persistence unavailable")

  -- `parse`
  abbrev pub parsed : {T : Type 0} → Option T → Result (Response A) T
  parsed o = ok_or o (error 400 (text "invalid processing request"))

-- The MACs are compared, not the secrets.
unfoldable pub same_mac : (Text → Bytes) → Text → Option Text → Bool
same_mac mac expected none = false
same_mac mac expected (some candidate) =
    byte_len candidate == byte_len expected && str_eq (mac expected) (mac candidate)

abbrev pub bearer : Option Text → Option Text
bearer none = none
bearer (some header) = strip_prefix (text "Bearer ") header

unfoldable pub token_matches : (Text → Bytes) → Option Text → Text → Bool
token_matches mac authorization expected = same_mac mac expected (bearer authorization)

unfoldable pub expected_token : InboxSettings → Route → Text
expected_token settings route =
    if str_eq (path_of route) (text "/internal/media-finalized")
    then settings.intake_token
    else settings.worker_token

module _ {W P D A : Type 0} (boundary : Boundary W) (e : Encoding) (settings : InboxSettings)
    (readers : Readers P D) (store : Store W P D A) where
  unfoldable pub accept_event : Text → Bytes → Exec W (Response A) (Value A)
  accept_event key body = do
    event ← lift (parsed (readers.event body))
    lift (
        refuse_if (is_err (validate_event e event key))
          (error 400 (text "invalid finalization envelope")))
    call database_error (store.accept event key)
    pure (durable event.job_id)

  find_receipt : Bytes → Exec W (Response A) (Value A)
  find_receipt body = do
    id ← lift (parsed (readers.lookup body))
    lift (refuse_if (not (is_hash id)) (error 400 (text "invalid processing identity")))
    found ← call database_error (store.lookup id)
    pure (receipt found)

  claim_work : Bytes → Exec W (Response A) (Value A)
  claim_work body = do
    empty ← lift (parsed (readers.is_empty_object body))
    lift (refuse_if (not empty) (error 400 (text "claim body must be empty object")))
    work ← call database_error store.claim
    pure (assignment work)

  renew_lease : Bytes → Exec W (Response A) (Value A)
  renew_lease body = do
    lease ← lift (parsed (readers.lease body))
    held ← call database_error (store.renew lease)
    lift (refuse_if (not held) (error 409 (text "processing assignment is stale")))
    pure renewed

  complete_work : Bytes → Exec W (Response A) (Value A)
  complete_work body = do
    completion ← lift (parsed (readers.completion body))
    done ← call database_error (
        if settings.producer_journal_enabled
        then store.journal_completion_replay completion.0 completion.1
        else store.complete completion.0 completion.1)
    lift (refuse_if (not done) (error 409 (text "processing assignment is stale")))
    pure completed

  dispatch_artifact : Bytes → Exec W (Response A) (Value A)
  dispatch_artifact body = do
    input ← lift (parsed (readers.dispatch body))
    call database_error (store.journal_dispatch input)
    raise (error 503 (text "producer parent gate unavailable"))

  journaled : {T : Type 0} → Option T → (T → Exec W StoreError A) → Exec W (Response A) (Value A)
  journaled input f = do
    input ← lift (parsed input)
    made ← call database_error (f input)
    pure (attempt made)

  unfoldable pub operation : Route → Text → Bytes → Exec W (Response A) (Value A)
  unfolding accept_event find_receipt claim_work renew_lease complete_work dispatch_artifact
      journaled
  operation begin key body = journaled (readers.begin body) store.journal_begin
  operation prepare key body = journaled (readers.prepare body) store.journal_prepare
  operation inspect key body = journaled (readers.inspect body) store.journal_inspect
  operation dispatch key body = dispatch_artifact body
  operation finalized key body = accept_event key body
  operation lookup key body = find_receipt body
  operation claim key body = claim_work body
  operation renew key body = renew_lease body
  operation complete key body = complete_work body

  unfoldable pub answer_of : Result (Response A) (Value A) → Response A
  answer_of (ok value) = response 200 value
  answer_of (err answer) = answer

  unfoldable pub perform : Route → Text → Bytes → W → Response A × W
  perform route key body w =
      if boundary.in_time w
      then (answer_of (operation route key body w).0, (operation route key body w).1)
      else (error 504 (text "processing persistence deadline exceeded"), boundary.interrupted w)

  unfoldable pub with_body : Route → Text → Body → W → Response A × W
  with_body route key late w = (error 408 (text "processing request deadline exceeded"), w)
  with_body route key unavailable w =
      (error 413 (text "processing body unavailable or too large"), w)
  with_body route key (received body) w = perform route key body w

  -- `handle` of a runtime that is configured.
  unfoldable pub handle : Request → W → Response A × W
  handle request w =
      if not
        (token_matches boundary.mac request.authorization (expected_token settings request.route))
      then (error 401 (text "invalid processing credential"), w)
      else if starts_with (text "/internal/media-processing/attempts/") (path_of request.route)
          && not settings.producer_journal_enabled
      then (error 503 (text "producer journal disabled"), w)
      else with_body request.route (text_or_empty request.idempotency_key) request.body w
