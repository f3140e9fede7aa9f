-- ===== src/Outbox/Receipts.antt =====
-- A session that has committed its event is answered from its receipt: `enqueue_completed_session` and
-- `has_session_receipt` of src/outbox.rs.
use divine_upload_server.Prelude.{
  ℕ, ◌≡◌, refl, sym, ap, subst, ◌∙◌, inl, inr, Bool, true, false, Option, none, some, List, [], ◌∷◌,
  ◌++◌, Bool-cases, &&-true, ltb, not, ◌&&◌, ==_iff,
}
use divine_upload_server.Result.{ok, err, map_err, passes, ok-injective, bind-ok, ◌>>◌}
use divine_upload_server.Exec.Success.{map_err-ok}
use divine_upload_server.Text.{Text, text}
use divine_upload_server.Text.Laws.{str_eq_iff, str_eq_refl}
use divine_upload_server.Text.Signed.{max_i64}
use divine_upload_server.Storage.Objects.{ObjectRef, same_version, parse_write_mode}
use divine_upload_server.Processing.{
  MediaFinalizedV1, Encoding, new_event, refresh_job_id, is_empty, is_hash_invalid,
  is_metadata_incomplete, event_with,
}
use divine_upload_server.Query.{first}
use divine_upload_server.Query.Keyed.{find-put-same, find-fresh}
use divine_upload_server.Outbox.Data.{
  Intent, OutboxRow, SessionReceipt, OutboxTables, find_intent, find_row, put_row, find_receipt,
  receipt_event, joined,
}
use divine_upload_server.Outbox.Destinations.{required_destinations, matches_destinations}
use divine_upload_server.Outbox.Delivery.{row_key}
use divine_upload_server.Outbox.Enqueue.{
  check_session_receipt, has_session_receipt, fresh_row, commit_row, add_receipt, check_replicas,
  event_of, is_same_payload, is_some_id, is_historical, commit_event, committed_tables,
  enqueue_event, enqueue_intent, session_event, intent_of_size, enqueue_new, enqueue_upload_inner,
  enqueue_completed_session,
}
use divine_upload_server.Resumable.Traits.{other, intent_conflict}

-- The receipt check accepts an event.
abbrev Accepts : MediaFinalizedV1 → Text → ℕ → Text → Type 0
Accepts event hash size owner = check_session_receipt event hash size owner ≡ ok tt

Accepts-fields :
    (event : MediaFinalizedV1) (hash : Text) (size : ℕ) (owner : Text)
    → event.sha256 ≡ hash
    → event.size ≡ size
    → event.owner ≡ some owner
    → Accepts event hash size owner
unfolding check_session_receipt same_version
Accepts-fields event hash size owner a b c =
    rw ((str_eq_iff event.sha256 hash).1 a, (==_iff event.size size).1 b, c, str_eq_refl owner) refl

new_event-fields :
    (e : Encoding) (hash : Text) (size : ℕ) (content_type owner : Text) (source : ObjectRef)
    (event : MediaFinalizedV1)
    → is_empty owner ≡ false
    → new_event e hash size content_type owner source ≡ ok event
    → (event.sha256 ≡ hash) × (event.size ≡ size) × (event.owner ≡ some owner)
unfolding new_event refresh_job_id
new_event-fields e hash size content_type owner source event named h =
    let (_, h1) =
      passes (is_hash_invalid hash source) (text "processing source hash is invalid") _ event h in
    let (_, h2) =
      passes (is_metadata_incomplete content_type owner source)
        (text "processing source metadata is incomplete") _ event h1 in
    let same =
      ok-injective (refresh_job_id e (event_with hash size content_type owner source)) event h2 in
    (
      ap (λ x. x.sha256) (sym same),
      ap (λ x. x.size) (sym same),
      ap (λ x. x.owner) (sym same) ∙ rw named refl,
    )

event_of-Accepts :
    (e : Encoding) (hash : Text) (size : ℕ) (content_type owner : Text) (source : ObjectRef)
    (replicas : List ObjectRef) (event : MediaFinalizedV1)
    → is_empty owner ≡ false
    → event_of e hash size content_type owner source replicas ≡ ok event
    → Accepts event hash size owner
unfolding event_of refresh_job_id
event_of-Accepts e hash size content_type owner source replicas event named h =
    let (first, made, h1) =
      bind-ok (map_err other (new_event e hash size content_type owner source)) _ event h in
    let (_, _, h2) = bind-ok (check_replicas e hash size content_type owner replicas) _ event h1 in
    let same = ok-injective (refresh_job_id e (record first { replicas = replicas })) event h2 in
    let (a, b, c) =
      new_event-fields e hash size content_type owner source first named
        (map_err-ok _ _ first made) in
    Accepts-fields event hash size owner (ap (λ x. x.sha256) (sym same) ∙ a)
      (ap (λ x. x.size) (sym same) ∙ b) (ap (λ x. x.owner) (sym same) ∙ c)

-- The session's receipt names an event that the check accepts.
abbrev Receipted : Text → Text → ℕ → Text → OutboxTables → Type 0
Receipted id hash size owner t =
    (event : MediaFinalizedV1) × (receipt_event id t ≡ some event) × Accepts event hash size owner

add_receipt-finds :
    (id job_id : Text) (receipts after : List SessionReceipt)
    → add_receipt (some id) job_id receipts ≡ ok after
    → find_receipt id after ≡ some (record { upload_id = id; job_id = job_id })
unfolding add_receipt find_receipt
add_receipt-finds id job_id receipts after h = found (find_receipt id receipts) refl h
  where
    found :
        (o : Option SessionReceipt)
        → find_receipt id receipts ≡ o
        → elim o [
          | none ↦ ok (receipts ++ record { upload_id = id; job_id = job_id } ∷ [])
          | some r ↦ err (other (text "processing receipt persistence failed"))
        ]
          ≡ ok after
        → find_receipt id after ≡ some (record { upload_id = id; job_id = job_id })
    found none absent h =
        subst (λ x. find_receipt id x ≡ some (record { upload_id = id; job_id = job_id }))
          (ok-injective _ _ h)
          (find-fresh (λ r. r.upload_id) (record { upload_id = id; job_id = job_id }) receipts id
            absent refl)
    found (some r) _ h = cc

-- What is relied on of the recorded events: one with the identity of an event of this upload is of this
-- upload.
abbrev pub Identified : Encoding → Text → ℕ → Text → List OutboxRow → Type 0
Identified e hash size owner rows =
    (content_type : Text) (source : ObjectRef) (replicas : List ObjectRef)
    (event : MediaFinalizedV1) (r : OutboxRow)
    → event_of e hash size content_type owner source replicas ≡ ok event
    → find_row event.job_id rows ≡ some r
    → check_session_receipt r.payload hash size owner ≡ ok tt

module _ (e : Encoding) (hash : Text) (size : ℕ) (owner : Text)
    (named : is_empty owner ≡ false) where
  -- After the commit the event's identity finds an accepted event.
  Committed : MediaFinalizedV1 → List OutboxRow → Type 0
  Committed event rows =
      (r : OutboxRow) × (find_row event.job_id rows ≡ some r) × Accepts r.payload hash size owner

  committed :
      (now : ℕ) (content_type : Text) (source : ObjectRef) (replicas : List ObjectRef)
      (event : MediaFinalizedV1) (rows : List OutboxRow)
      → Identified e hash size owner rows
      → event_of e hash size content_type owner source replicas ≡ ok event
      → Committed event (commit_row now event rows (find_row event.job_id rows))
  unfolding commit_row find_row put_row Committed
  committed now content_type source replicas event rows identified made =
      found (find_row event.job_id rows) refl
    where
      found :
          (o : Option OutboxRow)
          → find_row event.job_id rows ≡ o
          → Committed event (commit_row now event rows o)
      found none absent = (
        fresh_row now event,
        find-fresh row_key (fresh_row now event) rows event.job_id absent refl,
        event_of-Accepts e hash size content_type owner source replicas event named made,
      )
      found (some r) there =
          let later : OutboxRow = record r { finalized_at = now } in
          (
            later,
            find-put-same row_key later r event.job_id rows there refl,
            identified content_type source replicas event r made there,
          )

  historical-row :
      (event : MediaFinalizedV1) (o : Option OutboxRow)
      → is_same_payload o event ≡ true
      → (r : OutboxRow) × (o ≡ some r)
  unfolding is_same_payload
  historical-row event none h = cc
  historical-row event (some r) h = (r, refl)

  -- A replay of an old event finds it; else the event is committed.
  outbox-Committed :
      (now : ℕ) (id : Option Text) (matches : Bool) (intent : Intent) (source : ObjectRef)
      (replicas : List ObjectRef) (event : MediaFinalizedV1) (t : OutboxTables)
      → Identified e hash size owner t.outbox
      → event_of e hash size intent.content_type owner source replicas ≡ ok event
      → Committed event
          (committed_tables now intent event (is_historical id matches event t.outbox) t).outbox
  unfolding Committed is_historical commit_event
  outbox-Committed now id matches intent source replicas event t identified made =
      elim (Bool-cases (is_historical id matches event t.outbox)) [
        | inl old ↦
            let (_, same) = &&-true (is_some_id id && not matches) _ old in
            let (r, there) = historical-row event (find_row event.job_id t.outbox) same in
            rw old (r, there, identified intent.content_type source replicas event r made there)
        | inr fresh ↦
            rw fresh
              (committed now intent.content_type source replicas event t.outbox identified made)
      ]

  receipt_of-row :
      (id job_id : Text) (rows : List OutboxRow) (r : OutboxRow)
      → find_row job_id rows ≡ some r
      → joined rows (some (record { upload_id = id; job_id = job_id })) ≡ some r.payload
  unfolding joined
  receipt_of-row id job_id rows r there = rw (joined, there) refl

  event-Receipted :
      (now : ℕ) (id : Text) (matches : Bool) (intent : Intent) (source : ObjectRef)
      (replicas : List ObjectRef) (event : MediaFinalizedV1) (t after : OutboxTables)
      → Identified e hash size owner t.outbox
      → event_of e hash size intent.content_type owner source replicas ≡ ok event
      → enqueue_event now (some id) matches intent event t ≡ ok after
      → Receipted id hash size owner after
  unfolding enqueue_event Committed receipt_event
  event-Receipted now id matches intent source replicas event t after identified made h =
      let historical = is_historical (some id) matches event t.outbox in
      let mid = committed_tables now intent event historical t in
      let (_, h1) = passes (not matches && not historical) intent_conflict _ after h in
      let (receipts, added, h2) =
        bind-ok (add_receipt (some id) event.job_id mid.receipts) _ after h1 in
      let same = ok-injective (record mid { receipts = receipts }) after h2 in
      let (r, there, accepted) =
        outbox-Committed now (some id) matches intent source replicas event t identified made in
      (
        r.payload,
        ap (receipt_event id) (sym same)
            ∙ ap (joined mid.outbox) (add_receipt-finds id event.job_id mid.receipts receipts added)
            ∙ receipt_of-row id event.job_id mid.outbox r there,
        accepted,
      )

  intent-Receipted :
      (now : ℕ) (id : Text) (intent : Intent) (source : ObjectRef) (replicas : List ObjectRef)
      (t after : OutboxTables)
      → Identified e hash size owner t.outbox
      → enqueue_intent e now hash size owner source replicas (some id) intent t ≡ ok after
      → Receipted id hash size owner after
  unfolding enqueue_intent
  intent-Receipted now id intent source replicas t after identified h =
      let (mode, _, h1) = bind-ok (map_err other (parse_write_mode intent.write_mode)) _ after h in
      let (expected, _, h2) =
        bind-ok (required_destinations mode intent.gcs_bucket intent.b2_bucket) _ after h1 in
      let (event, made, h3) =
        bind-ok (event_of e hash size intent.content_type owner source replicas) _ after h2 in
      event-Receipted now id (matches_destinations (source ∷ replicas) expected) intent source
        replicas event t after identified made h3

  new-Receipted :
      (now : ℕ) (id : Text) (source : ObjectRef) (replicas : List ObjectRef)
      (t after : OutboxTables)
      → Identified e hash size owner t.outbox
      → enqueue_new e now hash size owner source replicas (some id) t ≡ ok after
      → Receipted id hash size owner after
  unfolding enqueue_new
  new-Receipted now id source replicas t after identified h =
      let (intent, _, h1) =
        bind-ok (intent_of_size size (find_intent hash owner t.intents)) _ after h in
      intent-Receipted now id intent source replicas t after identified h1

  -- The check leaves the tables.
  session_receipt-Receipted :
      (id : Text) (event : MediaFinalizedV1) (t after : OutboxTables)
      → receipt_event id t ≡ some event
      → (check_session_receipt event hash size owner >> ok t) ≡ ok after
      → Receipted id hash size owner after
  session_receipt-Receipted id event t after there h =
      let (u, accepted, same) = bind-ok (check_session_receipt event hash size owner) _ after h in
      (event, ap (receipt_event id) (sym (ok-injective t after same)) ∙ there, accepted)

  from_objects-Receipted :
      (now : ℕ) (id : Text) (source : ObjectRef) (replicas : List ObjectRef)
      (t after : OutboxTables) (o : Option MediaFinalizedV1)
      → Identified e hash size owner t.outbox
      → receipt_event id t ≡ o
      → elim o [
        | some event ↦ (check_session_receipt event hash size owner >> ok t)
        | none ↦ enqueue_new e now hash size owner source replicas (some id) t
      ]
        ≡ ok after
      → Receipted id hash size owner after
  from_objects-Receipted now id source replicas t after none identified there h =
      new-Receipted now id source replicas t after identified h
  from_objects-Receipted now id source replicas t after (some event) identified there h =
      session_receipt-Receipted id event t after there h

  completed-Receipted :
      (now : ℕ) (id : Text) (objects : List ObjectRef) (t after : OutboxTables)
      → Identified e hash size owner t.outbox
      → enqueue_completed_session e now id hash size owner objects t ≡ ok after
      → (ltb max_i64 size ≡ false) × Receipted id hash size owner after
  unfolding enqueue_completed_session enqueue_upload_inner session_event
  completed-Receipted now id [] t after identified h =
      let (small, h1) =
        passes (ltb max_i64 size) (other (text "upload size exceeds database range")) _ after h in
      cc
  completed-Receipted now id (source ∷ replicas) t after identified h =
      let (small, h1) =
        passes (ltb max_i64 size) (other (text "upload size exceeds database range")) _ after h in
      (
        small,
        from_objects-Receipted now id source replicas t after (receipt_event id t) identified refl
            h1,
      )

  -- A receipt answers both calls.
  receipt-answers :
      (now : ℕ) (id : Text) (objects : List ObjectRef) (source : ObjectRef) (t : OutboxTables)
      → ltb max_i64 size ≡ false
      → Receipted id hash size owner t
      → (enqueue_completed_session e now id hash size owner (source ∷ objects) t ≡ ok t)
        × (has_session_receipt id hash size owner t ≡ ok true)
  unfolding enqueue_completed_session enqueue_upload_inner session_event has_session_receipt
  receipt-answers now id objects source t small (event, there, accepted) = (
    rw (enqueue_upload_inner, small) (rw there (rw accepted refl)),
    rw (has_session_receipt, there) (rw accepted refl),
  )

-- A completion of a session that is committed can be repeated, with any objects and at any time: it
-- succeeds and leaves the tables as they are, and the session has its receipt. The owner has a name, and
-- a recorded event with the identity of an event of this upload is of this upload.
pub enqueue_completed_session-replays :
    (e : Encoding) (hash : Text) (size : ℕ) (owner id : Text) (now later : ℕ)
    (objects : List ObjectRef) (source : ObjectRef) (replicas : List ObjectRef)
    (t after : OutboxTables)
    → is_empty owner ≡ false
    → Identified e hash size owner t.outbox
    → enqueue_completed_session e now id hash size owner objects t ≡ ok after
    → (enqueue_completed_session e later id hash size owner (source ∷ replicas) after ≡ ok after)
      × (has_session_receipt id hash size owner after ≡ ok true)
enqueue_completed_session-replays e hash size owner id now later objects source replicas t after
      named identified h =
    let (small, receipted) =
      completed-Receipted e hash size owner named now id objects t after identified h in
    receipt-answers e hash size owner named later id replicas source after small receipted
