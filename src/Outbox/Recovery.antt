-- ===== src/Outbox/Recovery.antt =====
-- `recover_intents` of src/outbox.rs: intents whose copies are all there, with the bytes of their hash,
-- become events without any write of media.
use divine_upload_server.Prelude.{
  ℕ, ◌+◌, ◌-◌, ◌*◌, min, Bool, false, not, ◌&&◌, ◌||◌, Option, none, some, List, [], ◌∷◌, ◌++◌,
  ◌==◌, ltb, length, if◌then◌else◌,
}
use divine_upload_server.Result.{Result, ok, err, map_err}
use divine_upload_server.Exec.{Exec, pure, lift, ◌>>=◌, ◌>>◌}
use divine_upload_server.Text.{Text, str_eq}
use divine_upload_server.Text.Decimal.{max_u64}
use divine_upload_server.Storage.Objects.{ObjectRef, WriteMode, dual, parse_write_mode}
use divine_upload_server.Storage.Media.{Machine, MediaStorage, StoredObject, with_mode}
use divine_upload_server.Storage.Reads.{stat, stream_ref}
use divine_upload_server.Outbox.Intents.{PendingUpload}
use divine_upload_server.Outbox.Destinations.{is_available}
use divine_upload_server.Resumable.Traits.{Failure, other, Bytes}

-- What recovery asks of the outbox: the page of pending intents, the mark of one that was looked at, and
-- `enqueue_upload`; and the hexadecimal SHA-256.
pub record Recovery (W : Type 0) : Type 0 where
  pub pending_intents : ℕ → Exec W Failure (List PendingUpload)
  pub mark_checked : Text → Text → Exec W Failure Unit
  pub enqueue_upload : Text → ℕ → Text → Text → List ObjectRef → Exec W Failure Unit
  pub hash_text : Bytes → Text

unfoldable pub modes_of : WriteMode → List WriteMode
modes_of WriteMode.gcs = WriteMode.gcs ∷ []
modes_of WriteMode.b2 = WriteMode.b2 ∷ []
modes_of dual = WriteMode.gcs ∷ WriteMode.b2 ∷ []

-- The bytes of a stream that stays within a size and has no error.
unfoldable pub collect : ℕ → List (Result Failure Bytes) → Bytes → Option Bytes
collect size [] got = some got
collect size (err e ∷ stream) got = none
collect size (ok chunk ∷ stream) got =
    let rest = collect size stream (got ++ chunk) in
    if ltb size (length got + length chunk) then none else rest

unfoldable pub is_intact : (Bytes → Text) → Text → ℕ → Option Bytes → Bool
is_intact hash_text hash size none = false
is_intact hash_text hash size (some got) = length got == size && str_eq (hash_text got) hash

-- A call of which an error only ends the search.
abbrev pub tried : {W A : Type 0} → Exec W Failure A → Exec W Failure (Option A)
tried m w = (elim (m w).0 [ ok a ↦ ok (some a) | err e ↦ ok none ], (m w).1)

abbrev found_of : Option (Option StoredObject) → Option StoredObject
found_of none = none
found_of (some o) = o

abbrev stream_of : Option (List (Result Failure Bytes)) → List (Result Failure Bytes)
stream_of none = []
stream_of (some stream) = stream

module _ {W : Type 0} (machine : Machine W) (recovery : Recovery W) where
  -- The copy of one destination, if it is there with the size of the intent.
  copy_in :
      MediaStorage W
      → WriteMode
      → PendingUpload
      → Exec W Failure (Option (MediaStorage W × ObjectRef))
  copy_in pinned mode intent = elim (with_mode pinned mode) [
    | err e ↦ pure none
    | ok reader ↦ do
      found ← tried (stat machine reader intent.sha256)
      elim (found_of found) [
        | none ↦ pure none
        | some object ↦
            pure (if object.size == intent.size then some (reader, object.reference) else none)
      ]
  ]

  -- The copies up to the first that is missing.
  unfoldable pub discover :
      MediaStorage W
      → List WriteMode
      → PendingUpload
      → Exec W Failure (List (MediaStorage W × ObjectRef))
  unfolding copy_in
  discover pinned [] intent = pure []
  discover pinned (mode ∷ modes) intent = do
    copy ← copy_in pinned mode intent
    elim copy [
      | none ↦ pure []
      | some candidate ↦ do rest ← discover pinned modes intent; pure (candidate ∷ rest)
    ]

  unfoldable pub read_intact : PendingUpload → MediaStorage W × ObjectRef → Exec W Failure Bool
  read_intact intent candidate = do
    stream ← tried (stream_ref machine candidate.0 candidate.1)
    elim stream [
      | none ↦ pure false
      | some chunks ↦
          pure
            (is_intact recovery.hash_text intent.sha256 intent.size (collect intent.size chunks []))
    ]

  -- The copies up to the first that is not intact, and what is left of the budget.
  unfoldable pub read_copies :
      PendingUpload → List (MediaStorage W × ObjectRef) → ℕ → Exec W Failure (List ObjectRef × ℕ)
  unfolding read_intact
  read_copies intent [] budget = pure ([], budget)
  read_copies intent (candidate ∷ candidates) budget = do
    intact ← read_intact intent candidate
    if not intact then pure ([], budget - intent.size) else do
      rest ← read_copies intent candidates (budget - intent.size)
      pure (candidate.1 ∷ rest.0, rest.1)

  -- `size.saturating_mul(modes) > budget`
  abbrev is_over_budget : ℕ → ℕ → ℕ → Bool
  is_over_budget size copies budget = ltb budget (min (size * copies) max_u64)

  recover_candidates :
      PendingUpload → ℕ → ℕ → List (MediaStorage W × ObjectRef) → Exec W Failure (ℕ × ℕ)
  recover_candidates intent wanted budget candidates =
      if not (length candidates == wanted) || is_over_budget intent.size wanted budget
      then pure (0, budget)
      else do
        read ← read_copies intent candidates budget
        if not (length read.0 == wanted) then pure (0, read.1) else do
          recovery.enqueue_upload intent.sha256 intent.size intent.content_type intent.owner read.0
          pure (1, read.1)

  recover_mode : MediaStorage W → PendingUpload → ℕ → WriteMode → Exec W Failure (ℕ × ℕ)
  recover_mode storage intent budget mode =
      if not (is_available storage mode intent.gcs_bucket intent.b2_bucket)
      then pure (0, budget)
      else do
        pinned ← lift (with_mode storage mode)
        candidates ← discover pinned (modes_of mode) intent
        recover_candidates intent (length (modes_of mode)) budget candidates

  -- Whether the intent was recovered, and the budget that is left.
  unfoldable pub recover_intent : MediaStorage W → PendingUpload → ℕ → Exec W Failure (ℕ × ℕ)
  unfolding recover_mode recover_candidates
  recover_intent storage intent budget = do
    recovery.mark_checked intent.sha256 intent.owner
    if ltb budget intent.size then pure (0, budget) else do
      mode ← lift (map_err other (parse_write_mode intent.mode))
      recover_mode storage intent budget mode

  unfoldable pub recover_all : MediaStorage W → List PendingUpload → ℕ → ℕ → Exec W Failure ℕ
  recover_all storage [] recovered budget = pure recovered
  recover_all storage (intent ∷ intents) recovered budget = do
    outcome ← recover_intent storage intent budget
    recover_all storage intents (recovered + outcome.0) outcome.1

  unfoldable pub recover_intents : MediaStorage W → ℕ → ℕ → Exec W Failure ℕ
  recover_intents storage limit max_bytes = do
    intents ← recovery.pending_intents limit
    recover_all storage intents 0 max_bytes
