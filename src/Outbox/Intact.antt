-- ===== src/Outbox/Intact.antt =====
-- What recovery (src/outbox.rs) has read before it lists a copy.
mod Tests
use mathlib.Core.Option.{some-injective}
use divine_upload_server.Prelude.{
  append_assoc, append-nil, ltb, ◌+◌, ◌++◌, ◌⊎◌, Bool-cases, ℕ, ◌-◌, ◌≤◌, ◌≡◌, refl, sym, ap, subst,
  ◌∙◌, inl, inr, Bool, true, false, not, Option, none, some, List, [], ◌∷◌, All, arith, length,
  ◌==◌, ==_iff, &&-true, if◌then◌else◌,
}
use divine_upload_server.Result.{Result, ok, err, ok-injective}
use divine_upload_server.Exec.{Exec, pure, ◌>>=◌}
use divine_upload_server.Exec.Success.{Succeeds, bind-Succeeds, pure-Succeeds, pure_world, taken}
use divine_upload_server.Text.{Text, str_eq}
use divine_upload_server.Text.Laws.{str_eq_iff}
use divine_upload_server.Storage.Objects.{ObjectRef}
use divine_upload_server.Storage.Media.{Machine, MediaStorage}
use divine_upload_server.Storage.Reads.{stream_ref}
use divine_upload_server.Storage.Streams.{Whole}
use divine_upload_server.Outbox.Intents.{PendingUpload}
use divine_upload_server.Outbox.Recovery.{
  Recovery, collect, is_intact, tried, read_intact, read_copies,
}
use divine_upload_server.Resumable.Traits.{Failure, Bytes}

is_intact-some :
    (hash_text : Bytes → Text) (hash : Text) (size : ℕ) (o : Option Bytes)
    → is_intact hash_text hash size o ≡ true
    → (got : Bytes) × (o ≡ some got) × (length got ≡ size) × (hash_text got ≡ hash)
unfolding is_intact
is_intact-some hash_text hash size none h = cc
is_intact-some hash_text hash size (some got) h =
    let (long, hashed) = &&-true (length got == size) (str_eq (hash_text got) hash) h in
    (got, refl, (==_iff _ _).0 long, (str_eq_iff _ _).0 hashed)

whole_of : (b : Bool) → not b ≡ false → b ≡ true
whole_of b h = ground arith

tried-some :
    {W A : Type 0} (m : Exec W Failure A) (w : W) (a : A)
    → Succeeds (tried m) w (some a)
    → Succeeds m w a
tried-some {A = A} m w a h = by_result (m w).0 h
  where
    by_result :
        (r : Result Failure A)
        → ◌≡◌ {A = Result Failure (Option A)}
            (elim r [ ok a ↦ ok (some a) | err e ↦ ok none ])
            (ok (some a))
        → r ≡ ok a
    by_result (ok b) h = ap ok (some-injective _ _ (ok-injective _ _ h))
    by_result (err e) h = cc h

-- What `collect` has of a stream, after what it had.
collect-Whole :
    (size : ℕ) (stream : List (Result Failure Bytes)) (had got : Bytes)
    → collect size stream had ≡ some got
    → (rest : Bytes) × Whole stream rest × (got ≡ had ++ rest)
unfolding collect
collect-Whole size [] had got h = ([], refl, sym (some-injective _ _ h) ∙ sym (append-nil had))
collect-Whole size (err e ∷ stream) had got h = cc h
collect-Whole size (ok chunk ∷ stream) had got h =
    elim (Bool-cases (ltb size (length had + length chunk))) [
      | inl long ↦ cc (rw long at h)
      | inr fits ↦
          let (rest, whole, bytes) = collect-Whole size stream (had ++ chunk) got (rw fits at h) in
          (chunk ++ rest, (rest, refl, whole), bytes ∙ append_assoc had chunk rest)
    ]

module _ {W : Type 0} (machine : Machine W) (recovery : Recovery W) (intent : PendingUpload) where
  -- The copy of a candidate, streamed from a world without an error: its bytes are as many as those of
  -- the intent, and have their hash.
  abbrev pub WasRead : MediaStorage W × ObjectRef → W → Type 0
  WasRead candidate w =
      (stream : List (Result Failure Bytes)) × (got : Bytes) × Succeeds
        (stream_ref machine candidate.0 candidate.1) w stream
      × Whole stream got
      × (length got ≡ intent.size)
      × (recovery.hash_text got ≡ intent.sha256)

  -- The listed copies are those of the first candidates, in their order, and each was read in the world
  -- that the reads before it left.
  abbrev pub ReadInTurn : List (MediaStorage W × ObjectRef) → W → List ObjectRef → Type 0
  ReadInTurn [] w out = out ≡ []
  ReadInTurn (candidate ∷ candidates) w out =
      (out ≡ [])
      ⊎ ((others : List ObjectRef) × (out ≡ candidate.1 ∷ others)
          × WasRead candidate w
          × ReadInTurn candidates (stream_ref machine candidate.0 candidate.1 w).1 others)

  answer : Option (List (Result Failure Bytes)) → Exec W Failure Bool
  answer stream = elim stream [
    | none ↦ pure false
    | some chunks ↦
        pure
          (is_intact recovery.hash_text intent.sha256 intent.size (collect intent.size chunks []))
  ]

  answer_world : (stream : Option (List (Result Failure Bytes))) (v : W) → (answer stream v).1 ≡ v
  unfolding answer
  answer_world none v = pure_world Failure false v
  answer_world (some chunks) v = pure_world Failure _ v

  -- Reading a candidate has no effect but that of its stream.
  read_intact-WasRead :
      (candidate : MediaStorage W × ObjectRef) (w : W)
      → Succeeds (read_intact machine recovery intent candidate) w true
      → WasRead candidate w
        × ((read_intact machine recovery intent candidate w).1
            ≡ (stream_ref machine candidate.0 candidate.1 w).1)
  unfolding read_intact answer
  read_intact-WasRead candidate w h =
      let (stream, asked, rest, world) =
        bind-Succeeds (tried (stream_ref machine candidate.0 candidate.1)) _ w true h in
      (by_stream stream asked _ rest, world ∙ answer_world stream _)
    where
      by_stream :
          (stream : Option (List (Result Failure Bytes)))
          → Succeeds (tried (stream_ref machine candidate.0 candidate.1)) w stream
          → (v : W) → Succeeds (answer stream) v true
          → WasRead candidate w
      by_stream none asked v h = cc (pure-Succeeds false v true h)
      by_stream (some chunks) asked v h =
          let (got, collected, long, hashed) =
            is_intact-some recovery.hash_text intent.sha256 intent.size
              (collect intent.size chunks []) (pure-Succeeds _ v true h) in
          let (rest, whole, same) = collect-Whole intent.size chunks [] got collected in
          (
            chunks,
            got,
            tried-some (stream_ref machine candidate.0 candidate.1) w chunks asked,
            subst (Whole chunks) (sym same) whole,
            long,
            hashed,
          )

  -- Recovery lists the copies of the first candidates, in their order. Each was streamed from that
  -- candidate's own store, in the world that the reads before it left and to the end of its stream, with
  -- the size and the hash of the intent. Reading never adds to the budget of bytes.
  pub read_copies-WasRead :
      (candidates : List (MediaStorage W × ObjectRef)) (budget : ℕ) (w : W)
      (out : List ObjectRef × ℕ)
      → Succeeds (read_copies machine recovery intent candidates budget) w out
      → ReadInTurn candidates w out.0 × (out.1 ≤ budget)
  unfolding read_copies
  read_copies-WasRead [] budget w out h =
      subst (λ o. ReadInTurn [] w o.0 × (o.1 ≤ budget)) (pure-Succeeds ([], budget) w out h)
        (refl, omega arith)
  read_copies-WasRead (candidate ∷ candidates) budget w out h =
      let (intact, asked, rest, _) =
        bind-Succeeds (read_intact machine recovery intent candidate) _ w out h in
      elim (taken (not intact) _ _ _ out rest) [
        | inl (broken, done) ↦
            subst (λ o. ReadInTurn (candidate ∷ candidates) w o.0 × (o.1 ≤ budget))
              (pure-Succeeds ([], budget - intent.size) _ out done) (inl refl, omega arith)
        | inr (whole, more) ↦
            let (others, read, done, _) =
              bind-Succeeds (read_copies machine recovery intent candidates (budget - intent.size))
                _ _ out more in
            let (was_read, same_world) = read_intact-WasRead candidate w (
              subst (λ b. Succeeds (read_intact machine recovery intent candidate) w b)
                (whole_of intact whole) asked) in
            let (in_turn, left) =
              read_copies-WasRead candidates (budget - intent.size) _ others read in
            subst (λ o. ReadInTurn (candidate ∷ candidates) w o.0 × (o.1 ≤ budget))
              (pure-Succeeds (candidate.1 ∷ others.0, others.1) _ out done)
              (
                inr (
                  others.0,
                  refl,
                  was_read,
                  subst (λ v. ReadInTurn candidates v others.0) same_world in_turn,
                ),
                omega (arith, left),
              )
      ]
