-- ===== src/Outbox/Policy.antt =====
-- An admitted upload: the storage that `reserve_upload` (src/outbox.rs) returns writes where the
-- recorded intent requires.
use mathlib.Core.Option.{some-injective}
use divine_upload_server.Prelude.{
  ℕ, ◌≡◌, refl, sym, ap, subst, ◌∙◌, inl, inr, Bool, true, false, Option, none, some, List, [], ◌∷◌,
  map, arith, Bool-cases, &&-true, ltb, not, if◌then◌else◌, ◌&&◌, ◌||◌, ◌==◌, ==_iff,
}
use divine_upload_server.Result.{Result, ok, err, map_err, branch, passes, ok-injective}
use divine_upload_server.Exec.Success.{Succeeds, map_err-ok}
use divine_upload_server.Text.{Text, text, str_eq}
use divine_upload_server.Text.Laws.{str_eq_iff, str_eq_refl}
use divine_upload_server.Text.Signed.{max_i64}
use divine_upload_server.Storage.Objects.{
  ObjectRef, StorageProvider, WriteMode, dual, same_version, same_provider, parse_write_mode,
}
use divine_upload_server.Storage.Media.{
  MediaStorage, b2_bucket, with_mode, new, absent, is_empty, writes_gcs, writes_b2,
}
use divine_upload_server.Query.{first}
use divine_upload_server.Query.Laws.{option_map, first-map, first-passes, first-append-none}
use divine_upload_server.Outbox.Data.{Intent, OutboxTables, find_intent, put_intent, is_intent}
use divine_upload_server.Outbox.Destinations.{
  required_destinations, destinations_configured, is_available, matches_destinations, placed_at,
}
use divine_upload_server.Outbox.Intents.{
  admit, admit_row, same_mode, reserve_upload, upsert_intent, upsert_row, readmitted, new_intent,
}
use divine_upload_server.Resumable.Traits.{Failure, other, intent_conflict}

same_version_sound : (a : Option Text) (b : Text) → same_version a (some b) ≡ true → a ≡ some b
unfolding same_version
same_version_sound none b h = cc
same_version_sound (some a) b h = ap some ((str_eq_iff a b).0 h)

-- Copies in the destinations match them.
pub matches-placed :
    (objects : List ObjectRef) → matches_destinations objects (map placed_at objects) ≡ true
unfolding matches_destinations same_provider
matches-placed [] = refl
matches-placed (o ∷ os) = rw (provider_refl o.provider, str_eq_refl o.bucket) (matches-placed os)
  where
    provider_refl : (p : StorageProvider) → same_provider p p ≡ true
    provider_refl StorageProvider.gcs = refl
    provider_refl StorageProvider.b2 = refl

not-or : (a b : Bool) → (not a || not b) ≡ false → (a ≡ true) × (b ≡ true)
not-or a b h = ground arith

module _ {W : Type 0} where
  -- Another mode of a storage has its buckets.
  with_mode-keeps :
      (s : MediaStorage W) (mode : WriteMode) (t : MediaStorage W)
      → with_mode s mode ≡ ok t
      → (t.mode ≡ mode) × (t.gcs_bucket ≡ s.gcs_bucket) × (b2_bucket t ≡ b2_bucket s)
  unfolding with_mode new b2_bucket
  with_mode-keeps s mode t h =
      let (_, h1) =
        passes (writes_gcs mode && (absent s.gcs || is_empty s.gcs_bucket))
          (other (text "GCS storage configuration required")) _ t h in
      let (_, h2) =
        passes (writes_b2 mode && absent s.b2) (other (text "B2 storage configuration required")) _
          t h1 in
      let e =
        ok-injective (record { mode = mode; gcs = s.gcs; gcs_bucket = s.gcs_bucket; b2 = s.b2 }) t
          h2 in
      (ap (λ x. x.mode) (sym e), ap (λ x. x.gcs_bucket) (sym e), ap b2_bucket (sym e))

  gcs-same :
      (s : MediaStorage W) (bucket : Text)
      → same_version (some s.gcs_bucket) (some bucket) ≡ true
      → s.gcs_bucket ≡ bucket
  gcs-same s bucket h = some-injective _ _ (same_version_sound (some s.gcs_bucket) bucket h)

  -- Configured destinations are those of the storage's own buckets.
  configured-same :
      (s : MediaStorage W) (mode : WriteMode) (gcs_bucket : Text) (b2 : Option Text)
      → is_available s mode gcs_bucket b2 ≡ true
      → required_destinations mode s.gcs_bucket (b2_bucket s)
        ≡ required_destinations mode gcs_bucket b2
  unfolding is_available required_destinations destinations_configured b2_bucket
  configured-same s WriteMode.gcs gcs_bucket b2 h =
      let in_gcs = &&-true (same_version (some s.gcs_bucket) (some gcs_bucket)) true h in
      rw (gcs-same s gcs_bucket in_gcs.0) refl
  configured-same s WriteMode.b2 gcs_bucket none h = cc
  configured-same s WriteMode.b2 gcs_bucket (some b) h =
      let in_b2 = &&-true (same_version (b2_bucket s) (some b)) true h in
      rw (same_version_sound (b2_bucket s) b in_b2.0) refl
  configured-same s dual gcs_bucket none h = cc
  configured-same s dual gcs_bucket (some b) h =
      let (in_gcs, rest) =
        &&-true (same_version (some s.gcs_bucket) (some gcs_bucket))
          (same_version (b2_bucket s) (some b) && true) h in
      let in_b2 = &&-true (same_version (b2_bucket s) (some b)) true rest in
      rw (gcs-same s gcs_bucket in_gcs, same_version_sound (b2_bucket s) b in_b2.0) refl

  -- The storage that an admission returns writes where its intent requires.
  abbrev pub Follows : MediaStorage W → ℕ → Intent → Type 0
  Follows t size row =
      (row.size ≡ size)
      × (parse_write_mode row.write_mode ≡ ok t.mode)
      × (required_destinations t.mode t.gcs_bucket (b2_bucket t)
          ≡ required_destinations t.mode row.gcs_bucket row.b2_bucket)

  admit-Follows :
      (s : MediaStorage W) (size : ℕ) (resume : Bool) (row : Intent) (t : MediaStorage W)
      → admit s size resume row ≡ ok t
      → Follows t size row
  unfolding admit required_destinations b2_bucket
  admit-Follows s size resume row t h = parsed (parse_write_mode row.write_mode) refl h
    where
      with_recorded : WriteMode → Result Failure (MediaStorage W)
      with_recorded mode =
          if not (row.size == size)
            || not (
                is_available s mode row.gcs_bucket row.b2_bucket
                && (resume || same_mode mode s.mode))
          then err intent_conflict
          else map_err (λ e. intent_conflict) (with_mode s mode)

      parsed :
          (r : Result Text WriteMode)
          → parse_write_mode row.write_mode ≡ r
          → elim r [ ok mode ↦ with_recorded mode | err e ↦ err (other e) ] ≡ ok t
          → Follows t size row
      parsed (err e) _ h = cc
      parsed (ok mode) there h =
          elim (branch
            (not (row.size == size)
              || not (
                  is_available s mode row.gcs_bucket row.b2_bucket
                  && (resume || same_mode mode s.mode)))
            _ _ t h) [
              | inl (_, refused) ↦ cc
              | inr (fits, made) ↦
                  let (same_size, compatible) = not-or (row.size == size) _ fits in
                  let (available, _) =
                    &&-true (is_available s mode row.gcs_bucket row.b2_bucket) _ compatible in
                  let (has_mode, gcs, b2) = with_mode-keeps s mode t (map_err-ok _ _ t made) in
                  (
                    (==_iff _ _).0 same_size,
                    there ∙ ap ok (sym has_mode),
                    rw (has_mode, gcs, b2)
                        (configured-same s mode row.gcs_bucket row.b2_bucket available),
                  )
            ]

abbrev replaced : Intent → Intent → Intent
replaced new j = if is_intent new.sha256 new.owner j then new else j

is_intent_refl : (i : Intent) → is_intent i.sha256 i.owner i ≡ true
unfolding is_intent
is_intent_refl i = rw (str_eq_refl i.sha256) (str_eq_refl i.owner)

is_intent_sound :
    (hash owner : Text) (i : Intent)
    → is_intent hash owner i ≡ true
    → (i.sha256 ≡ hash) × (i.owner ≡ owner)
unfolding is_intent
is_intent_sound hash owner i h =
    let (a, b) = &&-true (str_eq i.sha256 hash) (str_eq i.owner owner) h in
    ((str_eq_iff _ _).0 a, (str_eq_iff _ _).0 b)

replaced-key :
    (hash owner : Text) (new j : Intent)
    → is_intent hash owner (replaced new j) ≡ is_intent hash owner j
unfolding is_intent
replaced-key hash owner new j = elim (Bool-cases (is_intent new.sha256 new.owner j)) [
  | inl hit ↦
      let (a, b) = is_intent_sound new.sha256 new.owner j hit in
      rw hit (
        ap (λ x. str_eq x hash && str_eq new.owner owner) (sym a)
        ∙ ap (λ x. str_eq j.sha256 hash && str_eq x owner) (sym b))
  | inr miss ↦ rw miss refl
]

-- An intent of the key of another takes its place.
find_intent-put :
    (hash owner : Text) (intents : List Intent) (new old : Intent)
    → find_intent hash owner intents ≡ some old
    → new.sha256 ≡ hash
    → new.owner ≡ owner
    → find_intent hash owner (put_intent new intents) ≡ some new
unfolding find_intent put_intent
find_intent-put hash owner intents new old found a b =
    let p = is_intent hash owner in
    let hit =
      subst (λ h. is_intent h new.owner old ≡ true) (sym a)
        (subst (λ o. is_intent hash o old ≡ true) (sym b) (first-passes p intents old found)) in
    first-map p (replaced new) (replaced-key hash owner new) intents
    ∙ ap (option_map (replaced new)) found
    ∙ ap some (rw hit refl)

-- A pending intent with the policy of another.
abbrev pub Policy : Intent → Intent → Type 0
Policy row old =
    (row.write_mode ≡ old.write_mode)
    × (row.gcs_bucket ≡ old.gcs_bucket)
    × (row.b2_bucket ≡ old.b2_bucket)
    × (row.completed ≡ false)

-- What the statement returns is what it leaves in the table, and a pending intent keeps its policy.
abbrev pub Recorded : Intent → List Intent → Intent → List Intent → Type 0
Recorded new intents row after =
    (find_intent new.sha256 new.owner after ≡ some row)
    × ((old : Intent)
        → find_intent new.sha256 new.owner intents ≡ some old
        → old.completed ≡ false
        → Policy row old)

readmitted-Policy : (new old : Intent) → old.completed ≡ false → Policy (readmitted new old) old
readmitted-Policy new old pending = rw pending (refl, refl, refl, refl)

readmitted-found :
    (new old : Intent) (intents : List Intent)
    → find_intent new.sha256 new.owner intents ≡ some old
    → find_intent new.sha256 new.owner (put_intent (readmitted new old) intents)
      ≡ some (readmitted new old)
unfolding find_intent
readmitted-found new old intents e =
    let (a, b) = is_intent_sound new.sha256 new.owner old (first-passes _ intents old e) in
    find_intent-put new.sha256 new.owner intents (readmitted new old) old e a b

upsert-Recorded :
    (new : Intent) (intents after : List Intent) (row : Intent)
    → upsert_intent new intents ≡ (some row, after)
    → Recorded new intents row after
unfolding upsert_intent upsert_row first find_intent
upsert-Recorded new intents after row h = found (find_intent new.sha256 new.owner intents) refl h
  where
    found :
        (o : Option Intent)
        → find_intent new.sha256 new.owner intents ≡ o
        → upsert_row new intents o ≡ (some row, after)
        → Recorded new intents row after
    found none e h =
        let same = some-injective _ _ (ap (λ x. x.0) h) in
        (
          subst (λ x. find_intent new.sha256 new.owner x ≡ some row) (ap (λ x. x.1) h)
              (first-append-none _ intents _ e ∙ rw (is_intent_refl new) (ap some same)),
          λ old there. cc (sym e ∙ there),
        )
    found (some old) e h = elim (Bool-cases (old.size == new.size)) [
      | inl hit ↦
          let kept = rw hit at h in
          let same : readmitted new old ≡ row = some-injective _ _ (ap (λ x. x.0) kept) in
          (
            subst (λ x. find_intent new.sha256 new.owner x ≡ some row) (ap (λ x. x.1) kept)
                (readmitted-found new old intents e ∙ ap some same),
            λ first there pending. subst (Policy row) (some-injective _ _ (sym e ∙ there)) (
                subst (λ x. Policy x old) same
                  (readmitted-Policy new old (
                    subst (λ x. x.completed ≡ false) (sym (some-injective _ _ (sym e ∙ there)))
                      pending))),
          )
      | inr miss ↦ cc (rw miss at h)
    ]

module _ {W : Type 0} (storage : MediaStorage W) where
  admit_row-Follows :
      (size : ℕ) (resume : Bool) (new : Intent) (t : OutboxTables)
      (out : Option Intent × List Intent) (s : MediaStorage W)
      → upsert_intent new t.intents ≡ out
      → (admit_row storage size resume t out).0 ≡ ok s
      → (row : Intent) × Recorded new t.intents row (admit_row storage size resume t out).1.intents
        × Follows s size row
  unfolding admit_row
  admit_row-Follows size resume new t (none, after) s e h = cc
  admit_row-Follows size resume new t (some row, after) s e h =
      (row, upsert-Recorded new t.intents after row e, admit-Follows storage size resume row s h)

  -- An admission that succeeds has an intent of this content, owner and size in the table; the storage
  -- that it returns has the mode of the intent, its own buckets are the destinations that the intent
  -- requires, and an intent that was pending keeps the policy that it had.
  pub reserve_upload-Follows :
      (hash : Text) (size : ℕ) (content_type owner : Text) (resume : Bool) (now : ℕ)
      (t : OutboxTables) (s : MediaStorage W)
      → Succeeds (reserve_upload storage hash size content_type owner resume now) t s
      → (row : Intent) × Recorded
          (new_intent storage hash size content_type owner now)
          t.intents
          row
          (reserve_upload storage hash size content_type owner resume now t).1.intents
        × Follows s size row
  unfolding reserve_upload
  reserve_upload-Follows hash size content_type owner resume now t s h =
      let intent = new_intent storage hash size content_type owner now in
      elim (Bool-cases (ltb max_i64 size)) [
        | inl hit ↦ cc (rw hit at h)
        | inr miss ↦ rw miss (
            admit_row-Follows size resume intent t (upsert_intent intent t.intents) s refl
              (rw miss at h))
      ]
