-- ===== src/Outbox/Retained.antt =====
-- What `source_objects` (src/outbox.rs) finds for some bytes that were finalized more than once.
mod Tests
use mathlib.Core.List.{Memᴰ}
use divine_upload_server.Prelude.{
  ◌≡◌, refl, sym, ap, subst, ◌∙◌, inl, inr, Bool, true, false, List, [], ◌∷◌, ◌++◌, ◌||◌, ◌&&◌, All,
  All-append, Bool-cases, any, &&-true,
}
use divine_upload_server.Query.{filter, insert_by, order_by}
use divine_upload_server.Query.Laws.{All-filter, All-order_by, All-query, All-imp, All-Memᴰ, any_of}
use divine_upload_server.Text.Laws.{str_eq_iff}
use divine_upload_server.Processing.{MediaFinalizedV1}
use divine_upload_server.Text.{Text, str_eq}
use divine_upload_server.Storage.Objects.{ObjectRef, StorageProvider, same_provider}
use divine_upload_server.Outbox.Data.{OutboxRow}
use divine_upload_server.Outbox.Sources.{
  event_objects, newer, first_objects, newest_objects, is_of, records_provider, add_provider,
  all_providers, source_objects,
}

module _ {A : Type 0} where
  any-filter : (p : A → Bool) (xs : List A) → any p xs ≡ true → any p (filter p xs) ≡ true
  unfolding filter
  any-filter p [] h = h
  any-filter p (x ∷ xs) h = elim (Bool-cases (p x)) [
    | inl hit ↦ rw (hit, hit) refl
    | inr miss ↦ rw miss (any-filter p xs (rw miss at h))
  ]

  any-left : (p : A → Bool) (xs ys : List A) → any p xs ≡ true → any p (xs ++ ys) ≡ true
  any-left p [] ys h = cc
  any-left p (x ∷ xs) ys h = elim (Bool-cases (p x)) [
    | inl hit ↦ rw hit refl
    | inr miss ↦ rw miss (any-left p xs ys (rw miss at h))
  ]

  any-right : (p : A → Bool) (xs ys : List A) → any p ys ≡ true → any p (xs ++ ys) ≡ true
  any-right p [] ys h = h
  any-right p (x ∷ xs) ys h = elim (Bool-cases (p x)) [
    | inl hit ↦ rw hit refl
    | inr miss ↦ rw miss (any-right p xs ys h)
  ]

  abbrev HasFirst : List A → Type 0
  HasFirst xs = (x : A) × (rest : List A) × (xs ≡ x ∷ rest)

  filter-HasFirst : (p : A → Bool) (xs : List A) → any p xs ≡ true → HasFirst (filter p xs)
  unfolding filter
  filter-HasFirst p [] h = cc
  filter-HasFirst p (x ∷ xs) h = elim (Bool-cases (p x)) [
    | inl hit ↦ rw hit (x, filter p xs, refl)
    | inr miss ↦ rw miss (filter-HasFirst p xs (rw miss at h))
  ]

  insert_by-HasFirst :
      (before : A → A → Bool) (x : A) (ys : List A) → HasFirst (insert_by before x ys)
  unfolding insert_by
  insert_by-HasFirst before x [] = (x, [], refl)
  insert_by-HasFirst before x (y ∷ ys) = elim (Bool-cases (before x y)) [
    | inl hit ↦ rw hit (x, y ∷ ys, refl)
    | inr miss ↦ rw miss (y, insert_by before x ys, refl)
  ]

  order_by-HasFirst :
      (before : A → A → Bool) (xs : List A) → HasFirst xs → HasFirst (order_by before xs)
  unfolding order_by
  order_by-HasFirst before [] (x, rest, e) = cc
  order_by-HasFirst before (x ∷ xs) h = insert_by-HasFirst before x (order_by before xs)

  filter-passes : (p : A → Bool) (xs : List A) → All (λ x. p x ≡ true) (filter p xs)
  unfolding filter
  filter-passes p [] = tt
  filter-passes p (x ∷ xs) = elim (Bool-cases (p x)) [
    | inl hit ↦ rw hit (hit, filter-passes p xs)
    | inr miss ↦ rw miss (filter-passes p xs)
  ]

-- The objects that are found are those of a row that passes the test.
newest_objects-passes :
    (p : OutboxRow → Bool) (rows : List OutboxRow)
    → any p rows ≡ true
    → (r : OutboxRow) × (p r ≡ true) × (newest_objects p rows ≡ event_objects r.payload)
unfolding newest_objects
newest_objects-passes p rows h =
    let (r, rest, e) = order_by-HasFirst newer (filter p rows) (filter-HasFirst p rows h) in
    let (passes, _) =
      subst (All (λ q. p q ≡ true)) e
        (All-order_by _ newer (filter p rows) (filter-passes p rows)) in
    (r, passes, ap first_objects e)

abbrev pub recorded : Text → StorageProvider → OutboxRow → Bool
recorded hash provider r = str_eq r.payload.sha256 hash && records_provider provider r

add_provider-provides :
    (hash : Text) (rows : List OutboxRow) (provider : StorageProvider) (objects : List ObjectRef)
    → any (recorded hash provider) rows ≡ true
    → any (is_of provider) (add_provider hash rows provider objects) ≡ true
unfolding add_provider records_provider
add_provider-provides hash rows provider objects h =
    elim (Bool-cases (any (is_of provider) objects)) [
      | inl there ↦ rw there there
      | inr missing ↦
          let (r, passes, e) = newest_objects-passes (recorded hash provider) rows h in
          let (_, records) =
            &&-true (str_eq r.payload.sha256 hash) (records_provider provider r) passes in
          rw missing (
            any-right (is_of provider) objects _
              (any-filter (is_of provider) _ (ap (any (is_of provider)) e ∙ records)))
    ]

add_provider-keeps :
    (hash : Text) (rows : List OutboxRow) (provider wanted : StorageProvider)
    (objects : List ObjectRef)
    → any (is_of wanted) objects ≡ true
    → any (is_of wanted) (add_provider hash rows provider objects) ≡ true
unfolding add_provider
add_provider-keeps hash rows provider wanted objects h =
    elim (Bool-cases (any (is_of provider) objects)) [
      | inl there ↦ rw there h
      | inr missing ↦ rw missing (any-left (is_of wanted) objects _ h)
    ]

any-imp :
    (p q : OutboxRow → Bool)
    → ((r : OutboxRow) → p r ≡ true → q r ≡ true)
    → (rows : List OutboxRow) → any p rows ≡ true
    → any q rows ≡ true
any-imp p q g [] h = h
any-imp p q g (r ∷ rows) h = elim (Bool-cases (p r)) [
  | inl hit ↦ rw (g r hit) refl
  | inr miss ↦ any-right q (r ∷ []) rows (any-imp p q g rows (rw miss at h))
]

all_providers-provides :
    (hash : Text) (rows : List OutboxRow) (provider : StorageProvider) (r : OutboxRow)
    → any (recorded hash provider) rows ≡ true
    → any (is_of provider) (all_providers hash rows (event_objects r.payload)) ≡ true
unfolding all_providers event_objects
all_providers-provides hash rows StorageProvider.gcs r h =
    add_provider-keeps hash rows StorageProvider.b2 StorageProvider.gcs _
      (add_provider-provides hash rows StorageProvider.gcs _ h)
all_providers-provides hash rows StorageProvider.b2 r h =
    add_provider-provides hash rows StorageProvider.b2 _ h

any_witness :
    {A : Type 0} (p : A → Bool) (xs : List A) → any p xs ≡ true → (x : A) × Memᴰ x xs × (p x ≡ true)
any_witness p [] h = cc
any_witness p (x ∷ xs) h = elim (Bool-cases (p x)) [
  | inl hit ↦ (x, Memᴰ.head refl, hit)
  | inr miss ↦ let (y, there, is) = any_witness p xs (rw miss at h) in (y, Memᴰ.tail there, is)
]

same_provider_sound : (a b : StorageProvider) → same_provider a b ≡ true → a ≡ b
unfolding same_provider
same_provider_sound StorageProvider.gcs StorageProvider.gcs h = refl
same_provider_sound StorageProvider.gcs StorageProvider.b2 h = cc
same_provider_sound StorageProvider.b2 StorageProvider.gcs h = cc
same_provider_sound StorageProvider.b2 StorageProvider.b2 h = refl

same_provider_refl : (a : StorageProvider) → same_provider a a ≡ true
unfolding same_provider
same_provider_refl StorageProvider.gcs = refl
same_provider_refl StorageProvider.b2 = refl

-- The copies that an event records.
abbrev pub copies_of : MediaFinalizedV1 → List ObjectRef
copies_of event = event.source ∷ event.replicas

-- A copy that an event of the table with these bytes records.
abbrev pub RecordedBy : Text → List OutboxRow → ObjectRef → Type 0
RecordedBy hash rows o =
    (r : OutboxRow) × Memᴰ r rows × (r.payload.sha256 ≡ hash) × Memᴰ o (copies_of r.payload)

-- A query for the newest row that asks for the hash answers with copies that are recorded.
newest_objects-RecordedBy :
    (hash : Text) (p : OutboxRow → Bool) (rows : List OutboxRow)
    → ((r : OutboxRow) → p r ≡ true → str_eq r.payload.sha256 hash ≡ true)
    → All (RecordedBy hash rows) (newest_objects p rows)
unfolding newest_objects event_objects
newest_objects-RecordedBy hash p rows asks =
    of_first (order_by newer (filter p rows)) (All-query p newer rows)
  where
    of_first :
        (found : List OutboxRow)
        → All (λ r. Memᴰ r rows × (p r ≡ true)) found
        → All (RecordedBy hash rows) (first_objects found)
    of_first [] h = tt
    of_first (r ∷ found) ((there, is), hs) =
        All-imp (λ o. Memᴰ o (copies_of r.payload)) (RecordedBy hash rows)
          (λ o here. (r, there, (str_eq_iff _ _).0 (asks r is), here)) (copies_of r.payload)
          (All-Memᴰ (copies_of r.payload))

add_provider-RecordedBy :
    (hash : Text) (rows : List OutboxRow) (provider : StorageProvider) (objects : List ObjectRef)
    → All (RecordedBy hash rows) objects
    → All (RecordedBy hash rows) (add_provider hash rows provider objects)
unfolding add_provider
add_provider-RecordedBy hash rows provider objects h =
    elim (Bool-cases (any (is_of provider) objects)) [
      | inl there ↦ rw there h
      | inr missing ↦ rw missing (
          All-append (RecordedBy hash rows) objects _ h (
            All-imp (λ o. RecordedBy hash rows o × (is_of provider o ≡ true)) (RecordedBy hash rows)
              (λ o both. both.0) _
              (All-filter (RecordedBy hash rows) (is_of provider) _ (
                newest_objects-RecordedBy hash (recorded hash provider) rows (λ r is.
                  (&&-true (str_eq r.payload.sha256 hash) (records_provider provider r) is).0)))))
    ]

all_providers-RecordedBy :
    (hash : Text) (rows : List OutboxRow) (objects : List ObjectRef)
    → All (RecordedBy hash rows) objects
    → All (RecordedBy hash rows) (all_providers hash rows objects)
unfolding all_providers
all_providers-RecordedBy hash rows [] h = tt
all_providers-RecordedBy hash rows (o ∷ objects) h =
    add_provider-RecordedBy hash rows StorageProvider.b2 _
      (add_provider-RecordedBy hash rows StorageProvider.gcs (o ∷ objects) h)

recorded-any :
    (hash : Text) (rows : List OutboxRow) (r : OutboxRow) (copy : ObjectRef)
    → Memᴰ r rows
    → r.payload.sha256 ≡ hash
    → Memᴰ copy (copies_of r.payload)
    → any (recorded hash copy.provider) rows ≡ true
unfolding records_provider event_objects is_of
recorded-any hash rows r copy here same there = any_of (recorded hash copy.provider) rows r here (
    rw ((str_eq_iff r.payload.sha256 hash).1 same) (
      any_of (is_of copy.provider) (copies_of r.payload) copy there
        (same_provider_refl copy.provider)))

found-any :
    (hash : Text) (rows : List OutboxRow) (provider : StorageProvider)
    → any (recorded hash provider) rows ≡ true
    → any (is_of provider) (source_objects hash rows) ≡ true
unfolding source_objects
found-any hash rows provider h =
    let (r, _, e) =
      newest_objects-passes (λ r. str_eq r.payload.sha256 hash) rows
        (any-imp (recorded hash provider) (λ r. str_eq r.payload.sha256 hash)
          (λ r passes.
            (&&-true (str_eq r.payload.sha256 hash) (records_provider provider r) passes).0)
          rows h) in
    subst (λ objects. any (is_of provider) (all_providers hash rows objects) ≡ true) (sym e)
      (all_providers-provides hash rows provider r h)

-- When an event of the table with these bytes records a copy, the answer has a copy of the same
-- provider, and every copy of the answer is one that an event of the table with these bytes records.
pub source_objects-retains :
    (hash : Text) (rows : List OutboxRow) (r : OutboxRow) (copy : ObjectRef)
    → Memᴰ r rows
    → r.payload.sha256 ≡ hash
    → Memᴰ copy (copies_of r.payload)
    → ((o : ObjectRef) × Memᴰ o (source_objects hash rows) × (o.provider ≡ copy.provider))
      × All (RecordedBy hash rows) (source_objects hash rows)
unfolding source_objects is_of
source_objects-retains hash rows r copy here same there =
    let (o, found, is) =
      any_witness (is_of copy.provider) (source_objects hash rows)
        (found-any hash rows copy.provider (recorded-any hash rows r copy here same there)) in
    (
      (o, found, same_provider_sound o.provider copy.provider is),
      all_providers-RecordedBy hash rows _
          (newest_objects-RecordedBy hash (λ r. str_eq r.payload.sha256 hash) rows (λ r is. is)),
    )
