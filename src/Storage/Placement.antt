-- ===== src/Storage/Placement.antt =====
-- A write in two stores puts its copies where an upload of its mode must be.
use divine_upload_server.Prelude.{
  ◌≡◌, refl, sym, ap, subst, ◌∙◌, ◌⊎◌, inl, inr, Bool, true, false, not, Option, none, some, List,
  [], ◌∷◌, ◌++◌, map, if◌then◌else◌,
}
use divine_upload_server.Result.{ok, ok_or-some}
use divine_upload_server.Exec.{Exec, pure, lift, act, ◌>>=◌, holding}
use divine_upload_server.Exec.Success.{
  Succeeds, bind-Succeeds, lift-Succeeds, pure-Succeeds, holding-Succeeds, taken,
}
use divine_upload_server.Text.{Text, text}
use divine_upload_server.Storage.Objects.{ObjectRef, StorageProvider, WriteMode, dual}
use divine_upload_server.Storage.Media.{
  WriteResult, B2Store, Machine, MediaStorage, b2_of, b2_bucket, writes_gcs, writes_b2,
}
use divine_upload_server.Storage.Writes.{
  Stored, nothing_stored, and_then, put, put_gcs, store_copies, guarded, inherited_metadata,
  winning_metadata,
}
use divine_upload_server.Storage.Copies.{InGcs, put_gcs-ReadBack}
use divine_upload_server.Outbox.Destinations.{Destination, required_destinations, placed_at}
use divine_upload_server.Resumable.Traits.{Failure, Bytes}

-- What is relied on of the B2 store: a write that succeeds returns a reference into its own bucket.
pub record B2Laws {W : Type 0} (b2 : B2Store W) : Type 0 where
  pub put_where :
      (key : Text) (bytes : Bytes) (content_type : Text) (owner : Option Text) (w : W)
      (copy : ObjectRef × Bool)
      → Succeeds (b2.put key bytes content_type owner) w copy
      → placed_at copy.0 ≡ (StorageProvider.b2, b2.bucket)

-- The two stores, as the mode asks of them, make up the required destinations.
pub both_required :
    (mode : WriteMode) (bucket : Text) (b2_bucket : Option Text) (first second : List Destination)
    → ((writes_gcs mode ≡ false) × (first ≡ []))
      ⊎ ((writes_gcs mode ≡ true) × (first ≡ (StorageProvider.gcs, bucket) ∷ []))
    → ((writes_b2 mode ≡ false) × (second ≡ []))
      ⊎ ((writes_b2 mode ≡ true)
          × ((b : Text) × (b2_bucket ≡ some b) × (second ≡ (StorageProvider.b2, b) ∷ [])))
    → required_destinations mode bucket b2_bucket ≡ ok (first ++ second)
unfolding required_destinations writes_gcs writes_b2
both_required WriteMode.gcs bucket b first second (inl (no_gcs, _)) h = cc
both_required WriteMode.gcs bucket b first second (inr (_, f)) (inl (_, g)) = rw (f, g) refl
both_required WriteMode.gcs bucket b first second (inr _) (inr (no_b2, _)) = cc
both_required WriteMode.b2 bucket b first second (inr (no_gcs, _)) h = cc
both_required WriteMode.b2 bucket b first second (inl (_, f)) (inl (no_b2, _)) = cc
both_required WriteMode.b2 bucket b first second (inl (_, f)) (inr (_, (c, e, g))) =
    rw (e, f, g) refl
both_required dual bucket b first second (inl (no_gcs, _)) h = cc
both_required dual bucket b first second (inr (_, f)) (inl (no_b2, _)) = cc
both_required dual bucket b first second (inr (_, f)) (inr (_, (c, e, g))) = rw (e, f, g) refl

not-true : (b : Bool) → not b ≡ true → b ≡ false
not-true true e = cc
not-true false e = refl

not-not : (b : Bool) → not b ≡ false → b ≡ true
not-not true e = refl
not-not false e = cc

module _ {W : Type 0} (machine : Machine W) (s : MediaStorage W) where
  guarded-Succeeds :
      {A : Type 0} (key : Text) (body : Exec W Failure A) (w : W) (a : A)
      → Succeeds (guarded machine s key body) w a
      → (v : W) × Succeeds body v a
  unfolding guarded
  guarded-Succeeds key body w a h =
      let (url, _, rest, _) = bind-Succeeds (act machine.database_url) _ w a h in
      with_url url _ rest
    where
      with_url :
          (url : Option Text) (v : W)
          → Succeeds
              (elim url [
                | none ↦ body
                | some url ↦
                    let name = text "divine-upload-canonical:" ++ key in
                    holding (machine.lock url name) (machine.unlock name) body
              ])
              v
              a
          → (v : W) × Succeeds body v a
      with_url none v h = (v, h)
      with_url (some url) v h = (_, (holding-Succeeds _ _ body v a h).0)

  -- What the first of the two writes has done.
  abbrev FirstDone : Stored → Type 0
  FirstDone stored =
      ((writes_gcs s.mode ≡ false) × (stored ≡ ([], false)))
      ⊎ ((writes_gcs s.mode ≡ true)
          × ((copy : ObjectRef × Bool) × InGcs s copy.0 × (stored ≡ (copy.0 ∷ [], copy.1))))

  first-Succeeds :
      (key : Text) (bytes : Bytes) (content_type : Text) (owner : Option Text) (w : W)
      (stored : Stored)
      → Succeeds
          (if not (writes_gcs s.mode) then pure nothing_stored else do
            copy ← put_gcs machine s key bytes content_type owner
            pure (and_then nothing_stored copy))
          w
          stored
      → FirstDone stored
  first-Succeeds key bytes content_type owner w stored h =
      elim (taken (not (writes_gcs s.mode)) _ _ w stored h) [
        | inl (skipped, done) ↦ inl (not-true _ skipped, sym (pure-Succeeds _ w stored done))
        | inr (written, rest) ↦
            let (copy, put_ok, done, _) =
              bind-Succeeds (put_gcs machine s key bytes content_type owner) _ w stored rest in
            let (where_it_is, _) =
              put_gcs-ReadBack machine s key bytes content_type owner w copy put_ok in
            inr (not-not _ written, (copy, where_it_is, sym (pure-Succeeds _ _ stored done)))
      ]

  abbrev SecondDone : Stored → Stored → Type 0
  SecondDone first stored =
      ((writes_b2 s.mode ≡ false) × (stored ≡ first))
      ⊎ ((writes_b2 s.mode ≡ true)
          × ((b2 : B2Store W) × (s.b2 ≡ some b2)
              × ((copy : ObjectRef × Bool) × (placed_at copy.0 ≡ (StorageProvider.b2, b2.bucket))
                  × (stored ≡ and_then first copy))))

  second-Succeeds :
      (key : Text) (bytes : Bytes) (metadata : Text × Option Text) (first : Stored) (w : W)
      (stored : Stored)
      → ((b2 : B2Store W) → s.b2 ≡ some b2 → B2Laws b2)
      → Succeeds
          (if not (writes_b2 s.mode) then pure first else do
            b2 ← lift (b2_of s)
            copy ← b2.put key bytes metadata.0 metadata.1
            pure (and_then first copy))
          w
          stored
      → SecondDone first stored
  second-Succeeds key bytes metadata first w stored laws h =
      elim (taken (not (writes_b2 s.mode)) _ _ w stored h) [
        | inl (skipped, done) ↦ inl (not-true _ skipped, sym (pure-Succeeds _ w stored done))
        | inr (written, rest) ↦
            let (b2, there, rest', _) = lift-Succeeds _ _ w stored rest in
            let here = ok_or-some _ _ there in
            let (copy, put_ok, done, _) =
              bind-Succeeds (b2.put key bytes metadata.0 metadata.1) _ w stored rest' in
            inr (
              not-not _ written,
              (
                b2,
                here,
                (
                  copy,
                  (laws b2 here).put_where key bytes metadata.0 metadata.1 w copy put_ok,
                  sym (pure-Succeeds _ _ stored done),
                ),
              ),
            )
      ]

  b2_bucket-some : (b2 : B2Store W) → s.b2 ≡ some b2 → b2_bucket s ≡ some b2.bucket
  unfolding b2_bucket
  b2_bucket-some b2 e = rw (b2_bucket, e) refl

  -- The copies are where the mode requires them.
  abbrev pub Placed : List ObjectRef → Type 0
  Placed objects =
      required_destinations s.mode s.gcs_bucket (b2_bucket s) ≡ ok (map placed_at objects)

  placed : (first stored : Stored) → FirstDone first → SecondDone first stored → Placed stored.0
  placed first stored (inl (no_gcs, e)) (inl (no_b2, g)) =
      subst (λ x. Placed x.0) (sym (g ∙ e))
        (both_required s.mode s.gcs_bucket (b2_bucket s) [] [] (inl (no_gcs, refl))
          (inl (no_b2, refl)))
  placed first stored (inl (no_gcs, e)) (inr (b, (b2, here, (copy, there, g)))) =
      subst (λ x. Placed x.0) (sym (g ∙ ap (λ x. and_then x copy) e))
        (both_required s.mode s.gcs_bucket (b2_bucket s) [] (placed_at copy.0 ∷ [])
          (inl (no_gcs, refl))
          (inr (b, (b2.bucket, b2_bucket-some b2 here, ap (λ x. x ∷ []) there))))
  placed first stored (inr (a, (copy, there, e))) (inl (no_b2, g)) =
      subst (λ x. Placed x.0) (sym (g ∙ e))
        (both_required s.mode s.gcs_bucket (b2_bucket s) (placed_at copy.0 ∷ []) []
          (inr (a, λ i. (there.0 i, there.1 i) ∷ [])) (inl (no_b2, refl)))
  placed first stored (inr (a, (copy, there, e))) (inr (b, (b2, here, (second, there', g)))) =
      subst (λ x. Placed x.0) (sym (g ∙ ap (λ x. and_then x second) e))
        (both_required s.mode s.gcs_bucket (b2_bucket s) (placed_at copy.0 ∷ [])
          (placed_at second.0 ∷ []) (inr (a, λ i. (there.0 i, there.1 i) ∷ []))
          (inr (b, (b2.bucket, b2_bucket-some b2 here, ap (λ x. x ∷ []) there'))))

  -- A write that succeeds returns its copies in the order and the buckets that its mode requires, when a
  -- B2 store returns references into its own bucket.
  pub put-Succeeds :
      (key : Text) (bytes : Bytes) (content_type : Text) (owner : Option Text) (w : W)
      (r : WriteResult)
      → ((b2 : B2Store W) → s.b2 ≡ some b2 → B2Laws b2)
      → Succeeds (put machine s key bytes content_type owner) w r
      → Placed r.objects
  unfolding put store_copies
  put-Succeeds key bytes content_type owner w r laws h =
      let (v, h0) = guarded-Succeeds key _ w r h in
      let (metadata, _, h1, _) =
        bind-Succeeds (inherited_metadata machine s key content_type owner) _ v r h0 in
      let (first, first_ok, h2, _) = bind-Succeeds _ _ _ r h1 in
      let (winning, _, h3, _) = bind-Succeeds (winning_metadata machine s metadata key) _ _ r h2 in
      let (both, both_ok, done, _) = bind-Succeeds _ _ _ r h3 in
      let same = pure-Succeeds _ _ r done in
      subst (λ x. Placed x.objects) same
        (placed first both (first-Succeeds key bytes metadata.0 metadata.1 _ first first_ok)
          (second-Succeeds key bytes winning first _ both laws both_ok))
