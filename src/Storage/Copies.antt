-- ===== src/Storage/Copies.antt =====
-- What a write that succeeded has stored, and where.
use mathlib.Core.Option.{some-injective}
use divine_upload_server.Prelude.{
  ℕ, String, List, [], length, not, ◌||◌, ==_iff, sym, arith, ◌≡◌, refl, ap, subst, ◌∙◌, inl, inr,
  Bool, false, Option, none, some, ◌==◌,
}
use divine_upload_server.Result.{
  Result, ok, err, ok_or-some, branch, ok-injective, bind-ok, both-hold, not_refused_if,
}
use divine_upload_server.Exec.{Exec, pure, call, ◌>>◌}
use divine_upload_server.Exec.Success.{
  Succeeds, bind-Succeeds, lift-Succeeds, pure-Succeeds, last-Succeeds, call-Succeeds, pure_world,
  lift_world, call_world,
}
use divine_upload_server.Text.{Text, text, str_eq}
use divine_upload_server.Text.Laws.{str_eq_iff}
use divine_upload_server.Text.Signed.{ℤ, parse_i64}
use divine_upload_server.Storage.Objects.{ObjectRef, StorageProvider, same_provider}
use divine_upload_server.Storage.Media.{
  GcsCalls, StoredObject, GcsError, response, no_response, GcsObject, Machine, MediaStorage,
}
use divine_upload_server.Storage.Reads.{
  gcs_stat, verify, verify_gcs, stat_answer, failure, exact_generation, same_bytes,
}
use divine_upload_server.Storage.Streams.{Whole, Whole-map_err, bounded-Whole}
use divine_upload_server.Storage.Writes.{put_gcs, upload_gcs, settle_upload}
use divine_upload_server.Resumable.Traits.{Failure, other, Bytes}

-- A copy in the storage's bucket of Google Cloud Storage.
abbrev pub InGcs : {W : Type 0} → MediaStorage W → ObjectRef → Type 0
InGcs s r = (r.provider ≡ StorageProvider.gcs) × (r.bucket ≡ s.gcs_bucket)

stat_answer-InGcs :
    {W : Type 0} (s : MediaStorage W) (key : Text) (r : Result GcsError GcsObject)
    (o : StoredObject)
    → stat_answer s.gcs_bucket key r ≡ ok (some o)
    → InGcs s o.reference
unfolding stat_answer
stat_answer-InGcs s key (ok g) o h =
    subst (InGcs s) (ap (λ x. x.reference) (some-injective _ _ (ok-injective _ _ h))) (refl, refl)
stat_answer-InGcs s key (err (response code)) o h = elim (branch (code == 404) _ _ _ h) [
  | inl (_, none_there) ↦ cc (ok-injective _ _ none_there)
  | inr (_, broken) ↦ cc
]
stat_answer-InGcs s key (err no_response) o h = cc

module _ {W : Type 0} (machine : Machine W) (s : MediaStorage W) where
  gcs_stat-InGcs :
      (key : Text) (w : W) (o : StoredObject)
      → Succeeds (gcs_stat machine s key) w (some o)
      → InGcs s o.reference
  unfolding gcs_stat
  gcs_stat-InGcs key w o h =
      let (gcs, _, answered, _) = lift-Succeeds _ _ _ _ h in
      stat_answer-InGcs s key (gcs.get_object s.gcs_bucket key w).0 o answered

  settle-InGcs :
      (key : Text) (r : Result GcsError GcsObject) (w : W) (copy : ObjectRef × Bool)
      → Succeeds (settle_upload machine s key r) w copy
      → InGcs s copy.0
  unfolding settle_upload
  settle-InGcs key (ok o) w copy h =
      subst (λ c. InGcs s c.0) (pure-Succeeds _ w copy h) (refl, refl)
  settle-InGcs key (err e) w copy h =
      let (found, stat_ok, rest, _) = bind-Succeeds (gcs_stat machine s key) _ w copy h in
      let (existing, there, done, _) = lift-Succeeds _ _ _ copy rest in
      subst (λ c. InGcs s c.0) (pure-Succeeds _ _ copy done)
        (gcs_stat-InGcs key w existing (stat_ok ∙ ap ok (ok_or-some _ _ there)))

  -- A copy that was read, by its version and as the last thing before a world, with the number and the
  -- hash of some bytes.
  abbrev pub ReadBack : W → ObjectRef → Bytes → Type 0
  ReadBack after r bytes =
      (gcs : GcsCalls W) × (version : Text) × (generation : ℤ) × (v : W) × (stream : List
        (Result GcsError Bytes))
      × (got : Bytes) × (s.gcs ≡ some gcs)
      × (r.version ≡ some version)
      × (parse_i64 version ≡ some generation)
      × Succeeds (gcs.download_streamed_object r.bucket r.key generation) v stream
      × ((gcs.download_streamed_object r.bucket r.key generation v).1 ≡ after)
      × Whole stream got
      × (length got ≡ length bytes)
      × (machine.sha256 got ≡ machine.sha256 bytes)

  exact_version :
      (missing invalid : String) (r : ObjectRef) (generation : ℤ)
      → exact_generation missing invalid r ≡ ok generation
      → (version : Text) × (r.version ≡ some version) × (parse_i64 version ≡ some generation)
  unfolding exact_generation
  exact_version missing invalid r generation h =
      let (version, there, parsed) = bind-ok _ _ _ h in
      (version, ok_or-some _ _ there, ok_or-some _ _ parsed)

  same-length :
      (message : String) (expected got : Bytes) (total : ℕ) {u : Unit}
      → same_bytes machine s message expected got total ≡ ok u
      → (total ≡ length expected) × (machine.sha256 got ≡ machine.sha256 expected)
  unfolding same_bytes
  same-length message expected got total h =
      let (long, same) = both-hold (total == length expected) _ (
        not_refused_if
          (not (total == length expected)
            || not (str_eq (machine.sha256 got) (machine.sha256 expected)))
          (other (text message)) h) in
      ((==_iff _ _).0 long, (str_eq_iff _ _).0 same)

  verify_gcs-ReadBack :
      (r : ObjectRef) (bytes : Bytes) (w : W)
      → Succeeds (verify_gcs machine s r bytes) w tt
      → ReadBack (verify_gcs machine s r bytes w).1 r bytes
  unfolding verify_gcs
  verify_gcs-ReadBack r bytes w h =
      let (generation, exact, h1, w1) = lift-Succeeds _ _ w tt h in
      let (gcs, there, h2, w2) = lift-Succeeds _ _ w tt h1 in
      let (stream, asked, h3, w3) =
        bind-Succeeds
          (call (failure "GCS verification read failed")
            (gcs.download_streamed_object r.bucket r.key generation))
          _ w tt h2 in
      let (got, collected, h4, w4) = lift-Succeeds _ _ _ tt h3 in
      let (version, its, parsed) = exact_version _ _ r generation exact in
      let (rest, whole, bytes_are, count) = bounded-Whole _ _ _ [] 0 got collected in
      let (long, same) = same-length _ bytes got.0 got.1 (last-Succeeds _ _ tt h4) in
      (
        gcs,
        version,
        generation,
        w,
        stream,
        rest,
        ok_or-some _ _ there,
        its,
        parsed,
        call-Succeeds _ (gcs.download_streamed_object r.bucket r.key generation) w stream asked,
        sym (
            w1
            ∙ w2
            ∙ w3
            ∙ w4
            ∙ lift_world _ _
            ∙ call_world _ (gcs.download_streamed_object r.bucket r.key generation) w),
        Whole-map_err _ stream rest whole,
        omega (arith, count, long),
        ap machine.sha256 (sym bytes_are) ∙ same,
      )

  verify-ReadBack :
      (r : ObjectRef) (bytes : Bytes) (w : W)
      → InGcs s r
      → Succeeds (verify machine s r bytes) w tt
      → ReadBack (verify machine s r bytes w).1 r bytes
  unfolding verify same_provider
  verify-ReadBack r bytes w (provider, _) h =
      let first = ap (λ p. same_provider p StorageProvider.b2) provider in
      rw first (verify_gcs-ReadBack r bytes w (rw first at h))

  upload-Succeeds :
      (key : Text) (bytes : Bytes) (content_type : Text) (owner : Option Text) (w : W)
      (copy : ObjectRef × Bool)
      → Succeeds (upload_gcs machine s key bytes content_type owner) w copy
      → InGcs s copy.0
        × ReadBack (upload_gcs machine s key bytes content_type owner w).1 copy.0 bytes
  unfolding upload_gcs
  upload-Succeeds key bytes content_type owner w copy h =
      let (gcs, _, h1, w1) = lift-Succeeds _ _ _ copy h in
      let (r, _, h2, w2) = bind-Succeeds _ _ _ copy h1 in
      let (c, settled, h3, w3) = bind-Succeeds (settle_upload machine s key r) _ _ copy h2 in
      let (u, verified, done, w4) = bind-Succeeds (verify machine s c.0 bytes) _ _ copy h3 in
      let in_gcs = settle-InGcs key r _ c settled in
      subst
        (λ x.
          InGcs s x.0 × ReadBack (upload_gcs machine s key bytes content_type owner w).1 x.0 bytes)
        (pure-Succeeds _ _ copy done)
        (
          in_gcs,
          subst (λ v. ReadBack v c.0 bytes) (sym (w1 ∙ w2 ∙ w3 ∙ w4 ∙ pure_world Failure c _))
              (verify-ReadBack c.0 bytes _ in_gcs verified),
        )

  -- A write in Google Cloud Storage that succeeds returns a copy in the storage's bucket, and the last
  -- thing that it has done is to read that copy by its version: the stream had no error, and its bytes
  -- have the number and the hash of those that were written.
  pub put_gcs-ReadBack :
      (key : Text) (bytes : Bytes) (content_type : Text) (owner : Option Text) (w : W)
      (copy : ObjectRef × Bool)
      → Succeeds (put_gcs machine s key bytes content_type owner) w copy
      → InGcs s copy.0 × ReadBack (put_gcs machine s key bytes content_type owner w).1 copy.0 bytes
  unfolding put_gcs
  put_gcs-ReadBack key bytes content_type owner w copy h =
      let (existing, stat_ok, rest, world) = bind-Succeeds (gcs_stat machine s key) _ w copy h in
      let (in_gcs, back) = found existing stat_ok rest in
      (in_gcs, subst (λ v. ReadBack v copy.0 bytes) (sym world) back)
    where
      following : Option StoredObject → Exec W Failure (ObjectRef × Bool)
      following existing = elim existing [
        | some o ↦ (verify machine s o.reference bytes >> pure (o.reference, false))
        | none ↦ upload_gcs machine s key bytes content_type owner
      ]

      found :
          (existing : Option StoredObject)
          → Succeeds (gcs_stat machine s key) w existing
          → Succeeds (following existing) (gcs_stat machine s key w).1 copy
          → InGcs s copy.0
            × ReadBack (following existing (gcs_stat machine s key w).1).1 copy.0 bytes
      found none stat_ok rest = upload-Succeeds key bytes content_type owner _ copy rest
      found (some o) stat_ok rest =
          let (u, verified, done, world) =
            bind-Succeeds (verify machine s o.reference bytes) _ _ copy rest in
          let in_gcs = gcs_stat-InGcs key w o stat_ok in
          subst
            (λ x.
              InGcs s x.0 × ReadBack (following (some o) (gcs_stat machine s key w).1).1 x.0 bytes)
            (pure-Succeeds _ _ copy done)
            (
              in_gcs,
              subst (λ v. ReadBack v o.reference bytes)
                  (sym (world ∙ pure_world Failure (o.reference, false) _))
                  (verify-ReadBack o.reference bytes _ in_gcs verified),
            )
