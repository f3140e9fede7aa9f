-- ===== src/Inbox/Rows.antt =====
-- What each operation of the inbox does to one row of the job table, for any relation of rows that
-- the changes of the statements respect.
use divine_upload_server.Query.{filter, order_by}
use divine_upload_server.Query.Laws.{option_map, All-filter, All-order_by}
use mathlib.Core.Option.{some-injective}
use divine_upload_server.Prelude.{
  ℕ, zero, suc, ◌≡◌, refl, sym, ap, subst, ◌∙◌, inl, inr, Bool, true, Option, none, some, List, [],
  ◌∷◌, map, take, arith, All, Bool-cases, Option-cases, any,
}
use divine_upload_server.Text.{Text, str_eq}
use divine_upload_server.Text.Laws.{str_eq_iff}
use divine_upload_server.Storage.Objects.{ObjectRef}
use divine_upload_server.Inbox.Data.{Lease, ProcessingInput, blocked}
use divine_upload_server.Inbox.Tables.{
  Job, new_job, same_state, is_active, find_job, put_job, insert_job,
}
use divine_upload_server.Inbox.Store.{
  revised, ClaimReads, is_exhausted, is_claimable, by_age, block, block_exhausted, leased, is_held,
  renewed, finished, budget_reason,
}
use divine_upload_server.Inbox.Laws.{
  IsKeyed, find_job-id, find_job-map, IsKeyed-map, placed, find_job-put_job, IsKeyed-put_job,
  find_job-insert_job, IsKeyed-insert_job, find_job-put_job-none, insert_job-fresh,
}

abbrev pub blocked_row : Job → Job
blocked_row j = record j {
  state = blocked;
  failure_reason = some budget_reason;
  lease_until = none;
}

-- A relation of rows that every statement respects.
pub record RowRules (Sane : ClaimReads → Type 0) (R : Job → Job → Type 0) : Type 0 where
  pub kept : (j : Job) → R j j
  pub joined : (i j k : Job) → R i j → R j k → R i k
  pub revises : (j : Job) → R j (revised j)
  pub blocks : (j : Job) → is_active j.state ≡ true → R j (blocked_row j)
  pub leases :
      (reads : ClaimReads) (j : Job)
      → Sane reads
      → is_claimable reads j ≡ true
      → R j (leased reads j)
  pub renews :
      (lease : Lease) (now later last : ℕ) (j : Job)
      → is_held lease now later j ≡ true
      → R j (renewed last j)
  pub finishes :
      (lease : Lease) (marker : ObjectRef) (now later : ℕ) (j : Job)
      → is_held lease now later j ≡ true
      → R j (finished marker j)

-- The table keeps its keys, and each row that was there is there, changed as `R` says.
pub record Carries (R : Job → Job → Type 0) (jobs after : List Job) : Type 0 where
  pub keyed : IsKeyed jobs → IsKeyed after
  pub row :
      (id : Text) (j : Job)
      → find_job id jobs ≡ some j
      → (k : Job) × (find_job id after ≡ some k) × R j k
  pub fresh :
      (id : Text) (k : Job)
      → find_job id jobs ≡ none
      → find_job id after ≡ some k
      → (now : ℕ) × (input : ProcessingInput) × R (new_job now id input) k

-- Two rows of one key are one row.
same_row :
    (jobs : List Job) (id other : Text) (j k : Job)
    → find_job id jobs ≡ some j
    → find_job other jobs ≡ some k
    → k.processing_job_id ≡ j.processing_job_id
    → k ≡ j
same_row jobs id other j k here there same =
    let same_key = sym (find_job-id other jobs k there) ∙ same ∙ find_job-id id jobs j here in
    some-injective _ _ (sym there ∙ ap (λ x. find_job x jobs) same_key ∙ here)

none_found : {X : Type 0} {k : Job} → none ≡ some k → X
none_found e = cc

any-All :
    {A : Type 0} (P : A → Type 0) (p : A → Bool) (xs : List A)
    → All P xs
    → any p xs ≡ true
    → (x : A) × (p x ≡ true) × P x
any-All P p [] h e = cc
any-All P p (x ∷ xs) (h, hs) e = elim (Bool-cases (p x)) [
  | inl hit ↦ (x, hit, h)
  | inr miss ↦ any-All P p xs hs (rw miss at e)
]

All-take : {A : Type 0} (P : A → Type 0) (n : ℕ) (xs : List A) → All P xs → All P (take n xs)
All-take P zero xs h = tt
All-take P (suc n) [] h = tt
All-take P (suc n) (x ∷ xs) (h, hs) = (h, All-take P n xs hs)

block-key : (ids : List Text) (j : Job) → (block ids j).processing_job_id ≡ j.processing_job_id
block-key ids j = elim (Bool-cases (any (λ id. str_eq j.processing_job_id id) ids)) [
  | inl hit ↦ rw hit refl
  | inr miss ↦ rw miss refl
]

module _ (ids : List Text) (jobs : List Job) (id : Text) (j : Job)
    (active : is_active j.state ≡ true) where
  block_active : (k : Job) → block ids k ≡ j → k ≡ j
  unfolding is_active same_state
  block_active k e = elim (Bool-cases (any (λ i. str_eq k.processing_job_id i) ids)) [
    | inl hit ↦ cc (subst (λ x. is_active x.state ≡ true) (sym (rw hit at e)) active)
    | inr miss ↦ rw miss at e
  ]

  block-finds : (o : Option Job) → option_map (block ids) o ≡ some j → o ≡ some j
  block-finds none e = cc
  block-finds (some k) e = ap some (block_active k (some-injective _ _ e))

-- An active row after the blocking was as it is before it.
pub block_exhausted-finds :
    (reads : ClaimReads) (jobs : List Job) (id : Text) (j : Job)
    → is_active j.state ≡ true
    → find_job id (block_exhausted reads jobs) ≡ some j
    → find_job id jobs ≡ some j
unfolding block_exhausted
block_exhausted-finds reads jobs id j active e =
    let ids =
      map (λ j. j.processing_job_id)
        (take 64 (order_by by_age (filter (is_exhausted reads) jobs))) in
    block-finds ids jobs id j active (find_job id jobs)
      (sym (find_job-map (block ids) (block-key ids) id jobs) ∙ e)

module _ (Sane : ClaimReads → Type 0) (R : Job → Job → Type 0) (rules : RowRules Sane R) where
  pub Carries-same : (jobs : List Job) → Carries R jobs jobs
  Carries-same jobs = record {
    keyed = λ h. h;
    row = λ id j e. (j, e, rules.kept j);
    fresh = λ id k absent e. none_found (sym absent ∙ e);
  }

  -- One row is replaced by a later one of the same key.
  pub Carries-joined :
      (jobs mid after : List Job) → Carries R jobs mid → Carries R mid after → Carries R jobs after
  Carries-joined jobs mid after a b = record {
    keyed = λ h. b.keyed (a.keyed h);
    row = λ id j e.
        let (k, ek, rk) = a.row id j e in
        let (l, el, rl) = b.row id k ek in (l, el, rules.joined j k l rk rl);
    fresh = λ id l absent el. elim (Option-cases (find_job id mid)) [
      | inl missing ↦ b.fresh id l missing el
      | inr present ↦
          let (now, input, rk) = a.fresh id present.0 absent present.1 in
          let (l', el', rl) = b.row id present.0 present.1 in
          (
            now,
            input,
            rules.joined _ present.0 l rk
                (subst (R present.0) (some-injective _ _ (sym el' ∙ el)) rl),
          )
    ];
  }

  pub Carries-put_job :
      (jobs : List Job) (id : Text) (j j' : Job)
      → find_job id jobs ≡ some j
      → j'.processing_job_id ≡ j.processing_job_id
      → R j j'
      → Carries R jobs (put_job j' jobs)
  Carries-put_job jobs id j j' here same r = record {
    keyed = IsKeyed-put_job j' jobs;
    row = λ other k e. (placed j' k, find_job-put_job j' k other jobs e, related other k e);
    fresh = λ other k absent e. none_found (sym (find_job-put_job-none j' other jobs absent) ∙ e);
  }
    where
      related : (other : Text) (k : Job) → find_job other jobs ≡ some k → R k (placed j' k)
      related other k e = elim (Bool-cases (str_eq k.processing_job_id j'.processing_job_id)) [
        | inl hit ↦
            let k_is_j = same_row jobs id other j k here e ((str_eq_iff _ _).0 hit ∙ same) in
            rw hit (subst (λ x. R x j') (sym k_is_j) r)
        | inr miss ↦ rw miss (rules.kept k)
      ]

  pub Carries-insert_job :
      (now : ℕ) (id : Text) (input : ProcessingInput) (jobs : List Job)
      → Carries R jobs (insert_job now id input jobs)
  Carries-insert_job now id input jobs = record {
    keyed = IsKeyed-insert_job now id input jobs;
    row = λ other j e. (j, find_job-insert_job now id input jobs other j e, rules.kept j);
    fresh = λ other k absent e. (
      now,
      input,
      subst (R (new_job now other input))
          (sym (insert_job-fresh now id input jobs other k absent e)) (rules.kept _),
    );
  }

  -- The rows that are blocked are the ones that were found exhausted.
  blocks_active :
      (reads : ClaimReads) (jobs : List Job) (ids : List Text) (id : Text) (k : Job)
      → All
          (λ i.
            (x : Job) × (x.processing_job_id ≡ i)
            × (find_job x.processing_job_id jobs ≡ some x)
            × (is_active x.state ≡ true))
          ids
      → find_job id jobs ≡ some k
      → R k (block ids k)
  blocks_active reads jobs ids id k actives e =
      elim (Bool-cases (any (λ i. str_eq k.processing_job_id i) ids)) [
        | inl hit ↦
            let (i, named, (x, key, found, active)) = any-All _ _ ids actives hit in
            let k_is_x =
              same_row jobs x.processing_job_id id x k found e
                ((str_eq_iff _ _).0 named ∙ sym key) in
            rw hit (rules.blocks k (subst (λ y. is_active y.state ≡ true) (sym k_is_x) active))
        | inr miss ↦ rw miss (rules.kept k)
      ]

  active_ids :
      (reads : ClaimReads) (jobs rows : List Job)
      → All (λ x. (find_job x.processing_job_id jobs ≡ some x) × (is_exhausted reads x ≡ true)) rows
      → All
          (λ i.
            (x : Job) × (x.processing_job_id ≡ i)
            × (find_job x.processing_job_id jobs ≡ some x)
            × (is_active x.state ≡ true))
          (map (λ j. j.processing_job_id) rows)
  unfolding is_exhausted
  active_ids reads jobs [] h = tt
  active_ids reads jobs (x ∷ rows) ((found, exhausted), h) =
      ((x, refl, found, ground arith), active_ids reads jobs rows h)

  pub Carries-block_exhausted :
      (reads : ClaimReads) (jobs : List Job)
      → IsKeyed jobs
      → Carries R jobs (block_exhausted reads jobs)
  unfolding block_exhausted
  Carries-block_exhausted reads jobs keyed =
      let spent = take 64 (order_by by_age (filter (is_exhausted reads) jobs)) in
      let ids = map (λ j. j.processing_job_id) spent in
      let actives = active_ids reads jobs spent (
        All-take _ 64 _ (All-order_by _ by_age _ (All-filter _ (is_exhausted reads) jobs keyed))) in
      record {
        keyed = IsKeyed-map (block ids) (block-key ids) jobs;
        row = λ id k e. (
          block ids k,
          find_job-map (block ids) (block-key ids) id jobs ∙ ap (option_map (block ids)) e,
          blocks_active reads jobs ids id k actives e,
        );
        fresh = λ id k absent e. none_found (
            sym (
              find_job-map (block ids) (block-key ids) id jobs ∙ ap (option_map (block ids)) absent)
            ∙ e);
      }
