-- ===== src/Inbox/History.antt =====
-- Any sequence of transactions on the inbox, of any workers and producers, and what it does to a row.
use divine_upload_server.Prelude.{
  ℕ, ◌≤◌, ◌≡◌, refl, sym, ◌∙◌, true, some, List, [], ◌∷◌, ◌+◌, arith, All,
}
use divine_upload_server.Result.{Result, ok, err}
use divine_upload_server.Text.{Text}
use divine_upload_server.Storage.Objects.{ObjectRef}
use divine_upload_server.Processing.{MediaFinalizedV1, Encoding}
use divine_upload_server.Inbox.Data.{Lease, InboxError, JobState, completed, running}
use divine_upload_server.Inbox.Tables.{Job, Tables, find_job, is_active, same_state}
use divine_upload_server.Inbox.Store.{
  ClaimReads, accept, claim, renew, complete, is_claimable, is_held,
}
use divine_upload_server.Inbox.Laws.{IsKeyed}
use divine_upload_server.Inbox.Rows.{RowRules, Carries, Carries-same, Carries-joined}
use divine_upload_server.Inbox.Carries.{
  accept-Carries, claim-Carries, renew-Carries, complete-Carries,
}

pub data Operation : Type 0 where
  accepting : ℕ → MediaFinalizedV1 → Text → Operation
  claiming : ClaimReads → Operation
  renewing : Lease → ℕ → ℕ → ℕ → Operation
  completing : Lease → ObjectRef → ℕ → ℕ → Operation

-- The tables after a transaction that answers a value with new tables, or fails.
abbrev pub committed : {A : Type 0} → Tables → Result InboxError (A × Tables) → Tables
committed t (ok p) = p.1
committed t (err e) = t

abbrev pub accepted : Tables → Result InboxError Tables → Tables
accepted t (ok t') = t'
accepted t (err e) = t

unfoldable pub serve : Encoding → Operation → Tables → Tables
serve e (accepting now event key) t = accepted t (accept e now event key t)
serve e (claiming reads) t = committed t (claim reads t)
serve e (renewing lease now later last) t = (renew lease now later last t).1
serve e (completing lease marker now later) t = committed t (complete lease marker now later t)

unfoldable pub run : Encoding → List Operation → Tables → Tables
run e [] t = t
run e (op ∷ ops) t = run e ops (serve e op t)

abbrev pub Fits : (ClaimReads → Type 0) → Operation → Type 0
Fits Sane (claiming reads) = Sane reads
Fits Sane _ = Unit

module _ (Sane : ClaimReads → Type 0) (R : Job → Job → Type 0) (rules : RowRules Sane R)
    (e : Encoding) where
  committed-Carries :
      {A : Type 0} (t : Tables) (r : Result InboxError (A × Tables))
      → ((a : A) (t' : Tables) → r ≡ ok (a, t') → Carries R t.jobs t'.jobs)
      → Carries R t.jobs (committed t r).jobs
  committed-Carries t (ok p) f = f p.0 p.1 refl
  committed-Carries t (err x) f = Carries-same Sane R rules t.jobs

  accepted-Carries :
      (t : Tables) (r : Result InboxError Tables)
      → ((t' : Tables) → r ≡ ok t' → Carries R t.jobs t'.jobs)
      → Carries R t.jobs (accepted t r).jobs
  accepted-Carries t (ok t') f = f t' refl
  accepted-Carries t (err x) f = Carries-same Sane R rules t.jobs

  serve-Carries :
      (op : Operation) (t : Tables)
      → Fits Sane op
      → IsKeyed t.jobs
      → Carries R t.jobs (serve e op t).jobs
  unfolding serve
  serve-Carries (accepting now event key) t fits keyed =
      accepted-Carries t _ (λ t' h. accept-Carries Sane R rules e now event key t t' h)
  serve-Carries (claiming reads) t fits keyed =
      committed-Carries t _ (λ a t' h. claim-Carries Sane R rules reads t t' a fits keyed h)
  serve-Carries (renewing lease now later last) t fits keyed =
      renew-Carries Sane R rules lease now later last t
  serve-Carries (completing lease marker now later) t fits keyed =
      committed-Carries t _
        (λ b t' h. complete-Carries Sane R rules lease marker now later t t' b h)

  pub run-Carries :
      (ops : List Operation) (t : Tables)
      → All (Fits Sane) ops
      → IsKeyed t.jobs
      → Carries R t.jobs (run e ops t).jobs
  unfolding run
  run-Carries [] t fits keyed = Carries-same Sane R rules t.jobs
  run-Carries (op ∷ ops) t (f, fits) keyed =
      let one = serve-Carries op t f keyed in
      Carries-joined Sane R rules t.jobs _ _ one
        (run-Carries ops (serve e op t) fits (one.keyed keyed))

-- The same work with its counters not turned back, and once completed, the same completion for as
-- long as the revision stands.
pub record Advances (j k : Job) : Type 0 where
  pub key : k.processing_job_id ≡ j.processing_job_id
  pub input : k.input ≡ j.input
  pub revision : j.input_revision ≤ k.input_revision
  pub generation : j.lease_generation ≤ k.lease_generation
  pub final :
      j.state ≡ completed
      → k.input_revision ≡ j.input_revision
      → (k.state ≡ completed)
        × (k.manifest ≡ j.manifest)
        × (k.lease_generation ≡ j.lease_generation)

abbrev pub Any : ClaimReads → Type 0
Any reads = Unit

not_active : (s : JobState) → is_active s ≡ true → s ≡ completed → ⊥
unfolding is_active same_state
not_active s active e = cc (rw e at active)

not_running : (s : JobState) → same_state s running ≡ true → s ≡ completed → ⊥
unfolding same_state
not_running s live e = cc (rw e at live)

pub claimable_active :
    (reads : ClaimReads) (j : Job) → is_claimable reads j ≡ true → is_active j.state ≡ true
unfolding is_claimable
claimable_active reads j h = ground arith

pub held_running :
    (lease : Lease) (now later : ℕ) (j : Job)
    → is_held lease now later j ≡ true
    → same_state j.state running ≡ true
unfolding is_held
held_running lease now later j h = ground arith

no_fixed_point : (n : ℕ) → n + 1 ≡ n → ⊥
no_fixed_point n e = omega (arith, e)

pub Advances-rules : RowRules Any Advances
Advances-rules = record {
  kept = λ j. ground arith;
  joined = λ i j k a b. record {
    key = b.key ∙ a.key;
    input = b.input ∙ a.input;
    revision = omega (arith, a.revision, b.revision);
    generation = omega (arith, a.generation, b.generation);
    final = λ done same.
        let mid : j.input_revision ≡ i.input_revision =
          omega (arith, a.revision, b.revision, same) in
        let (s, m, g) = a.final done mid in
        let (s', m', g') = b.final s (same ∙ sym mid) in (s', m' ∙ m, g' ∙ g);
  };
  revises = λ j. record {
    key = refl;
    input = refl;
    revision = omega arith;
    generation = omega arith;
    final = λ done same. absurd (no_fixed_point j.input_revision same);
  };
  blocks = λ j active. record {
    key = refl;
    input = refl;
    revision = omega arith;
    generation = omega arith;
    final = λ done same. absurd (not_active j.state active done);
  };
  leases = λ reads j sane claimable. record {
    key = refl;
    input = refl;
    revision = omega arith;
    generation = omega arith;
    final = λ done same. absurd (not_active j.state (claimable_active reads j claimable) done);
  };
  renews = λ lease now later last j held. record {
    key = refl;
    input = refl;
    revision = omega arith;
    generation = omega arith;
    final = λ done same. absurd (not_running j.state (held_running lease now later j held) done);
  };
  finishes = λ lease marker now later j held. record {
    key = refl;
    input = refl;
    revision = omega arith;
    generation = omega arith;
    final = λ done same. absurd (not_running j.state (held_running lease now later j held) done);
  };
}

module _ (e : Encoding) where
  -- Any operations.
  pub Fits-Any : (ops : List Operation) → All (Fits Any) ops
  Fits-Any [] = tt
  Fits-Any (accepting now event key ∷ ops) = (tt, Fits-Any ops)
  Fits-Any (claiming reads ∷ ops) = (tt, Fits-Any ops)
  Fits-Any (renewing lease now later last ∷ ops) = (tt, Fits-Any ops)
  Fits-Any (completing lease marker now later ∷ ops) = (tt, Fits-Any ops)

  -- In a table with unique keys, whatever transactions are run, by anybody and with any clock: a job stays in the table with its
  -- input; its revision and its lease generation never go back; and a completed revision stays
  -- completed, by the same generation and with the same manifest.
  pub run-Advances :
      (ops : List Operation) (t : Tables) (id : Text) (j : Job)
      → IsKeyed t.jobs
      → find_job id t.jobs ≡ some j
      → (k : Job) × (find_job id (run e ops t).jobs ≡ some k) × Advances j k
  run-Advances ops t id j keyed here =
      (run-Carries Any Advances Advances-rules e ops t (Fits-Any ops) keyed).row id j here

  pub run-IsKeyed :
      (ops : List Operation) (t : Tables) → IsKeyed t.jobs → IsKeyed (run e ops t).jobs
  run-IsKeyed ops t keyed =
      (run-Carries Any Advances Advances-rules e ops t (Fits-Any ops) keyed).keyed keyed
