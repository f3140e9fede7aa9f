-- ===== src/Inbox/Deadlines.antt =====
-- What every job row is at any time, by the database's clock.
use mathlib.Core.Option.{some-injective}
use divine_upload_server.Prelude.{
  ℕ, ◌≤◌, ◌<◌, ◌≡◌, refl, sym, subst, ◌∙◌, inl, inr, true, Option, none, some, List, arith, All,
  Option-cases, ◌||◌, if◌then◌else◌,
}
use divine_upload_server.Text.{Text}
use divine_upload_server.Storage.Objects.{ObjectRef}
use divine_upload_server.Processing.{Encoding}
use divine_upload_server.Inbox.Data.{JobState, pending, running, completed, blocked}
use divine_upload_server.Inbox.Tables.{Job, Tables, find_job, is_active, same_state, least}
use divine_upload_server.Inbox.Store.{ClaimReads, is_claimable}
use divine_upload_server.Inbox.Laws.{IsKeyed}
use divine_upload_server.Inbox.Rows.{RowRules}
use divine_upload_server.Inbox.History.{
  Operation, Fits, run, run-Carries, claimable_active, held_running,
}

-- The lease of a row of this state: only a running row has one, and it ends by the attempt's deadline.
abbrev pub LeaseFits : JobState → Option ℕ → Option ℕ → Type 0
LeaseFits running (some until) (some deadline) = until ≤ deadline
LeaseFits running _ _ = ⊥
LeaseFits _ none _ = Unit
LeaseFits _ (some until) _ = ⊥

-- Only a completed row has a manifest, and it has one.
abbrev pub ManifestFits : {A : Type 0} → JobState → Option A → Type 0
ManifestFits completed (some m) = Unit
ManifestFits completed none = ⊥
ManifestFits _ (some m) = ⊥
ManifestFits _ none = Unit

pub record IsGood (j : Job) : Type 0 where
  pub attempts : j.attempts_in_revision ≤ 3
  pub lease : LeaseFits j.state j.lease_until j.attempt_deadline
  pub manifest : ManifestFits j.state j.manifest

-- The clock does not go back between the two times that a claim writes.
abbrev pub InOrder : ClaimReads → Type 0
InOrder reads = reads.lease_time ≤ reads.deadline_time

lease_revised :
    (s : JobState) (l d : Option ℕ)
    → LeaseFits s l d
    → LeaseFits (if same_state s completed || same_state s blocked then pending else s) l d
unfolding same_state
lease_revised pending l d h = h
lease_revised running l d h = h
lease_revised completed none d h = tt
lease_revised completed (some l) d h = h
lease_revised blocked none d h = tt
lease_revised blocked (some l) d h = h

manifest_revised :
    (A : Type 0) (s : JobState)
    → ManifestFits {A = A}
        (if same_state s completed || same_state s blocked then pending else s)
        none
unfolding same_state
manifest_revised A pending = tt
manifest_revised A running = tt
manifest_revised A completed = tt
manifest_revised A blocked = tt

-- An active row has no manifest.
manifest_none :
    {A : Type 0} (s : JobState) (m : Option A) → is_active s ≡ true → ManifestFits s m → m ≡ none
unfolding is_active same_state
manifest_none s none active h = refl
manifest_none pending (some m) active h = absurd h
manifest_none running (some m) active h = absurd h
manifest_none completed (some m) active h = cc
manifest_none blocked (some m) active h = absurd h

-- A renewed lease ends by the deadline.
lease_renewed :
    (s : JobState) (l d : Option ℕ) (end : ℕ)
    → same_state s running ≡ true
    → LeaseFits s l d
    → LeaseFits s (some (least end d)) d
unfolding same_state least
lease_renewed running (some l) (some d) end live h = omega arith
lease_renewed running (some l) none end live h = absurd h
lease_renewed running none d end live h = absurd h
lease_renewed pending l d end live h = cc
lease_renewed completed l d end live h = cc
lease_renewed blocked l d end live h = cc

attempts_left :
    (reads : ClaimReads) (j : Job) → is_claimable reads j ≡ true → j.attempts_in_revision < 3
unfolding is_claimable
attempts_left reads j h = ground arith

abbrev StaysGood : Job → Job → Type 0
StaysGood j k = IsGood j → IsGood k

StaysGood-rules : RowRules InOrder StaysGood
StaysGood-rules = record {
  kept = λ j g. g;
  joined = λ i j k f g h. g (f h);
  revises = λ j g. record {
    attempts = omega arith;
    lease = lease_revised j.state j.lease_until j.attempt_deadline g.lease;
    manifest = manifest_revised ObjectRef j.state;
  };
  blocks = λ j active g. record {
    attempts = g.attempts;
    lease = tt;
    manifest =
        subst (ManifestFits blocked) (sym (manifest_none j.state j.manifest active g.manifest)) tt;
  };
  leases = λ reads j sane claimable g. record {
    attempts = omega (arith, attempts_left reads j claimable);
    lease = omega (arith, sane);
    manifest =
        subst (ManifestFits running)
          (sym (manifest_none j.state j.manifest (claimable_active reads j claimable) g.manifest))
          tt;
  };
  renews = λ lease now later last j held g. record {
    attempts = g.attempts;
    lease =
        lease_renewed j.state j.lease_until j.attempt_deadline _
          (held_running lease now later j held) g.lease;
    manifest = g.manifest;
  };
  finishes = λ lease marker now later j held g. record {
    attempts = g.attempts;
    lease = tt;
    manifest = tt;
  };
}

abbrev pub AllGood : Tables → Type 0
AllGood t = (id : Text) (j : Job) → find_job id t.jobs ≡ some j → IsGood j

-- In a table with unique keys whose rows are good, whatever transactions are run, by anybody, with a
-- clock that does not go back within a claim: every
-- job has had at most three attempts at its revision, only a running job has a lease, no lease goes
-- past the deadline of its attempt, and the jobs with a manifest are the completed ones.
pub run-AllGood :
    (e : Encoding) (ops : List Operation) (t : Tables)
    → All (Fits InOrder) ops
    → IsKeyed t.jobs
    → AllGood t
    → AllGood (run e ops t)
run-AllGood e ops t fits keyed good id k found =
    let carries = run-Carries InOrder StaysGood StaysGood-rules e ops t fits keyed in
    elim (Option-cases (find_job id t.jobs)) [
      | inl absent ↦
          let (now, input, stays) = carries.fresh id k absent found in
          stays (record { attempts = omega arith; lease = tt; manifest = tt })
      | inr present ↦
          let (k', found', stays) = carries.row id present.0 present.1 in
          subst IsGood (some-injective _ _ (sym found' ∙ found))
            (stays (good id present.0 present.1))
    ]
