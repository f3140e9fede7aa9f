-- ===== src/Inbox/Laws.antt =====
-- How the statements of Inbox/Tables change the row that a key finds.
use divine_upload_server.Query.{first}
use divine_upload_server.Query.Laws.{option_map, first-append, first-append-none, All-imp}
use mathlib.Core.Option.{some-injective}
use divine_upload_server.Prelude.{
  ℕ, ◌≡◌, refl, sym, ap, subst, ◌∙◌, ◌⊎◌, inl, inr, none, some, List, [], ◌∷◌, ◌++◌, map, All,
  All-append, Bool-cases, Option-cases,
}
use divine_upload_server.Query.Keyed
use divine_upload_server.Query.Keyed.{
  find-key, find-map, find-put, find-put-none, find-put-same, IsKeyed-put,
}
use divine_upload_server.Text.{Text, str_eq}
use divine_upload_server.Text.Laws.{str_eq_iff, str_eq_refl}
use divine_upload_server.Inbox.Data.{ProcessingInput}
use divine_upload_server.Inbox.Tables.{Job, find_job, put_job, insert_job, new_job}

-- Each row is the one that its key finds: the key is a primary key.
abbrev pub IsKeyed : List Job → Type 0
IsKeyed jobs = All (λ j. find_job j.processing_job_id jobs ≡ some j) jobs

abbrev job_key : Job → Text
job_key j = j.processing_job_id

pub find_job-id :
    (id : Text) (jobs : List Job) (j : Job) → find_job id jobs ≡ some j → j.processing_job_id ≡ id
unfolding find_job
find_job-id = find-key job_key

-- A change of rows that keeps their keys.
pub find_job-map :
    (f : Job → Job)
    → ((j : Job) → (f j).processing_job_id ≡ j.processing_job_id)
    → (id : Text) (jobs : List Job) → find_job id (map f jobs) ≡ option_map f (find_job id jobs)
unfolding find_job
find_job-map = find-map job_key

pub IsKeyed-map :
    (f : Job → Job)
    → ((j : Job) → (f j).processing_job_id ≡ j.processing_job_id)
    → (jobs : List Job) → IsKeyed jobs
    → IsKeyed (map f jobs)
unfolding find_job
IsKeyed-map = Keyed.IsKeyed-map job_key

-- The row that `put_job` leaves in the place of `k`.
abbrev pub placed : Job → Job → Job
placed = Keyed.placed job_key

pub find_job-put_job :
    (j k : Job) (id : Text) (jobs : List Job)
    → find_job id jobs ≡ some k
    → find_job id (put_job j jobs) ≡ some (placed j k)
unfolding put_job find_job
find_job-put_job = find-put job_key

pub find_job-put_job-none :
    (j : Job) (id : Text) (jobs : List Job)
    → find_job id jobs ≡ none
    → find_job id (put_job j jobs) ≡ none
unfolding put_job find_job
find_job-put_job-none = find-put-none job_key

-- The row that was put is found.
pub find_job-put_job-same :
    (j k : Job) (id : Text) (jobs : List Job)
    → find_job id jobs ≡ some k
    → j.processing_job_id ≡ k.processing_job_id
    → find_job id (put_job j jobs) ≡ some j
unfolding put_job find_job
find_job-put_job-same = find-put-same job_key

pub IsKeyed-put_job : (j : Job) (jobs : List Job) → IsKeyed jobs → IsKeyed (put_job j jobs)
unfolding put_job find_job
IsKeyed-put_job = IsKeyed-put job_key

module _ (now : ℕ) (id : Text) (input : ProcessingInput) (jobs : List Job) where
  pub inserted_present : (k : Job) → find_job id jobs ≡ some k → insert_job now id input jobs ≡ jobs
  unfolding insert_job
  inserted_present k e = rw (insert_job, e) refl

  inserted_absent :
      find_job id jobs ≡ none → insert_job now id input jobs ≡ jobs ++ new_job now id input ∷ []
  unfolding insert_job
  inserted_absent e = rw (insert_job, e) refl

  appended_finds :
      (other : Text) (k : Job)
      → find_job other jobs ≡ some k
      → find_job other (jobs ++ new_job now id input ∷ []) ≡ some k
  unfolding find_job
  appended_finds other k e = first-append _ jobs _ k e

  -- An insertion leaves the rows that are there.
  pub find_job-insert_job :
      (other : Text) (k : Job)
      → find_job other jobs ≡ some k
      → find_job other (insert_job now id input jobs) ≡ some k
  find_job-insert_job other k e = elim (Option-cases (find_job id jobs)) [
    | inl absent ↦ ap (find_job other) (inserted_absent absent) ∙ appended_finds other k e
    | inr present ↦ ap (find_job other) (inserted_present present.0 present.1) ∙ e
  ]

  fresh_found :
      find_job id jobs ≡ none
      → find_job id (jobs ++ new_job now id input ∷ []) ≡ some (new_job now id input)
  unfolding find_job first
  fresh_found absent = first-append-none _ jobs _ absent ∙ rw (str_eq_refl id) refl

  appended_fresh :
      (other : Text) (k : Job)
      → find_job other jobs ≡ none
      → find_job other (jobs ++ new_job now id input ∷ []) ≡ some k
      → k ≡ new_job now other input
  unfolding find_job first
  appended_fresh other k absent e =
      let found = sym (first-append-none _ jobs _ absent) ∙ e in
      elim (Bool-cases (str_eq id other)) [
        | inl hit ↦
            sym (some-injective _ _ (rw hit at found))
            ∙ ap (λ x. new_job now x input) ((str_eq_iff id other).0 hit)
        | inr miss ↦ cc (rw miss at found)
      ]

  -- After it the key finds the row that was there, or the new one.
  pub insert_job-finds :
      (find_job id (insert_job now id input jobs) ≡ find_job id jobs)
      ⊎ ((find_job id jobs ≡ none)
          × (find_job id (insert_job now id input jobs) ≡ some (new_job now id input)))
  insert_job-finds = elim (Option-cases (find_job id jobs)) [
    | inl absent ↦ inr (absent, ap (find_job id) (inserted_absent absent) ∙ fresh_found absent)
    | inr present ↦ inl (ap (find_job id) (inserted_present present.0 present.1))
  ]

  pub IsKeyed-insert_job : IsKeyed jobs → IsKeyed (insert_job now id input jobs)
  IsKeyed-insert_job keyed = elim (Option-cases (find_job id jobs)) [
    | inl absent ↦ subst IsKeyed (sym (inserted_absent absent)) (
        All-append _ jobs _ (All-imp _ _ (λ j e. appended_finds _ j e) jobs keyed)
          (fresh_found absent, tt))
    | inr present ↦ subst IsKeyed (sym (inserted_present present.0 present.1)) keyed
  ]

  -- A key that found nothing finds nothing, or the new row under its own key.
  pub insert_job-fresh :
      (other : Text) (k : Job)
      → find_job other jobs ≡ none
      → find_job other (insert_job now id input jobs) ≡ some k
      → k ≡ new_job now other input
  insert_job-fresh other k absent e = elim (Option-cases (find_job id jobs)) [
    | inl missing ↦
        appended_fresh other k absent (ap (find_job other) (sym (inserted_absent missing)) ∙ e)
    | inr present ↦
        cc (sym absent ∙ ap (find_job other) (sym (inserted_present present.0 present.1)) ∙ e)
  ]
