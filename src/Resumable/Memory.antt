-- ===== src/Resumable/Memory.antt =====
-- An in-memory store and backend with a stub hash, as in the program's own tests: the concrete
-- input of the tests, and proof that the contract of the manager can be met.
use divine_upload_server.Prelude.{
  ℕ, ◌+◌, ◌≡◌, refl, sym, ap, ◌∙◌, Bool, true, false, inl, inr, Option, none, some, List, [], ◌∷◌,
  ◌++◌, arith, ◌==◌, if◌then◌else◌, Bool-cases,
}
use mathlib.Core.Option.{some-injective}
use divine_upload_server.Result.{ok}
use divine_upload_server.Text.{Text, text, str_eq}
use divine_upload_server.Text.Laws.{str_eq_iff, str_eq_refl}
use divine_upload_server.Resources.{not_present}
use divine_upload_server.Resumable.Data.{UploadSession, in_progress, completed}
use divine_upload_server.Resumable.Traits.{
  SessionStore, ResumableBackend, SessionOutbox, Host, Bytes,
}
use divine_upload_server.Resumable.Sessions.{ResumableManager}
use divine_upload_server.Resumable.Contract.{Sessions, StoreLaws, Contract}

pub record Memory : Type 0 where
  pub sessions : List UploadSession
  pub blobs : List (Text × Bytes)
  pub receipts : List Text
  pub clock : ℕ

abbrev find : List UploadSession → Text → Option UploadSession
find [] id = none
find (s ∷ ss) id = if str_eq s.upload_id id then some s else find ss id

abbrev without : Text → List UploadSession → List UploadSession
without id [] = []
without id (s ∷ ss) = if str_eq s.upload_id id then without id ss else s ∷ without id ss

abbrev blob : List (Text × Bytes) → Text → Bytes
blob [] key = []
blob ((k, b) ∷ rest) key = if str_eq k key then b else blob rest key

abbrev listed : Text → List Text → Bool
listed id [] = false
listed id (r ∷ rs) = if str_eq r id then true else listed id rs

abbrev pub stored : Sessions Memory
stored w = find w.sessions

abbrev pub store : SessionStore Memory
store = record {
  lock = λ id w. (ok tt, w);
  unlock = λ id w. w;
  load = λ id w. (ok (find w.sessions id), w);
  save = λ s w. (ok tt, record w { sessions = s ∷ w.sessions });
  delete = λ id w. (ok tt, record w { sessions = without id w.sessions });
}

abbrev pub backend : ResumableBackend Memory
backend = record {
  is_committed_retry = λ s r c w. (ok false, w);
  final_objects = λ s w. (ok [], w);
  begin_finalization = λ s w. (ok tt, w);
  finalize = λ s w. (ok true, w);
  create_session = λ id owner content_type size w.
      (ok (record { session_url = text "memory"; temp_object = id }), w);
  upload_chunk = λ s r c w. (
    ok (if r.end + 1 == r.total then completed else in_progress),
    record w { blobs = (s.temp_object, blob w.blobs s.temp_object ++ c) ∷ w.blobs },
  );
  cancel_session = λ s w. (ok tt, w);
  stream_object = λ key w. (ok (ok (blob w.blobs key) ∷ []), w);
  delete_object = λ key w. (ok tt, record w { blobs = (key, []) ∷ w.blobs });
}

abbrev pub outbox : SessionOutbox Memory
outbox = record {
  has_session_receipt = λ id hash size owner w. (ok (listed id w.receipts), w);
  enqueue_completed_session =
      λ id hash size owner objects w. (ok tt, record w { receipts = id ∷ w.receipts });
  forget_session_receipt = λ id w. (ok tt, record w { receipts = [] });
}

-- Sixty-four times the letter a.
abbrev pub stub_hash : Text
stub_hash = text "aaaaaaaaaaaaaaaaaaaaaaaaaaaaaaaaaaaaaaaaaaaaaaaaaaaaaaaaaaaaaaaa"

abbrev pub host : Host Memory
host = record {
  now_epoch_secs = λ w. (w.clock, w);
  random_bytes = λ n w. (text "7", w);
  acquire = λ w. (ok tt, w);
  release = λ w. w;
  env = λ name. not_present;
  sha256 = λ b. stub_hash;
  hex = λ b. b;
  rfc3339 = λ t. text "then";
}

abbrev pub manager : ResumableManager Memory
manager = record {
  backend = backend;
  store = store;
  upload_base_url = text "https://up";
  cdn_base_url = text "https://cdn";
  chunk_size = 8388608;
  session_ttl_secs = 86400;
  outbox = some outbox;
}

find_keyed :
    (ss : List UploadSession) (id : Text) (s : UploadSession)
    → find ss id ≡ some s
    → s.upload_id ≡ id
find_keyed [] id s e = cc
find_keyed (t ∷ ss) id s e = elim (Bool-cases (str_eq t.upload_id id)) [
  | inl hit ↦
      ap (λ x. x.upload_id) (sym (some-injective _ _ (rw hit at e))) ∙ (str_eq_iff _ _).0 hit
  | inr miss ↦ find_keyed ss id s (rw miss at e)
]

find-without :
    (gone : Text) (ss : List UploadSession) (id : Text)
    → find (without gone ss) id ≡ (if str_eq gone id then none else find ss id)
find-without gone [] id = ground arith
find-without gone (t ∷ ss) id = ground (
  arith,
  str_eq_iff t.upload_id gone,
  str_eq_iff t.upload_id id,
  str_eq_iff gone id,
  find-without gone ss id,
)

store_laws : StoreLaws store stored
store_laws = record {
  lock_quiet = λ id w j. refl;
  unlock_quiet = λ id w j. refl;
  load_quiet = λ id w j. refl;
  load_reads = λ id w o e. cc;
  keyed = λ w. find_keyed w.sessions;
  save_effect = λ s w id. elim (Bool-cases (str_eq s.upload_id id)) [
    | inl hit ↦ inr (sym ((str_eq_iff _ _).0 hit), (s.revision, rw hit))
    | inr miss ↦ inl (rw miss)
  ];
  save_done = λ s w e. (s.revision, rw (str_eq_refl s.upload_id));
  delete_effect = λ gone w id. elim (Bool-cases (str_eq gone id)) [
    | inl hit ↦ inr (sym ((str_eq_iff _ _).0 hit), find-without gone w.sessions id ∙ rw hit)
    | inr miss ↦ inl (find-without gone w.sessions id ∙ rw miss)
  ];
}

pub memory-Contract : Contract manager host stored
memory-Contract = record {
  store = store_laws;
  backend = record {
    retry_quiet = λ s r c w j. refl;
    objects_quiet = λ s w j. refl;
    begin_quiet = λ s w j. refl;
    finalize_quiet = λ s w j. refl;
    create_quiet = λ id owner content_type size w j. refl;
    chunk_quiet = λ s r c w j. refl;
    cancel_quiet = λ s w j. refl;
    stream_quiet = λ key w j. refl;
    delete_quiet = λ key w j. refl;
  };
  outbox = record {
    receipt_quiet = λ id hash size owner w j. refl;
    enqueue_quiet = λ id hash size owner objects w j. refl;
    forget_quiet = λ id w j. refl;
  };
  host_quiet = record {
    now_quiet = λ w j. refl;
    random_quiet = λ n w j. refl;
    acquire_quiet = λ w j. refl;
    release_quiet = λ w j. refl;
  };
}
