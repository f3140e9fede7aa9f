-- ===== src/Provider/Tests.antt =====
-- A database in memory that always answers, and the session store on it.
use divine_upload_server.Prelude.{
  ℕ, ◌+◌, ◌&&◌, any, if◌then◌else◌, ◌≡◌, refl, true, false, none, some, List, [], ◌∷◌,
}
use divine_upload_server.Exec.{pure, ◌>>=◌}
use divine_upload_server.Exec.Success.{Succeeds, Halts}
use divine_upload_server.Query.{first, filter}
use divine_upload_server.Text.{Text, text, str_eq, starts_with}
use divine_upload_server.Result.{ok, err}
use divine_upload_server.Text.Signed.{pos}
use divine_upload_server.Resources.{not_present}
use divine_upload_server.Storage.Objects.{ObjectRef, StorageProvider, WriteMode}
use divine_upload_server.Storage.Media.{GcsCalls, no_response, Machine}
use divine_upload_server.Provider.Staged.{Surroundings, MediaResumableBackend}
use divine_upload_server.Provider.Backend.{
  same_i64, is_chunk, find_chunk, reserve_chunk, is_nothing, of_upload, is_staged_key,
  delete_object,
}
use divine_upload_server.Provider.Chunks.{reserve_chunk-reserve_chunk, delete_object-Unresolved}
use divine_upload_server.Resumable.Data.{UploadSession}
use divine_upload_server.Resumable.Contract.{Sessions, StoreLaws}
use divine_upload_server.Provider.Tables.{
  ChunkRow, Coordination, Database, find_session, is_deleted, statement, reading,
}
use divine_upload_server.Provider.Store.{
  ProviderSessionStore, save, save_row, write_session, update_session, session_store,
}
use divine_upload_server.Provider.Refines.{
  view, DatabaseLaws, RevisionLaws, session_store-StoreLaws, save-save-Conflicts,
}

abbrev memory : Database Coordination
memory = record { tables = λ w. w; set = λ t w. t; available = λ w. (true, w) }

abbrev no_legacy : Sessions Coordination
no_legacy w id = none

memory_laws : DatabaseLaws memory no_legacy
memory_laws = record {
  tables_set = λ t w. refl;
  legacy_set = λ t w id. refl;
  available_same = λ w. (refl, λ id. refl);
}

abbrev store : ProviderSessionStore Coordination
store = record { database = some memory; locks = none; legacy = none }

session_store-StoreLaws_example :
    StoreLaws (session_store store) (view memory no_legacy)
    × RevisionLaws (session_store store) (view memory no_legacy)
session_store-StoreLaws_example =
    session_store-StoreLaws memory no_legacy memory_laws none none tt (λ w id. refl)
      (λ w id s h. cc)

abbrev session : UploadSession
session = record {
  revision = 3;
  chunk_size = 8;
  upload_id = text "up_1";
  owner = text "o";
  final_sha256 = text "h";
  declared_size = 10;
  content_type = text "video/mp4";
  file_name = none;
  expires_at_epoch_secs = 100;
  next_offset = 0;
  session_url = text "staged-v1";
  session_token = text "tok";
  temp_object = text "t";
  storage_complete = false;
  finalized_object = none;
}

abbrev tables : Coordination
tables = record {
  sessions = record { revision = 3; state = session; cleanup_checked_at = 0 } ∷ [];
  tombstones = [];
  chunks = [];
  finals = [];
}

saved : Succeeds (save store (record session { next_offset = 8 })) tables tt
unfolding save save_row ◌>>=◌ statement write_session update_session find_session is_deleted first
    str_eq text
saved = refl

-- Another replica saves what it has read before.
save-save-Conflicts_example :
    ¬ Succeeds (save store session) (save store (record session { next_offset = 8 }) tables).1 tt
save-save-Conflicts_example =
    save-save-Conflicts memory no_legacy memory_laws none none tt (λ w id. refl)
      (record session { next_offset = 8 }) session tables refl refl saved

-- The first chunk of an upload is reserved.
first_reserved : (reserve_chunk (text "t") (pos 0) (pos 7) (text "a") tables).0 ≡ 1
unfolding reserve_chunk find_chunk first is_chunk
first_reserved = refl

reserve_chunk-reserve_chunk_example :
    reserve_chunk
      (text "t")
      (pos 0)
      (pos 7)
      (text "b")
      (reserve_chunk (text "t") (pos 0) (pos 7) (text "a") tables).1
    ≡ (if same_i64 (pos 7) (pos 7) && str_eq (text "a") (text "b")
        then (1, (reserve_chunk (text "t") (pos 0) (pos 7) (text "a") tables).1)
        else (0, (reserve_chunk (text "t") (pos 0) (pos 7) (text "a") tables).1))
reserve_chunk-reserve_chunk_example =
    reserve_chunk-reserve_chunk (text "t") (pos 0) (pos 7) (pos 7) (text "a") (text "b") tables
      first_reserved

-- A bucket whose one object has two bytes.
abbrev objects : GcsCalls Coordination
objects = record {
  get_object = λ bucket key w. (err no_response, w);
  download_object = λ bucket key generation w. (ok (7 ∷ 8 ∷ []), w);
  download_streamed_object = λ bucket key generation w. (err no_response, w);
  upload_object = λ upload bytes w. (err no_response, w);
  upload_streamed_object = λ upload path w. (err no_response, w);
  delete_object = λ bucket key generation w. (ok tt, w);
}

abbrev machine : Machine Coordination
machine = record {
  database_url = λ w. (none, w);
  set_database_url = λ url w. w;
  lock = λ url name. pure tt;
  unlock = λ name w. w;
  open_file = λ path. pure tt;
  file_len = λ path. pure 0;
  read_file = λ path. pure [];
  sha256 = λ bytes. bytes;
}

abbrev host : Surroundings Coordination
host = record {
  files = record {
    create = pure (text "f");
    append = λ path bytes. pure tt;
    sync = λ path. pure tt;
  };
  machine = machine;
  hex = λ bytes. bytes;
  env = λ name. not_present;
}

abbrev backend : MediaResumableBackend Coordination
backend = record {
  storage = record {
    mode = WriteMode.gcs;
    gcs = some objects;
    gcs_bucket = text "media";
    b2 = none;
  };
  legacy = none;
  database = some memory;
}

abbrev pub copy : ObjectRef
copy = record {
  provider = StorageProvider.gcs;
  bucket = text "media";
  key = text "c";
  version = none;
}

abbrev pub key : Text
key = text "__resumable/staged/gcs/media//up_1"

abbrev chunk_at : ℕ → List ObjectRef → ChunkRow
chunk_at start copies = record {
  temp_key = key;
  start_offset = pos start;
  end_offset = pos (start + 1);
  sha256 = 7 ∷ 8 ∷ [];
  objects = copies;
}

abbrev pub staged : List ObjectRef → Coordination
staged copies = record tables { chunks = chunk_at 2 copies ∷ chunk_at 0 (copy ∷ []) ∷ [] }

unresolved : any (λ r. is_nothing r.objects) (of_upload key (staged [])) ≡ true
unfolding filter str_eq text
unresolved = refl

is_staged : is_staged_key key ≡ true
unfolding starts_with text
is_staged = refl

delete_object-Unresolved_example :
    Halts
      (delete_object host backend key)
      (staged [])
      (statement memory
        (text "Chunk cleanup lookup failed")
        (reading (of_upload key))
        (staged [])).1
    × (memory.tables (delete_object host backend key (staged [])).1 ≡ staged [])
delete_object-Unresolved_example =
    delete_object-Unresolved host backend key (staged []) memory refl is_staged unresolved
      (λ v. refl) (λ t v. refl)
