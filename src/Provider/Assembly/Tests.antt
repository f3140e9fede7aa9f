-- ===== src/Provider/Assembly/Tests.antt =====
-- Two staged chunks of two bytes become a file of four, in a world with one file.
use mathlib.Core.Option.{some-injective}
use divine_upload_server.Prelude.{true, ◌≡◌, refl, subst, none, some, [], ◌∷◌, ◌++◌}
use divine_upload_server.Query.{filter, insert_by, order_by}
use divine_upload_server.Result.{ok, err}
use divine_upload_server.Exec.{pure, act, call, ◌>>=◌}
use divine_upload_server.Exec.Success.{Succeeds}
use divine_upload_server.Text.{Text, text, str_eq}
use divine_upload_server.Text.Signed.{as_u64}
use divine_upload_server.Resources.{check_size, max_upload_bytes, positive_setting, not_present}
use divine_upload_server.Storage.Objects.{WriteMode}
use divine_upload_server.Storage.Media.{GcsCalls, no_response, Machine}
use divine_upload_server.Storage.Reads.{read_ref, read_gcs, optional_generation}
use divine_upload_server.Resumable.Traits.{Bytes}
use divine_upload_server.Provider.Tables.{Coordination, Database, statement}
use divine_upload_server.Provider.Staged.{
  Surroundings, MediaResumableBackend, chunks_of, before_i64, is_gap, span, assemble, assemble_file,
}
use divine_upload_server.Provider.Assembly.{Assembled, FileLaws, assemble_file-Assembled}
use divine_upload_server.Provider.Tests.{copy, key, staged}

-- The tables, and the bytes of the file.
abbrev Desk : Type 0
Desk = Coordination × Bytes

abbrev contents : Desk → Text → Bytes
contents w path = w.1

abbrev memory : Database Desk
memory = record { tables = λ w. w.0; set = λ t w. (t, w.1); available = λ w. (true, w) }

abbrev objects : GcsCalls Desk
objects = record {
  get_object = λ bucket key w. (err no_response, w);
  download_object = λ bucket key generation w. (ok (7 ∷ 8 ∷ []), w);
  download_streamed_object = λ bucket key generation w. (err no_response, w);
  upload_object = λ upload bytes w. (err no_response, w);
  upload_streamed_object = λ upload path w. (err no_response, w);
  delete_object = λ bucket key generation w. (ok tt, w);
}

abbrev machine : Machine Desk
machine = record {
  database_url = λ w. (none, w);
  set_database_url = λ url w. w;
  lock = λ url name. pure tt;
  unlock = λ name w. w;
  open_file = λ path. pure tt;
  file_len = λ path. pure 0;
  read_file = λ path. pure [];
  sha256 = λ bytes. bytes;
}

abbrev host : Surroundings Desk
host = record {
  files = record {
    create = λ w. (ok (text "f"), (w.0, []));
    append = λ path bytes w. (ok tt, (w.0, w.1 ++ bytes));
    sync = λ path w. (ok tt, w);
  };
  machine = machine;
  hex = λ bytes. bytes;
  env = λ name. not_present;
}

abbrev backend : MediaResumableBackend Desk
backend = record {
  storage = record {
    mode = WriteMode.gcs;
    gcs = some objects;
    gcs_bucket = text "media";
    b2 = none;
  };
  legacy = none;
  database = some memory;
}

file_laws : FileLaws host backend memory contents
file_laws = record {
  create_empty = λ w path h. refl;
  append_adds = λ path bytes w h. refl;
  sync_keeps = λ path w. refl;
  download_keeps = λ gcs bucket key generation w path there.
      subst (λ g. contents (g.download_object bucket key generation w).1 path ≡ contents w path)
        (some-injective _ _ there) refl;
  read_keeps = λ b2 reference w path there. cc there;
  available_keeps = λ w path. refl;
  set_keeps = λ t w path. refl;
  create_tables = λ w. refl;
  available_tables = λ w. refl;
}

abbrev before : Desk
before = (staged (copy ∷ []), [])

assembles : Succeeds (assemble_file host backend key) before (text "f")
unfolding assemble_file assemble ◌>>=◌ pure act call statement chunks_of before_i64 filter order_by
    insert_by is_gap span str_eq text read_ref read_gcs check_size as_u64 optional_generation
    max_upload_bytes positive_setting
assembles = refl

assemble_file-Assembled_example :
    Assembled host backend
      (chunks_of key before.0)
      0
      (contents (assemble_file host backend key before).1 (text "f"))
assemble_file-Assembled_example =
    assemble_file-Assembled host backend memory contents file_laws key before (text "f") refl
      assembles
