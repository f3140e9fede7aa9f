-- ===== src/Storage/Tests.antt =====
-- A write in both stores, on a machine without a coordination database.
use mathlib.Core.Option.{some-injective}
use divine_upload_server.Outbox.Destinations.{placed_at}
use divine_upload_server.Text.Decimal.{digits, parse_u64, show}
use divine_upload_server.Prelude.{
  refl, sym, subst, true, Option, none, some, List, [], ◌∷◌, length, ap,
}
use divine_upload_server.Result.{Result, ok, err}
use divine_upload_server.Exec.{pure, act, call, ◌>>=◌}
use divine_upload_server.Exec.Success.{Succeeds, pure-Succeeds}
use divine_upload_server.Text.{text, str_eq, is_ascii_digit}
use divine_upload_server.Text.Signed.{pos, parse_i64, show_i64, as_u64, within_i64}
use divine_upload_server.Storage.Objects.{ObjectRef, StorageProvider, dual, same_provider}
use divine_upload_server.Storage.Media.{
  WriteResult, GcsError, response, GcsObject, GcsCalls, B2Store, Machine, MediaStorage, is_dual,
  writes_gcs, writes_b2,
}
use divine_upload_server.Storage.Writes.{
  put, store_copies, guarded, inherited_metadata, put_gcs, settle_upload, upload_gcs,
  winning_metadata,
}
use divine_upload_server.Storage.Reads.{
  gcs_stat, stat_answer, verify, verify_gcs, exact_generation, bounded, get, or_octets, owner_of,
  same_bytes,
}
use divine_upload_server.Storage.Copies.{InGcs, ReadBack, put_gcs-ReadBack}
use divine_upload_server.Storage.Placement.{B2Laws, Placed, put-Succeeds}
use divine_upload_server.Resumable.Traits.{Failure, Bytes}

-- The world is the one object of the bucket.
abbrev pub Disk : Type 0
Disk = Option Bytes

abbrev metadata_of : Bytes → GcsObject
metadata_of bytes = record {
  generation = pos 1;
  size = pos (length bytes);
  content_type = some (text "video/mp4");
  metadata = none;
}

abbrev looking : Disk → Result GcsError GcsObject
looking none = err (response 404)
looking (some bytes) = ok (metadata_of bytes)

abbrev reading : Disk → Result GcsError Bytes
reading none = err (response 404)
reading (some bytes) = ok bytes

abbrev streaming : Disk → Result GcsError (List (Result GcsError Bytes))
streaming none = err (response 404)
streaming (some bytes) = ok (ok bytes ∷ [])

abbrev disk : GcsCalls Disk
disk = record {
  get_object = λ bucket key w. (looking w, w);
  download_object = λ bucket key generation w. (reading w, w);
  download_streamed_object = λ bucket key generation w. (streaming w, w);
  upload_object = λ upload bytes w. (ok (metadata_of bytes), some bytes);
  upload_streamed_object = λ upload path w. (looking w, w);
  delete_object = λ bucket key generation w. (ok tt, none);
}

abbrev pub b2_copy : ObjectRef
b2_copy = record {
  provider = StorageProvider.b2;
  bucket = text "copies";
  key = text "k";
  version = some (text "4_z");
}

abbrev pub copies : B2Store Disk
copies = record {
  bucket = text "copies";
  initialize_coordination = λ url. pure tt;
  sweep_stale_multipart = λ limit. pure 0;
  stat = λ key. pure none;
  read = λ reference. pure [];
  verify = λ reference bytes. pure tt;
  stream = λ reference. pure [];
  put = λ key bytes content_type owner. pure (b2_copy, true);
  put_file = λ key path content_type owner. pure (b2_copy, true);
  delete = λ reference. pure tt;
}

abbrev pub machine : Machine Disk
machine = record {
  database_url = λ w. (none, w);
  set_database_url = λ url w. w;
  lock = λ url name. pure tt;
  unlock = λ name w. w;
  open_file = λ path. pure tt;
  file_len = λ path. pure 0;
  read_file = λ path. pure [];
  sha256 = λ bytes. bytes;
}

abbrev pub both : MediaStorage Disk
both = record { mode = dual; gcs = some disk; gcs_bucket = text "media"; b2 = some copies }

abbrev pub gcs_copy : ObjectRef
gcs_copy = record {
  provider = StorageProvider.gcs;
  bucket = text "media";
  key = text "k";
  version = some (text "1");
}

abbrev pub written : WriteResult
written = record { objects = gcs_copy ∷ b2_copy ∷ []; newly_stored = true }

pub copies_laws : B2Laws copies
copies_laws = record {
  put_where = λ key bytes content_type owner w copy h.
      ap (λ c. placed_at c.0) (sym (pure-Succeeds {E = Failure} (b2_copy, true) w copy h));
}

pub stored :
    Succeeds
      (put machine both (text "k") (7 ∷ 8 ∷ []) (text "video/mp4") (some (text "o")))
      none
      written
unfolding put store_copies guarded ◌>>=◌ inherited_metadata is_dual gcs_stat stat_answer writes_gcs
    put_gcs settle_upload verify same_provider verify_gcs exact_generation parse_i64 show_i64 act
    call pure writes_b2 bounded get or_octets owner_of same_bytes upload_gcs winning_metadata digits
    parse_u64 show as_u64 within_i64 is_ascii_digit str_eq text
stored = refl

put-Succeeds_example : Placed machine both (gcs_copy ∷ b2_copy ∷ [])
put-Succeeds_example =
    put-Succeeds machine both (text "k") (7 ∷ 8 ∷ []) (text "video/mp4") (some (text "o")) none
      written (λ b2 here. subst (λ x. B2Laws x) (some-injective _ _ here) copies_laws) stored

stored_in_gcs :
    Succeeds
      (put_gcs machine both (text "k") (7 ∷ 8 ∷ []) (text "video/mp4") (some (text "o")))
      none
      (gcs_copy, true)
unfolding ◌>>=◌ gcs_stat stat_answer put_gcs settle_upload verify same_provider verify_gcs
    exact_generation parse_i64 show_i64 act call pure bounded get or_octets owner_of same_bytes
    upload_gcs digits parse_u64 show as_u64 within_i64 is_ascii_digit str_eq text
stored_in_gcs = refl

put_gcs-ReadBack_example :
    InGcs both gcs_copy
    × ReadBack machine both
        (put_gcs machine both (text "k") (7 ∷ 8 ∷ []) (text "video/mp4") (some (text "o")) none).1
        gcs_copy
        (7 ∷ 8 ∷ [])
put_gcs-ReadBack_example =
    put_gcs-ReadBack machine both (text "k") (7 ∷ 8 ∷ []) (text "video/mp4") (some (text "o")) none
      (gcs_copy, true) stored_in_gcs
