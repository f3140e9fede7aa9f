-- ===== src/Provider/Identity.antt =====
-- The key of a staged upload (src/resumable_storage.rs), which names the mode and the buckets that the
-- upload began with.
use divine_upload_server.Prelude.{
  Bool, true, false, not, ◌&&◌, ◌||◌, Option, none, some, List, [], ◌∷◌,
}
use divine_upload_server.Result.{Result, err, map_err, refuse_if, ◌>>=◌, ◌>>◌}
use divine_upload_server.Text.{Text, text, str_eq, split}
use divine_upload_server.Storage.Objects.{WriteMode, dual, parse_write_mode}
use divine_upload_server.Storage.Media.{MediaStorage, b2_bucket, with_mode}
use divine_upload_server.Resumable.Traits.{Failure, other, Bytes}

unfoldable pub or_nothing : Option Text → Text
or_nothing none = []
or_nothing (some bucket) = bucket

abbrev needs_gcs : WriteMode → Bool
needs_gcs WriteMode.gcs = true
needs_gcs WriteMode.b2 = false
needs_gcs dual = true

abbrev needs_b2 : WriteMode → Bool
needs_b2 WriteMode.gcs = false
needs_b2 WriteMode.b2 = true
needs_b2 dual = true

module _ {W : Type 0} (hex : Bytes → Text) (storage : MediaStorage W) where
  -- The six parts of a staged key.
  unfoldable pub staged_parts : List Text → Result Failure (MediaStorage W)
  staged_parts (root ∷ staged ∷ mode ∷ gcs ∷ b2 ∷ id ∷ []) = do
    refuse_if (not (str_eq root (text "__resumable")) || not (str_eq staged (text "staged")))
        (other (text "Invalid staged upload identity"))
    mode ← map_err other (parse_write_mode mode)
    refuse_if
        ((needs_gcs mode && not (str_eq gcs (hex storage.gcs_bucket)))
          || (needs_b2 mode && not (str_eq b2 (hex (or_nothing (b2_bucket storage))))))
        (other (text "Upload session bucket mapping changed"))
    with_mode storage mode
  staged_parts _ = err (other (text "Invalid staged upload identity"))

  unfoldable pub staged_store : Text → Result Failure (MediaStorage W)
  unfolding staged_parts
  staged_store key = staged_parts (split b'/' key)
