-- ===== src/Storage/Objects.antt =====
-- The data types of src/storage/mod.rs.
use divine_upload_server.Prelude.{Option, none, some, Bool, true, false, ◌&&◌, if◌then◌else◌}
use divine_upload_server.Result.{Result, ok, err}
use divine_upload_server.Text.{Text, text, str_eq}

pub data WriteMode : Type 0 where
  gcs b2 dual : WriteMode

-- `WriteMode::from_str`
unfoldable pub parse_write_mode : Text → Result Text WriteMode
parse_write_mode value =
    if str_eq value (text "gcs")
    then ok WriteMode.gcs
    else if str_eq value (text "b2")
    then ok WriteMode.b2
    else if str_eq value (text "dual")
    then ok dual
    else err (text "MEDIA_WRITE_PROVIDER must be gcs, b2, or dual")

pub data StorageProvider : Type 0 where
  gcs b2 : StorageProvider

unfoldable pub same_provider : StorageProvider → StorageProvider → Bool
same_provider gcs gcs = true
same_provider b2 b2 = true
same_provider _ _ = false

pub record ObjectRef : Type 0 where
  pub provider : StorageProvider
  pub bucket : Text
  pub key : Text
  pub version : Option Text

unfoldable pub same_version : Option Text → Option Text → Bool
same_version none none = true
same_version (some a) (some b) = str_eq a b
same_version _ _ = false

-- The derived `PartialEq`.
unfoldable pub same_object : ObjectRef → ObjectRef → Bool
unfolding same_provider same_version
same_object a b =
    same_provider a.provider b.provider
    && (str_eq a.bucket b.bucket && (str_eq a.key b.key && same_version a.version b.version))
