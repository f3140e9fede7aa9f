-- ===== src/Resources.antt =====
-- src/resources.rs: configured bounds and admission slots.
use divine_upload_server.Prelude.{
  ℕ, zero, suc, ◌*◌, min, Option, none, some, List, [], ◌∷◌, ◌++◌, ltb, if◌then◌else◌, String,
}
use divine_upload_server.Result.{Result, ok, err, ◌>>=◌, ◌>>◌, refuse_if}
use divine_upload_server.Text.{Text, text}
use divine_upload_server.Text.Decimal.{parse_u64}

pub data ResourceError : Type 0 where
  too_large busy : ResourceError

-- `Display` of a `ResourceError`
unfoldable pub message : ResourceError → Text
message too_large = text "Upload exceeds MAX_UPLOAD_BYTES"
message busy = text "Upload capacity exhausted; retry later"

-- What `std::env::var` gives for a name.
pub data EnvVar : Type 0 where
  value : Text → EnvVar
  not_present not_unicode : EnvVar

abbrev pub Env : Type 0
Env = String → EnvVar

-- `.ok().filter(|n| *n > 0).ok_or_else(…)`
positive : String → Option ℕ → Result Text ℕ
positive name none = err (text name ++ text " must be a positive integer")
positive name (some n) =
    if ltb 0 n then ok n else err (text name ++ text " must be a positive integer")

read_positive : String → EnvVar → ℕ → Result Text ℕ
unfolding positive
read_positive name (value v) default = positive name (parse_u64 v)
read_positive name not_present default = ok default
read_positive name not_unicode default = err (text "Invalid " ++ text name)

unfoldable pub positive_setting : Env → String → ℕ → Result Text ℕ
unfolding read_positive
positive_setting env name default = read_positive name (env name) default

validate_slots : Env → List (String × ℕ) → Result Text Unit
validate_slots env [] = ok tt
validate_slots env ((name, default) ∷ rest) = do
  n ← positive_setting env name default
  refuse_if (ltb 1024 n) (text name ++ text " must not exceed 1024")
  validate_slots env rest

unfoldable pub validate : Env → Result Text Unit
unfolding validate_slots
validate env = do
  _ ← positive_setting env "MAX_UPLOAD_BYTES" (1024 * 1024 * 1024)
  validate_slots env (
      ("MAX_CONCURRENT_UPLOADS", 4)
      ∷ ("MAX_CONCURRENT_THUMBNAILS", 2)
      ∷ ("MAX_CONCURRENT_MIRRORS", 1)
      ∷ [])
  secs ← positive_setting env "MIRROR_FETCH_TIMEOUT_SECS" 120
  refuse_if (ltb 3600 secs) (text "MIRROR_FETCH_TIMEOUT_SECS must not exceed 3600")

abbrev unwrap_or : Result Text ℕ → ℕ → ℕ
unwrap_or (ok n) d = n
unwrap_or (err e) d = d

unfoldable pub max_upload_bytes : Env → ℕ
max_upload_bytes env =
    unwrap_or (positive_setting env "MAX_UPLOAD_BYTES" (1024 * 1024 * 1024)) (1024 * 1024 * 1024)

unfoldable pub check_size_with_limit : ℕ → ℕ → Result ResourceError Unit
check_size_with_limit size limit = if ltb limit size then err too_large else ok tt

unfoldable pub check_size : Env → ℕ → Result ResourceError Unit
unfolding check_size_with_limit
check_size env size = check_size_with_limit size (max_upload_bytes env)

-- The permits of the three semaphores, as they are created.
unfoldable pub upload_slots : Env → ℕ
upload_slots env = min (unwrap_or (positive_setting env "MAX_CONCURRENT_UPLOADS" 4) 4) 1024

unfoldable pub thumbnail_slots : Env → ℕ
thumbnail_slots env = min (unwrap_or (positive_setting env "MAX_CONCURRENT_THUMBNAILS" 2) 2) 1024

unfoldable pub mirror_slots : Env → ℕ
mirror_slots env = min (unwrap_or (positive_setting env "MAX_CONCURRENT_MIRRORS" 1) 1) 1024

unfoldable pub mirror_fetch_timeout : Env → ℕ
mirror_fetch_timeout env =
    min (unwrap_or (positive_setting env "MIRROR_FETCH_TIMEOUT_SECS" 120) 120) 3600

-- `acquire_from`: the free permits after a permit is taken from a semaphore with `free` of them.
unfoldable pub acquire_from : ℕ → Result ResourceError ℕ
acquire_from zero = err busy
acquire_from (suc free) = ok free
