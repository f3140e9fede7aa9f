-- ===== src/MediaType.antt =====
-- src/media_type.rs
use divine_upload_server.Text.{Text, trim, split_first, to_ascii_lowercase}

-- `split(';').next()`, which is there for every text, trimmed and in lower case.
unfoldable pub normalize : Text → Text
unfolding trim split_first to_ascii_lowercase
normalize content_type = to_ascii_lowercase (trim (split_first b';' content_type))
