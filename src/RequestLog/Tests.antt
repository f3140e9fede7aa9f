-- ===== src/RequestLog/Tests.antt =====
-- A log line of a request that tried to forge a field.
use divine_upload_server.Prelude.{◌≡◌, refl, Option, none, some}
use divine_upload_server.Text.{
  Text, text, strip_prefix, split_once, is_ascii_alphanumeric, is_ascii_digit,
}
use divine_upload_server.RequestLog.{
  RequestLogFields, correlation_id, sanitize, keep, is_id_char, or_placeholder, later_fields,
  format_request_log,
}
use divine_upload_server.RequestLog.Laws.{IsId, format_request_log-correlation_id}

abbrev forged : Option Text
forged = some (text "a status=200")

abbrev fields : RequestLogFields
fields = record {
  req_id = text "astatus200";
  method = text "PUT";
  path = text "/upload";
  status = none;
  duration_ms = 12;
  content_length = some 4;
}

forged_id : text "astatus200" ≡ correlation_id forged
unfolding correlation_id sanitize keep is_id_char or_placeholder is_ascii_alphanumeric
    is_ascii_digit text
forged_id = refl

format_request_log-correlation_id_example :
    IsId (text "astatus200")
    × ((rest : Text) × (strip_prefix (text "[REQUEST] req_id=") (format_request_log fields)
          ≡ some rest)
        × (split_once b' ' rest ≡ some (text "astatus200", later_fields fields)))
format_request_log-correlation_id_example =
    format_request_log-correlation_id forged fields forged_id
