-- ===== src/Audit/Tests.antt =====
-- The redaction and the audit log at concrete inputs.
use codeallremote.Prelude.{false, [], some, ◌≡◌, refl}
use codeallremote.Prelude.Text.{after_prefix, has_prefix, contains_text}
use codeallremote.Storage.Database.{Tables, sound}
use codeallremote.Audit.Redaction.{
  Fields, text, object, list, item, no_item, field, no_field, redact_fields, is_sensitive_key,
  replace_all, replace_from, redact_patterns,
}
use codeallremote.Audit.Writer.{Entry, new_writer, record_entry}
use codeallremote.Audit.Recorded.{Recorded, record_entry-Recorded}

replaced : replace_all "a-key-b-key" "key" "[REDACTED]" ≡ "a-[REDACTED]-b-[REDACTED]"
unfolding replace_from has_prefix after_prefix
replaced = refl

abbrev headers : Fields
headers =
    field "request"
      (list (
        item (object (field "authorization" (text "Bearer x") (field "host" (text "h") no_field)))
          no_item))
      no_field

nested_redacted :
    redact_fields (λ s. s) new_writer.redact_keys [] headers
    ≡ field "request"
        (list (
          item
            (object (field "authorization" (text "[REDACTED]") (field "host" (text "h") no_field)))
            no_item))
        no_field
unfolding redact_fields is_sensitive_key contains_text after_prefix new_writer redact_patterns
nested_redacted = refl

abbrev tables : Tables
tables = record {
  sessions = [];
  runs = [];
  events = [];
  approvals = [];
  devices = [];
  access_tokens = [];
  next_event_id = 1;
  workspaces = [];
  audit_log = [];
  next_audit_id = 1;
}

abbrev entry : Entry
entry = record {
  actor_id = "d1";
  actor_type = "device";
  action = "prompt_submit";
  target_type = "session";
  target_id = "s1";
  outcome = "";
  context = some headers;
}

record_entry-Recorded_example :
    Recorded
      (λ s. s)
      (λ context. some "{}")
      50
      entry
      new_writer
      false
      tables
      (record_entry (λ s. s) (λ context. some "{}") 50 entry new_writer (sound tables))
record_entry-Recorded_example =
    record_entry-Recorded (λ s. s) (λ context. some "{}") 50 entry new_writer (sound tables)
