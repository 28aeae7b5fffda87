-- ===== src/Projection/Tests.antt =====
-- The theorems of the projection package at concrete inputs.
use codeallremote.Prelude.{true, false, none, some, [], ◌∷◌, ◌≡◌, refl, any, arith}
use codeallremote.Prelude.Int.{pos}
use codeallremote.Prelude.Result.{ok}
use codeallremote.Domain.{Session, Event}
use codeallremote.Storage.Database.{EventRow, Tables, sound}
use codeallremote.Storage.Events.{last_sequence_of, max_sequence}
use codeallremote.Storage.Cursor.{append_without_tx}
use codeallremote.Projection.Snapshot.{is_consistent, load_last_event_sequence}
use codeallremote.Projection.Consistency.{is_consistent-append_without_tx}

-- A session whose stored sequence is behind the journal.
abbrev behind : Session
behind = record {
  id = "s1";
  workspace_id = "w1";
  adapter_id = "claude-code";
  state = "active";
  title = "";
  created_at = 10;
  updated_at = 20;
  last_activity_at = some 20;
  last_sequence = pos 0;
  pending_approval = none;
  owner_device_id = none;
  recovery_state = none;
}

abbrev row : EventRow
row = record {
  id = 1;
  session_id = "s1";
  sequence = pos 1;
  event_type = "session.created";
  message_id = "m1";
  schema_version = pos 1;
  payload = "{}";
  occurred_at = 30;
}

abbrev tables : Tables
tables = record {
  sessions = behind ∷ [];
  runs = [];
  events = row ∷ [];
  approvals = [];
  devices = [];
  access_tokens = [];
  next_event_id = 2;
  workspaces = [];
  audit_log = [];
  next_audit_id = 1;
}

abbrev event : Event
event = record {
  id = pos 0;
  session_id = "s1";
  sequence = pos 0;
  event_type = "run.output";
  message_id = "m2";
  schema_version = pos 1;
  payload = some "{}";
  occurred_at = 40;
}

inconsistent_before : (is_consistent "s1" (sound tables)).0 ≡ ok false
unfolding is_consistent last_sequence_of max_sequence load_last_event_sequence
inconsistent_before = refl

is_consistent-append_without_tx_example :
    (is_consistent "s1" (append_without_tx 45 event (sound tables)).1).0 ≡ ok true
unfolding any last_sequence_of max_sequence
is_consistent-append_without_tx_example =
    is_consistent-append_without_tx 45 event {payload = "{}"} tables refl refl refl (omega arith)
      (tt, tt)
