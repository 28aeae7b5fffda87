-- ===== src/Storage/Tests.antt =====
-- The theorems of the storage package at concrete inputs.
use codeallremote.Prelude.{
  ℕ, String, true, false, none, some, [], ◌∷◌, ◌++◌, ◌≡◌, refl, select, any, All, arith,
}
use codeallremote.Prelude.Int.{ℤ, pos, inc64, ◌<ℤ◌}
use codeallremote.Prelude.Result.{ok, err}
use codeallremote.Domain.{Session, Event}
use codeallremote.Storage.Database.{sound, EventRow, Tables, SqlError, Db, with_transaction}
use codeallremote.Storage.Events.{
  admits, of_session, events_after, last_sequence_of, max_sequence, append as append_event,
}
use codeallremote.Storage.Cursor.{
  append, append_without_tx, replay, is_cursor_expired, purge_expired, next_sequence,
}
use codeallremote.Storage.Paging.{Ascending, Distinct, page, replay_pages}
use codeallremote.Storage.Append.{appended, append_without_tx_lem}
use codeallremote.Storage.Log.{logged, events_after-append_without_tx}
use codeallremote.Storage.Purge.{purged, append_after_purge}
use codeallremote.Storage.Database.{}

abbrev session : Session
session = record {
  id = "s1";
  workspace_id = "w1";
  adapter_id = "claude-code";
  state = "active";
  title = "";
  created_at = 10;
  updated_at = 20;
  last_activity_at = some 20;
  last_sequence = pos 3;
  pending_approval = none;
  owner_device_id = none;
  recovery_state = none;
}

abbrev row : ℕ → ℤ → String → EventRow
row id sequence message_id = record {
  id = id;
  session_id = "s1";
  sequence = sequence;
  event_type = "run.output";
  message_id = message_id;
  schema_version = pos 1;
  payload = "{}";
  occurred_at = 30;
}

abbrev event : Event
event = record {
  id = pos 0;
  session_id = "s1";
  sequence = pos 0;
  event_type = "run.output";
  message_id = "m4";
  schema_version = pos 1;
  payload = some "{}";
  occurred_at = 40;
}

-- Three events of one session, out of order.
abbrev tables : Tables
tables = record {
  sessions = session ∷ [];
  runs = [];
  events = row 1 (pos 2) "m2" ∷ row 2 (pos 1) "m1" ∷ row 3 (pos 3) "m3" ∷ [];
  approvals = [];
  devices = [];
  access_tokens = [];
  next_event_id = 4;
  workspaces = [];
  audit_log = [];
  next_audit_id = 1;
}

tables-Distinct : Distinct (select (of_session "s1") tables.events)
tables-Distinct = (((λ e. cc), ((λ e. cc), tt)), (((λ e. cc), tt), (tt, tt)))

replay_pages_example :
    let p = page "s1" (pos 0) 2 tables in
    (replay 0 50 "s1" (pos 0) (pos 2) (sound tables) ≡ (ok p, sound tables))
    × (p.events ++ events_after "s1" p.next_after tables ≡ events_after "s1" (pos 0) tables)
    × Ascending (pos 0) p.events
unfolding is_cursor_expired
replay_pages_example = replay_pages "s1" tables 0 50 (pos 0) (pos 2) tables-Distinct refl

first_page : (page "s1" (pos 0) 2 tables).events ≡ row 2 (pos 1) "m1" ∷ row 1 (pos 2) "m2" ∷ []
unfolding events_after
first_page = refl

append_without_tx_lem_example :
    let seq = next_sequence (last_sequence_of "s1" tables) in
    let t' = appended 45 event seq "{}" tables in
    (append_without_tx 45 event (sound tables) ≡ (ok seq, sound t'))
    × All (λ r. r.sequence <ℤ seq) (select (of_session "s1") tables.events)
    × (last_sequence_of "s1" t' ≡ some seq)
    × Distinct (select (of_session "s1") t'.events)
unfolding any last_sequence_of max_sequence
append_without_tx_lem_example =
    append_without_tx_lem 45 event {payload = "{}"} tables refl refl refl (omega arith)
      tables-Distinct

events_after-append_without_tx_example :
    events_after "s1" (pos 2) (append_without_tx 45 event (sound tables)).1.tables
    ≡ events_after "s1" (pos 2) tables ++ logged event "{}" tables ∷ []
unfolding any last_sequence_of max_sequence inc64
events_after-append_without_tx_example =
    events_after-append_without_tx 45 event {payload = "{}"} tables "s1" (pos 2) refl refl refl
      (omega arith) tables-Distinct refl

append_after_purge_example :
    append_without_tx 45 event (purge_expired 35 (sound tables)).1
    ≡ (ok (pos 1), sound (appended 45 event (pos 1) "{}" (purged 35 tables)))
unfolding any
append_after_purge_example =
    append_after_purge 35 45 event {payload = "{}"} tables refl refl refl (omega arith)

-- The driver fails at the third statement of the transaction: the insertion is undone.
abbrev failing : Db
failing = record { tables = tables; faults = false ∷ false ∷ false ∷ true ∷ [] }

third_statement_fails : (append_without_tx 45 event failing).0 ≡ err SqlError.driver
unfolding append_without_tx append with_transaction append_event inc64 last_sequence_of max_sequence
    any admits
third_statement_fails = refl
