-- ===== src/Storage/Events.antt =====
-- `EventRepository` of internal/storage/event_repository.go.
use codeallremote.Prelude.{
  ℕ, ◌+◌, String, Bool, Option, none, some, List, [], ◌∷◌, ◌++◌, ◌&&◌, ◌||◌, not, if◌then◌else◌,
  ◌==◌, string_eq, length, take, select, any,
}
use codeallremote.Prelude.Int.{ℤ, pos, negsuc, ltb_ℤ, leb_ℤ, eqb_ℤ}
use codeallremote.Prelude.Result.{Result, ok, err}
use codeallremote.Domain.{Event, Session}
use codeallremote.Storage.Database.{
  EventRow, Tables, SqlError, Action, ◌>>=◌, statement, query, exec,
}
use codeallremote.Storage.Sort.{sort_by}

abbrev pub has_session : String → List Session → Bool
has_session id = any (λ s. s.id == id)

-- `UNIQUE(session_id, sequence)` and `UNIQUE` on `message_id`
abbrev pub clashes : Event → EventRow → Bool
clashes e r =
    (r.session_id == e.session_id && eqb_ℤ r.sequence e.sequence) || r.message_id == e.message_id

abbrev pub event_row : ℕ → Event → String → EventRow
event_row id e payload = record {
  id = id;
  session_id = e.session_id;
  sequence = e.sequence;
  event_type = e.event_type;
  message_id = e.message_id;
  schema_version = e.schema_version;
  payload = payload;
  occurred_at = e.occurred_at;
}

-- The constraints of table `events`: the session exists, and no row clashes.
unfoldable pub admits : Event → Tables → Bool
admits e t = has_session e.session_id t.sessions && not (any (clashes e) t.events)

-- `INSERT INTO events`
unfoldable pub insert_event : Event → String → Tables → Result SqlError (ℤ × Tables)
insert_event e payload t =
    if admits e t
    then ok (
      e.sequence,
      record t {
        events = t.events ++ event_row t.next_event_id e payload ∷ [];
        next_event_id = t.next_event_id + 1;
      },
    )
    else err SqlError.constraint

-- `json.Marshal(event.Payload)`
abbrev pub marshal_payload : Event → Action String
marshal_payload e db = elim e.payload [
  | none ↦ (err SqlError.marshal, db)
  | some text ↦ (ok text, db)
]

-- `Append`, and `AppendWithTx`, which runs the same statement inside a transaction.
unfoldable pub append : Event → Action ℤ
unfolding insert_event statement
append e = do payload ← marshal_payload e; statement (insert_event e payload)

-- The events that the scan makes of rows.
abbrev pub scan_event : EventRow → Event
scan_event r = record {
  id = pos r.id;
  session_id = r.session_id;
  sequence = r.sequence;
  event_type = r.event_type;
  message_id = r.message_id;
  schema_version = r.schema_version;
  payload = some r.payload;
  occurred_at = r.occurred_at;
}

abbrev pub by_sequence : EventRow → EventRow → Bool
by_sequence r s = leb_ℤ r.sequence s.sequence

abbrev pub of_session : String → EventRow → Bool
of_session session_id r = r.session_id == session_id

abbrev pub of_session_after : String → ℤ → EventRow → Bool
of_session_after session_id after r = of_session session_id r && ltb_ℤ after r.sequence

-- `WHERE session_id = ? AND sequence > ? ORDER BY sequence ASC`
unfoldable pub events_after : String → ℤ → Tables → List EventRow
unfolding sort_by
events_after session_id after t =
    sort_by by_sequence (select (of_session_after session_id after) t.events)

-- `LIMIT ?`; a negative limit is none.
abbrev pub limit_rows : {A : Type 0} → ℤ → List A → List A
limit_rows (pos n) rows = take n rows
limit_rows (negsuc n) rows = rows

-- `GetBySequence`. `json.Unmarshal` of a payload does not fail, as the texts in the table are those that
-- `json.Marshal` made in `AppendWithoutTx`; so here and in `GetSessionEvents` the error of `scanEvents` for a
-- text that cannot be read does not occur.
unfoldable pub get_by_sequence : String → ℤ → ℤ → Action (List EventRow)
unfolding statement
get_by_sequence session_id after limit =
    query (λ t. limit_rows limit (events_after session_id after t))

-- `SELECT MAX(sequence)`; nothing where there is no row.
abbrev pub max_option : ℤ → Option ℤ → ℤ
max_option a none = a
max_option a (some b) = if ltb_ℤ a b then b else a

unfoldable pub max_sequence : List EventRow → Option ℤ
max_sequence [] = none
max_sequence (r ∷ rs) = some (max_option r.sequence (max_sequence rs))

unfoldable pub last_sequence_of : String → Tables → Option ℤ
unfolding max_sequence
last_sequence_of session_id t = max_sequence (select (of_session session_id) t.events)

abbrev pub or_zero : Option ℤ → ℤ
or_zero none = pos 0
or_zero (some seq) = seq

-- `GetLastSequence`
unfoldable pub get_last_sequence : String → Action ℤ
unfolding statement
get_last_sequence session_id = query (λ t. or_zero (last_sequence_of session_id t))

-- `GetSessionEvents`
unfoldable pub get_session_events : String → Action (List EventRow)
unfolding statement
get_session_events session_id =
    query (λ t. sort_by by_sequence (select (of_session session_id) t.events))

-- `Count`
unfoldable pub count : String → Action ℤ
unfolding statement
count session_id = query (λ t. pos (length (select (of_session session_id) t.events)))

-- `DeleteBySessionID`
unfoldable pub delete_by_session_id : String → Action (Unit {0})
unfolding statement
delete_by_session_id session_id =
    exec (λ t. record t { events = select (λ r. not (of_session session_id r)) t.events })
