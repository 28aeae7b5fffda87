-- ===== src/Storage/Cursor.antt =====
-- `CursorRepository` of internal/storage/cursor_repository.go: the journal of events, replayed in pages.
use codeallremote.Prelude.{
  ℕ, ◌+◌, String, Bool, true, false, Option, none, some, List, [], ◌∷◌, ◌&&◌, ◌||◌, not,
  if◌then◌else◌, ◌==◌, string_eq, nat_eq, ltb, length, select, any,
}
use codeallremote.Prelude.Int.{ℤ, pos, negsuc, inc64, sub64, ltb_ℤ, eqb_ℤ}
use codeallremote.Prelude.Result.{Result, ok, err}
use codeallremote.Domain.{Event, Session}
use codeallremote.Storage.Database.{
  EventRow, SqlError, Action, pure, ◌>>=◌, ◌>>◌, attempt, statement, query, exec, with_transaction,
}
use codeallremote.Storage.Events.{
  of_session, get_by_sequence, last_sequence_of, get_last_sequence, count, append as append_event,
}
use codeallremote.Storage.Sessions.{has_id, first_row, update_sessions}

-- `CursorResult`
pub record CursorResult : Type 0 where
  pub events : List EventRow
  pub next_after : ℤ
  pub resync_required : Bool
  pub has_more : Bool

-- The limit that `Replay` works with.
abbrev pub clamp_limit : ℤ → ℕ
clamp_limit (negsuc n) = 100
clamp_limit (pos n) = if n == 0 then 100 else if ltb 500 n then 500 else n

-- `isCursorExpired` from the count of rows at the cursor on: the age of the session decides.
abbrev pub is_older_than_retention : ℕ → ℕ → String → Bool → Action Bool
is_older_than_retention retention now session_id true = pure false
is_older_than_retention retention now session_id false = do
  s ← statement (λ t. first_row (select (has_id session_id) t.sessions) t)
  pure (ltb (s.created_at + retention) now)

-- `isCursorExpired`. The column `created_at` is never null.
unfoldable pub is_cursor_expired : ℕ → ℕ → String → ℤ → Action Bool
unfolding statement
is_cursor_expired retention now session_id after =
    if retention == 0 || eqb_ℤ after (pos 0) then pure false else do
      here ← query (λ t. any (λ r. of_session session_id r && eqb_ℤ r.sequence after) t.events)
      is_older_than_retention retention now session_id here

-- `nextAfter`: the sequence of the last event of the page.
abbrev pub last_sequence_or : ℤ → List EventRow → ℤ
last_sequence_or after [] = after
last_sequence_or after (r ∷ rs) = last_sequence_or r.sequence rs

-- `err == nil && len(more) > 0`
abbrev pub some_rows : Result SqlError (List EventRow) → Bool
some_rows (ok (r ∷ rs)) = true
some_rows (ok []) = false
some_rows (err e) = false

-- The check for events beyond the limit, whose own failure counts as none.
abbrev pub more_after : Bool → String → ℤ → Action Bool
more_after false session_id next = pure false
more_after true session_id next = do
  more ← attempt (get_by_sequence session_id next (pos 1))
  pure (some_rows more)

-- `Replay`, once the cursor is known to be good.
unfoldable pub replay_page : String → ℤ → ℕ → Action CursorResult
replay_page session_id after limit = do
  events ← get_by_sequence session_id after (pos limit)
  let next = last_sequence_or after events
  more ← more_after (length events == limit) session_id next
  pure (record { events = events; next_after = next; resync_required = false; has_more = more })

abbrev pub expired_page : ℤ → CursorResult
expired_page after = record {
  events = [];
  next_after = after;
  resync_required = true;
  has_more = false;
}

abbrev pub replay_unless : Bool → String → ℤ → ℕ → Action CursorResult
replay_unless true session_id after limit = pure (expired_page after)
replay_unless false session_id after limit = replay_page session_id after limit

-- `Replay`
unfoldable pub replay : ℕ → ℕ → String → ℤ → ℤ → Action CursorResult
replay retention now session_id after limit = do
  expired ← is_cursor_expired retention now session_id after
  replay_unless expired session_id after (clamp_limit limit)

-- The sequence that `Append` assigns.
abbrev pub next_sequence : Option ℤ → ℤ
next_sequence none = pos 1
next_sequence (some seq) = inc64 seq

abbrev pub advance : ℕ → ℤ → Session → Session
advance db_now seq s = record s {
  last_sequence = seq;
  updated_at = db_now;
  last_activity_at = some db_now;
}

-- `Append`: the assigned sequence, which the Go code writes into the event.
unfoldable pub append : ℕ → Event → Action ℤ
append db_now event = do
  seq ← query (last_sequence_of event.session_id)
  let next = next_sequence seq
  append_event (record event { sequence = next })
  exec (λ t. record t {
    sessions = update_sessions (has_id event.session_id) (advance db_now next) t.sessions;
  })
  pure next

-- `AppendWithoutTx`
unfoldable pub append_without_tx : ℕ → Event → Action ℤ
append_without_tx db_now event = with_transaction (append db_now event)

-- `PurgeExpired`: the number of rows that were removed.
unfoldable pub purge_expired : ℕ → Action ℤ
unfolding statement
purge_expired before = statement (λ t. ok (
  pos (length (select (λ r. ltb r.occurred_at before) t.events)),
  record t { events = select (λ r. not (ltb r.occurred_at before)) t.events },
))

pub data CursorError : Type 0 where
  negative : ℤ → CursorError
  ahead : ℤ → ℤ → CursorError

abbrev pub check_cursor : ℤ → ℤ → Option CursorError
check_cursor after last = if ltb_ℤ last after then some (CursorError.ahead after last) else none

-- `ValidateCursor`: nothing where the cursor is valid.
unfoldable pub validate_cursor : String → ℤ → Action (Option CursorError)
validate_cursor session_id after =
    if ltb_ℤ after (pos 0)
    then pure (some (CursorError.negative after))
    else do last ← get_last_sequence session_id; pure (check_cursor after last)

-- `CursorMetadata`
pub record CursorMetadata : Type 0 where
  pub session_id : String
  pub after_sequence : ℤ
  pub last_sequence : ℤ
  pub total_events : ℤ
  pub remaining_events : ℤ

abbrev pub remaining_after : ℤ → ℤ → ℤ
remaining_after after last = if ltb_ℤ after last then sub64 last after else pos 0

-- `GetCursorMetadata`
unfoldable pub get_cursor_metadata : String → ℤ → Action CursorMetadata
get_cursor_metadata session_id after = do
  last ← get_last_sequence session_id
  total ← count session_id
  pure (record {
    session_id = session_id;
    after_sequence = after;
    last_sequence = last;
    total_events = total;
    remaining_events = remaining_after after last;
  })
