-- ===== src/Storage/Sessions.antt =====
-- `SessionRepository` of internal/storage/session_repository.go. `now` is the reading of the Go clock,
-- `db_now` that of SQL's `datetime('now')`.
use codeallremote.Prelude.{
  ℕ, String, Bool, Option, none, some, List, [], ◌∷◌, ◌++◌, ◌&&◌, ◌||◌, not, if◌then◌else◌, ◌==◌,
  string_eq, nat_eq, leb, select, any, all, contains, map,
}
use codeallremote.Prelude.Int.{ℤ}
use codeallremote.Prelude.Result.{Result, ok, err}
use codeallremote.Domain.{Session, Run}
use codeallremote.Domain.RunState
use codeallremote.Storage.Database.{Tables, SqlError, Action, statement, query, exec}
use codeallremote.Storage.Sort.{sort_by}

-- `QueryRow(...).Scan`: the first row, or `sql.ErrNoRows`.
abbrev pub first_row : {A : Type 0} → List A → Tables → Result SqlError (A × Tables)
first_row [] t = err SqlError.no_rows
first_row (a ∷ rest) t = ok (a, t)

abbrev pub has_id : String → Session → Bool
has_id id s = s.id == id

-- `INSERT INTO sessions`: the columns that it names; the others are null.
abbrev pub insert_session : Session → Tables → Result SqlError (Session × Tables)
insert_session s t =
    if any (has_id s.id) t.sessions || not (any (λ w. w.id == s.workspace_id) t.workspaces)
    then err SqlError.constraint
    else ok (
      s,
      record t {
        sessions =
            t.sessions
            ++ record s { pending_approval = none; owner_device_id = none; recovery_state = none }
              ∷ [];
      },
    )

-- `CreateSession`
unfoldable pub create_session : ℕ → Session → Action Session
unfolding statement
create_session now s =
    statement (
      insert_session (record s { created_at = now; updated_at = now; last_activity_at = some now }))

-- `GetByID`
unfoldable pub get_by_id : String → Action Session
unfolding statement
get_by_id id = statement (λ t. first_row (select (has_id id) t.sessions) t)

abbrev pub newest_first : Session → Session → Bool
newest_first a b = leb b.created_at a.created_at

-- `GetByWorkspaceID`
unfoldable pub get_by_workspace_id : String → Action (List Session)
unfolding statement
get_by_workspace_id workspace_id =
    query (λ t. sort_by newest_first (select (λ s. s.workspace_id == workspace_id) t.sessions))

-- `GetAll`
unfoldable pub get_all : Action (List Session)
unfolding statement
get_all = query (λ t. sort_by newest_first t.sessions)

-- The rows that `UpdateState` changes.
abbrev pub matches : String → Option String → Session → Bool
matches id none s = has_id id s
matches id (some expected) s = has_id id s && s.state == expected

abbrev pub set_state : ℕ → String → Session → Session
set_state now new_state s = record s {
  state = new_state;
  updated_at = now;
  last_activity_at = some now;
}

-- `UPDATE sessions SET ... WHERE ...`
unfoldable pub update_sessions :
    (Session → Bool) → (Session → Session) → List Session → List Session
update_sessions p f = map (λ s. if p s then f s else s)

-- `UpdateState`: whether a row was changed.
unfoldable pub update_state : ℕ → String → String → Option String → Action Bool
unfolding statement update_sessions
update_state now id new_state expected = statement (λ t. ok (
  any (matches id expected) t.sessions,
  record t {
    sessions = update_sessions (matches id expected) (set_state now new_state) t.sessions;
  },
))

-- `SetPendingApproval`
unfoldable pub set_pending_approval : ℕ → String → Option String → Action (Unit {0})
unfolding statement update_sessions
set_pending_approval db_now id approval_id = exec (λ t. record t {
  sessions =
      update_sessions (has_id id)
        (λ s. record s { pending_approval = approval_id; updated_at = db_now }) t.sessions;
})

-- `UpdateLastSequence`
unfoldable pub update_last_sequence : ℕ → String → ℤ → Action (Unit {0})
unfolding statement update_sessions
update_last_sequence db_now id sequence = exec (λ t. record t {
  sessions =
      update_sessions (has_id id) (λ s. record s { last_sequence = sequence; updated_at = db_now })
        t.sessions;
})

-- `Delete`, with the rows of the tables that refer to the session `ON DELETE CASCADE`.
unfoldable pub delete : String → Action (Unit {0})
unfolding statement
delete id = exec (λ t. record t {
  sessions = select (λ s. not (has_id id s)) t.sessions;
  runs = select (λ r. not (r.session_id == id)) t.runs;
  events = select (λ e. not (e.session_id == id)) t.events;
  approvals = select (λ a. not (a.session_id == id)) t.approvals;
})

-- `INSERT INTO runs`: the columns that it names; the others are null.
abbrev pub insert_run : Run → Tables → Result SqlError (Run × Tables)
insert_run r t =
    if any (λ x. x.id == r.id) t.runs || not (any (has_id r.session_id) t.sessions)
    then err SqlError.constraint
    else ok (
      r,
      record t {
        runs = t.runs ++ record r { ended_at = none; exit_code = none; exit_error = none } ∷ [];
      },
    )

-- `CreateRun`
unfoldable pub create_run : ℕ → Run → Action Run
unfolding statement
create_run now r = statement (insert_run (record r { created_at = now }))

abbrev pub is_active_of : String → Run → Bool
is_active_of session_id r =
    r.session_id == session_id && (r.state == RunState.active || r.state == RunState.starting)

abbrev pub run_newest_first : Run → Run → Bool
run_newest_first a b = leb b.created_at a.created_at

-- `GetActiveRun`
unfoldable pub get_active_run : String → Action Run
unfolding statement
get_active_run session_id =
    statement
      (λ t. first_row (sort_by run_newest_first (select (is_active_of session_id) t.runs)) t)

-- The columns that the migrations give table `runs`.
unfoldable pub run_columns : List String
run_columns =
    "id" ∷ "session_id" ∷ "state" ∷ "process_pid" ∷ "process_args" ∷ "started_at" ∷ "ended_at"
    ∷ "exit_code" ∷ "exit_error" ∷ "created_at" ∷ []

-- The columns that the statement of `UpdateRunState` sets.
unfoldable pub update_run_columns : List String
update_run_columns = "state" ∷ "ended_at" ∷ "exit_code" ∷ "exit_error" ∷ "updated_at" ∷ []

-- A statement is compiled against the table's columns before it runs.
abbrev pub with_columns :
    List String → List String → (Tables → Tables) → Tables → Result SqlError (Unit {0} × Tables)
with_columns used columns f t =
    if all (λ c. contains c columns) used then ok (tt, f t) else err SqlError.no_such_column

-- `UpdateRunState`
unfoldable pub update_run_state : ℕ → String → String → Option ℤ → Option String → Action (Unit {0})
unfolding statement run_columns update_run_columns contains all
update_run_state now id new_state exit_code exit_error = statement (
    with_columns update_run_columns run_columns (λ t. record t {
      runs =
          map
            (λ r.
              if r.id == id
              then record r {
                state = new_state;
                ended_at = some now;
                exit_code = exit_code;
                exit_error = exit_error;
              }
              else r)
            t.runs;
    }))
