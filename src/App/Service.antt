-- ===== src/App/Service.antt =====
-- `CreateSession` of internal/app/session_service.go, the reads of internal/app/app.go, and what the other
-- methods share.
use codeallremote.Prelude.{ℕ, String, Bool, Option, none, some, List, ◌||◌, not, ◌==◌, string_eq}
use codeallremote.Prelude.Int.{ℤ, pos}
use codeallremote.Prelude.Dict.{lookup}
use codeallremote.Prelude.Result.{Result, ok, err}
use codeallremote.Domain.{Session, Run, Workspace, Approval}
use codeallremote.Domain.SessionState
use codeallremote.Storage.Sessions.{update_state, create_run, get_active_run, set_pending_approval}
use codeallremote.Storage.Sessions
use codeallremote.Approval.Upkeep
use codeallremote.Storage.Cursor.{CursorResult, replay}
use codeallremote.Approval.DbStore.{db_store}
use codeallremote.Workspace.Registry
use codeallremote.Audit.Redaction.{Fields, text, field, no_field}
use codeallremote.Audit.Writer.{Entry}
use codeallremote.App.State.{
  Adapter, App, Outside, Clock, ServiceError, not_found, invalid, storage, Method, pure, fail,
  ◌>>=◌, ◌>>◌, attempt, dropped, with_error, guard, on_db, on_bridge, new_id, emit_event,
  record_audit,
}

-- `CreateSessionRequest`
pub record CreateSessionRequest : Type 0 where
  pub workspace_id : String
  pub adapter_id : String
  pub title : String

-- `RunHandle`, and `Accepted`: the answers of adapters.
pub record RunHandle : Type 0 where
  pub id : String
  pub pid : ℤ

pub record Accepted : Type 0 where
  pub accepted : Bool
  pub message : String

-- What an observer of a run holds: the session that `StartRun` read, and the run.
pub record Observed : Type 0 where
  pub session : Session
  pub run : Run

-- `if err != nil { return nil, ... }` for an answer that is in hand, and for a key of a map.
unfoldable pub or_fail : {E F A : Type 0} → (E → F) → Result E A → Method F A
or_fail f (ok a) = pure a
or_fail f (err e) = fail (f e)

unfoldable pub found_or : {F A : Type 0} → F → Option A → Method F A
found_or f (some a) = pure a
found_or f none = fail f

unfoldable pub adapter_of : {E : Type 0} → E → String → Method E Adapter
adapter_of e id app = found_or e (lookup id app.adapters) app

abbrev pub ok_value : {E A : Type 0} → Result E A → Option A
ok_value (ok a) = some a
ok_value (err e) = none

abbrev pub value_or : {A : Type 0} → A → Option A → A
value_or a none = a
value_or a (some b) = b

-- `wsPath`
abbrev pub ws_path : Option Workspace → String
ws_path none = ""
ws_path (some w) = w.path

abbrev pub registry_of : {E A : Type 0} → (App → Method E A) → Method E A
registry_of f app = f app app

-- The guard of `ValidateWorkspace`.
unfoldable pub check_validation : Option String → Method ServiceError (Unit {0})
check_validation none = pure tt
check_validation (some errors) = fail (invalid errors)

-- An entry of a user's action that succeeded.
abbrev pub user_action : String → String → String → String → Fields → Entry
user_action actor action target_type target context = record {
  actor_id = actor;
  actor_type = "user";
  action = action;
  target_type = target_type;
  target_id = target;
  outcome = "success";
  context = some context;
}

-- `s.State != active && s.State != waiting_approval`
abbrev pub has_run_state : Session → Bool
has_run_state s = s.state == SessionState.active || s.state == SessionState.waiting_approval

abbrev pub get_session_or : (String → ServiceError) → String → Method ServiceError Session
get_session_or e id = with_error (λ _. e id) (on_db (Sessions.get_by_id id))

-- `ListSessions`
abbrev pub list_sessions : Method ServiceError (List Session)
list_sessions = with_error storage (on_db Sessions.get_all)

-- `GetSession`
unfoldable pub get_session : String → Method ServiceError Session
get_session id = get_session_or not_found id

module _ (outside : Outside) where
  -- The session that `CreateSession` makes.
  abbrev pub new_session : String → CreateSessionRequest → Session
  new_session id req = record {
    id = id;
    workspace_id = req.workspace_id;
    adapter_id = req.adapter_id;
    state = SessionState.created;
    title = req.title;
    created_at = 0;
    updated_at = 0;
    last_activity_at = none;
    last_sequence = pos 0;
    pending_approval = none;
    owner_device_id = none;
    recovery_state = none;
  }

  unfoldable pub workspace_by_id : String → Method ServiceError Workspace
  workspace_by_id id app =
      with_error (λ _. not_found id)
        (on_db (Registry.get_by_id outside.workspace_codec outside.files id app.workspaces)) app

  -- `CreateSession`
  unfoldable pub create_session :
      Clock → String → CreateSessionRequest → Method ServiceError Session
  create_session clock actor req = do
    guard (not (req.workspace_id == "")) (invalid "workspace_id is required")
    guard (not (req.adapter_id == "")) (invalid "adapter_id is required")
    ws ← workspace_by_id req.workspace_id
    ad ← adapter_of (invalid req.adapter_id) req.adapter_id
    check_validation (ad.validate_workspace ws)
    id ← new_id outside "ses"
    s ← with_error storage (on_db (Sessions.create_session clock.now (new_session id req)))
    let ids = λ (rest : Fields).
        field "workspace_id" (text s.workspace_id) (field "adapter_id" (text s.adapter_id) rest)
    with_error storage (
        emit_event outside clock s.id "session.created"
          (ids (field "title" (text s.title) no_field)))
    dropped (
        record_audit outside clock
          (user_action actor "session_create" "session" s.id (ids no_field)))
    refreshed ← attempt (on_db (Sessions.get_by_id s.id))
    pure (value_or s (ok_value refreshed))

  -- `GetApproval`
  unfoldable pub get_approval : String → Method ServiceError Approval
  get_approval id = do
    r ← on_bridge (Upkeep.get_by_id (db_store outside.codec) id)
    or_fail (λ _. not_found id) r

  -- `GetEvents`
  unfoldable pub get_events : ℕ → ℕ → String → ℤ → ℤ → Method ServiceError CursorResult
  get_events retention now session_id after limit = do
    get_session_or not_found session_id
    with_error storage (on_db (replay retention now session_id after limit))
