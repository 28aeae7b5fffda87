-- ===== src/App/Runs.antt =====
-- `StartRun`, `SubmitPrompt` and `Interrupt` of internal/app/session_service.go. The answer of the adapter
-- is an argument, and the readings of the clocks are one in a call.
use Prim.Native.String.{len}
use codeallremote.Prelude.{ℕ, String, none, some, not, ◌==◌, string_eq}
use codeallremote.Prelude.Int.{pos}
use codeallremote.Prelude.Dict.{lookup}
use codeallremote.Prelude.Result.{Result, ok, err}
use codeallremote.Domain.{Session, Run}
use codeallremote.Domain.SessionState
use codeallremote.Domain.RunState
use codeallremote.Storage.Sessions.{update_state, create_run, get_active_run}
use codeallremote.Session.Machine.{can_transition}
use codeallremote.Lifecycle.Manager.{register_run, is_accepting_runs}
use codeallremote.Audit.Redaction.{Fields, text, other, field, no_field}
use codeallremote.App.State.{
  start_call, prompt_call, interrupt_call, Outside, Clock, ServiceError, not_found, invalid,
  conflict, storage, adapter_failed, Method, pure, fail, ◌>>=◌, ◌>>◌, attempt, dropped, with_error,
  guard, on_db, called, emit_event, record_audit,
}
use codeallremote.App.Service.{
  RunHandle, Accepted, Observed, adapter_of, ok_value, ws_path, user_action, has_run_state,
  get_session_or, workspace_by_id,
}

-- `a.lifecycle.IsAcceptingRuns()`
unfoldable pub check_accepting : Method ServiceError (Unit {0})
check_accepting app =
    guard (is_accepting_runs app.lifecycle) (conflict "server is shutting down") app

unfoldable pub start_adapter : Session → String → Method ServiceError (Unit {0})
start_adapter s path app = called (start_call s.id path (lookup s.adapter_id app.adapter_env)) app

-- `a.lifecycle.RegisterRun`, whose error nobody looks at.
unfoldable pub register : ℕ → String → String → Method ServiceError (Unit {0})
register now session_id run_id app =
    (ok tt, record app { lifecycle = (register_run now session_id run_id app.lifecycle).1 })

abbrev pub new_run : String → String → Run
new_run id session_id = record {
  id = id;
  session_id = session_id;
  state = RunState.active;
  process_pid = none;
  process_args = none;
  started_at = none;
  ended_at = none;
  exit_code = none;
  exit_error = none;
  created_at = 0;
}

-- `run, err := a.sessions.GetActiveRun(sessionID)` and its guard.
abbrev pub active_run_or : String → Method ServiceError Run
active_run_or session_id =
    with_error (λ _. conflict "no active run") (on_db (get_active_run session_id))

module _ (outside : Outside) (clock : Clock) where
  -- `StartRun` from the answer of `Start` on.
  unfoldable pub after_start :
      String → String → Session → Result String RunHandle → Method ServiceError Observed
  after_start actor session_id s (err e) = do
    dropped
        (on_db (update_state clock.now session_id SessionState.failed (some SessionState.starting)))
    dropped
        (emit_event outside clock session_id "run.start_failed" (field "error" (text e) no_field))
    fail (adapter_failed e)
  after_start actor session_id s (ok handle) = do
    run ← with_error storage (on_db (create_run clock.now (new_run handle.id session_id)))
    register clock.now session_id run.id
    dropped
        (on_db (update_state clock.now session_id SessionState.active (some SessionState.starting)))
    with_error storage (
        emit_event outside clock session_id "run.started" (
          field "run_id" (text run.id) (field "pid" (other (outside.decimal handle.pid)) no_field)))
    dropped (
        record_audit outside clock (
          user_action actor "session_start" "session" session_id
            (field "run_id" (text run.id) no_field)))
    pure (record { session = s; run = run })

  -- `StartRun`: the run, with the session that the observer is given.
  unfoldable pub start_run :
      Result String RunHandle → String → String → Method ServiceError Observed
  start_run answer actor session_id = do
    s ← get_session_or not_found session_id
    check_accepting
    guard (can_transition s.state SessionState.starting) (conflict s.state)
    adapter_of (invalid s.adapter_id) s.adapter_id
    ws ← attempt (workspace_by_id outside s.workspace_id)
    with_error storage
        (on_db (update_state clock.now session_id SessionState.starting (some s.state)))
    start_adapter s (ws_path (ok_value ws))
    after_start actor session_id s answer

  abbrev pub prompt_fields : Run → String → Fields
  prompt_fields run prompt =
      field "run_id" (text run.id)
        (field "text_length" (other (outside.decimal (pos (len prompt)))) no_field)

  -- `SubmitPrompt`
  unfoldable pub submit_prompt :
      Accepted → String → String → String → Method ServiceError (Unit {0})
  submit_prompt answer actor session_id prompt = do
    guard (not (prompt == "")) (invalid "text is required")
    s ← get_session_or not_found session_id
    guard (has_run_state s) (conflict s.state)
    adapter_of (invalid "adapter not available") s.adapter_id
    run ← active_run_or session_id
    called (prompt_call run.id session_id prompt)
    guard answer.accepted (conflict answer.message)
    with_error storage (emit_event outside clock session_id "run.prompt" (prompt_fields run prompt))
    dropped (
        record_audit outside clock
          (user_action actor "prompt_submit" "session" session_id (prompt_fields run prompt)))
    pure tt

  -- `Interrupt`
  unfoldable pub interrupt : Accepted → String → String → Method ServiceError (Unit {0})
  interrupt answer actor session_id = do
    s ← get_session_or not_found session_id
    guard (has_run_state s) (conflict s.state)
    adapter_of (invalid "adapter not available") s.adapter_id
    run ← active_run_or session_id
    called (interrupt_call run.id session_id)
    guard answer.accepted (conflict answer.message)
    dropped (on_db (update_state clock.now session_id SessionState.interrupted (some s.state)))
    with_error storage (
        emit_event outside clock session_id "run.interrupted"
          (field "run_id" (text run.id) no_field))
    dropped (
        record_audit outside clock (
          user_action actor "interrupt" "session" session_id
            (field "run_id" (text run.id) no_field)))
    pure tt
