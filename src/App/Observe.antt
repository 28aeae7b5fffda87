-- ===== src/App/Observe.antt =====
-- `observeAdapter` of internal/app/session_service.go and its handlers. They change the session that
-- `StartRun` gave them, which is threaded through; no other code writes that object.
use codeallremote.Prelude.{
  ℕ, zero, suc, String, Option, none, some, List, [], ◌∷◌, if◌then◌else◌, ◌==◌, string_eq,
}
use codeallremote.Prelude.Int.{ℤ, pos, negsuc}
use codeallremote.Prelude.Result.{Result, ok, err}
use codeallremote.Domain.{Session, Approval}
use codeallremote.Domain.SessionState
use codeallremote.Storage.Sessions.{update_state, update_run_state, set_pending_approval}
use codeallremote.Storage.Sessions
use codeallremote.Approval.Bridge.{Request, BridgeError, request, get_pending_by_session}
use codeallremote.Approval.Upkeep.{cancel}
use codeallremote.Approval.DbStore.{db_store}
use codeallremote.Session.Machine.{can_transition}
use codeallremote.Lifecycle.Manager.{complete_run}
use codeallremote.Audit.Redaction.{Fields, text, other, field, no_field}
use codeallremote.App.State.{
  Outside, Clock, ServiceError, Method, pure, ◌>>=◌, ◌>>◌, attempt, dropped, on_db, on_bridge,
  new_id, emit_event,
}
use codeallremote.App.Service.{Observed, ok_value}

-- The payloads, where their JSON text can be read.
pub record ApprovalRequestPayload : Type 0 where
  pub approval_id : String
  pub category : String
  pub action_kind : String
  pub human_readable_context : String
  pub structured_payload : Option (Option String)

pub record StatusChangePayload : Type 0 where
  pub old_state : String
  pub new_state : String
  pub reason : String

pub record CompletionPayload : Type 0 where
  pub exit_code : ℤ
  pub exit_error : String

-- `AdapterSignal`: its type with its payload, `none` where `json.Unmarshal` fails. The types that
-- `observeAdapter` has no case for are `other_signal`.
pub data Signal : Type 0 where
  output_signal : Option String → Signal
  approval_signal : Option ApprovalRequestPayload → Signal
  status_signal : Option StatusChangePayload → Signal
  completion_signal : Option CompletionPayload → Signal
  error_signal : Option String → Signal
  other_signal : Signal

-- `parseContent` and `parseErrMessage`
abbrev pub decoded_text : Option String → String
decoded_text none = ""
decoded_text (some t) = t

-- `strPtrOrNil`
abbrev pub str_ptr_or_nil : String → Option String
str_ptr_or_nil s = if s == "" then none else some s

-- `SessionStateCompleted`, or `SessionStateFailed` for an exit code that is not 0.
abbrev pub state_after : ℤ → String
state_after (pos zero) = SessionState.completed
state_after (pos (suc n)) = SessionState.failed
state_after (negsuc n) = SessionState.failed

abbrev pub refresh : Session → Option Session → Session
refresh s none = s
refresh s (some row) = record s { state = row.state }

-- `if a.stateMachine.CanTransition(...) { a.sessions.UpdateState(...) }`
unfoldable pub move_state : ℕ → Session → String → Method ServiceError (Unit {0})
move_state now s to app =
    if can_transition s.state to
    then dropped (on_db (update_state now s.id to (some s.state))) app
    else (ok tt, app)

-- The end of `observeAdapter`: `a.lifecycle.CompleteRun`.
unfoldable pub end_run : String → Method ServiceError (Unit {0})
end_run run_id app = (ok tt, record app { lifecycle = complete_run run_id app.lifecycle })

module _ (outside : Outside) (clock : Clock) where
  -- `approvalReq.ID`, or a new identifier where it is empty.
  unfoldable pub request_id : String → Method ServiceError String
  request_id id = if id == "" then new_id outside "apr" else pure id

  abbrev pub emit : String → String → Fields → Method ServiceError (Unit {0})
  emit session_id event_type payload =
      dropped (emit_event outside clock session_id event_type payload)

  -- `handleApprovalRequest` from the approval on that the bridge has accepted.
  unfoldable pub after_request :
      Observed → Result BridgeError Approval → Method ServiceError Session
  after_request o (err e) = pure o.session
  after_request o (ok ap) = do
    dropped (on_db (set_pending_approval clock.db_now o.session.id (some ap.id)))
    move_state clock.now o.session SessionState.waiting_approval
    row ← attempt (on_db (Sessions.get_by_id o.session.id))
    emit o.session.id "approval.requested" (
        field "approval_id" (text ap.id)
          (field "category" (text ap.category) (field "run_id" (text o.run.id) no_field)))
    pure (refresh o.session (ok_value row))

  -- `handleApprovalRequest`: the session, with the state that it was given.
  unfoldable pub handle_approval_request :
      Observed → Option ApprovalRequestPayload → Method ServiceError Session
  handle_approval_request o none = pure o.session
  handle_approval_request o (some p) = do
    id ← request_id p.approval_id
    let req : Request = record {
      id = id;
      session_id = o.session.id;
      category = p.category;
      action_kind = p.action_kind;
      human_readable_context = p.human_readable_context;
      structured_payload = p.structured_payload;
    }
    r ← on_bridge (request (db_store outside.codec) clock.now req)
    after_request o r

  -- `handleStatusChange`
  unfoldable pub handle_status_change :
      Observed → Option StatusChangePayload → Method ServiceError (Unit {0})
  handle_status_change o none = pure tt
  handle_status_change o (some p) = emit o.session.id "run.status_change" (
      field "old_state" (text p.old_state) (
        field "new_state" (text p.new_state)
          (field "reason" (text p.reason) (field "run_id" (text o.run.id) no_field))))

  -- The loop of `handleCompletion` over the pending approvals.
  unfoldable pub after_cancel :
      String → String → Option BridgeError → Method ServiceError (Unit {0})
  after_cancel session_id id (some e) = pure tt
  after_cancel session_id id none =
      emit session_id "approval.resolved"
        (field "approval_id" (text id) (field "decision" (text "cancelled") no_field))

  unfoldable pub cancel_pending : String → List Approval → Method ServiceError (Unit {0})
  cancel_pending session_id [] = pure tt
  cancel_pending session_id (ap ∷ rest) = do
    e ← on_bridge (cancel (db_store outside.codec) clock.now ap.id)
    after_cancel session_id ap.id e
    cancel_pending session_id rest

  unfoldable pub cancel_all : String → Method ServiceError (Unit {0})
  cancel_all session_id app =
      cancel_pending session_id (get_pending_by_session session_id app.approvals) app

  -- `handleCompletion`
  unfoldable pub handle_completion :
      Observed → Option CompletionPayload → Method ServiceError (Unit {0})
  handle_completion o none = pure tt
  handle_completion o (some p) = do
    let new_state = state_after p.exit_code
    dropped (
        on_db (
          update_run_state clock.now o.run.id new_state (some p.exit_code)
            (str_ptr_or_nil p.exit_error)))
    move_state clock.now o.session new_state
    emit o.session.id "run.completed" (
        field "run_id" (text o.run.id) (
          field "exit_code" (other (outside.decimal p.exit_code))
            (field "exit_error" (text p.exit_error) no_field)))
    cancel_all o.session.id

  -- The body of the loop of `observeAdapter`: the session, as the handlers leave it.
  unfoldable pub handle_signal : Observed → Signal → Method ServiceError Session
  handle_signal o (output_signal content) = do
    emit o.session.id "run.output"
        (field "content" (text (decoded_text content)) (field "run_id" (text o.run.id) no_field))
    pure o.session
  handle_signal o (approval_signal p) = handle_approval_request o p
  handle_signal o (status_signal p) = do handle_status_change o p; pure o.session
  handle_signal o (completion_signal p) = do handle_completion o p; pure o.session
  handle_signal o (error_signal message) = do
    emit o.session.id "run.error"
        (field "message" (text (decoded_text message)) (field "run_id" (text o.run.id) no_field))
    pure o.session
  handle_signal o other_signal = pure o.session

  -- `observeAdapter`, on the signals that the adapter gives until it closes the channel.
  unfoldable pub observe_adapter : Observed → List Signal → Method ServiceError (Unit {0})
  observe_adapter o [] = end_run o.run.id
  observe_adapter o (sig ∷ rest) = do
    s ← handle_signal o sig
    observe_adapter (record o { session = s }) rest
