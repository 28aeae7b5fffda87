-- ===== src/App/Resolve.antt =====
-- `ResolveApproval` of internal/app/session_service.go. What the adapter answers to the decision is dropped,
-- so the call is all that is left of it.
use codeallremote.Prelude.{String, Bool, true, false, Option, none, some, ◌||◌, ◌==◌, string_eq}
use codeallremote.Prelude.Dict.{lookup}
use codeallremote.Prelude.Result.{ok}
use codeallremote.Domain.{Session, Run, Approval}
use codeallremote.Storage.Sessions.{get_active_run, set_pending_approval}
use codeallremote.Storage.Sessions
use codeallremote.Approval.Bridge
use codeallremote.Approval.Bridge.{Decision, DecisionResult, BridgeError, decide}
use codeallremote.Approval.Upkeep
use codeallremote.Approval.DbStore.{db_store}
use codeallremote.Audit.Redaction.{text, field, no_field}
use codeallremote.App.State.{
  Adapter, decision_call, Outside, Clock, ServiceError, not_found, invalid, undecided, Method, pure,
  fail, ◌>>=◌, ◌>>◌, attempt, dropped, guard, on_db, on_bridge, called, emit_event, record_audit,
}
use codeallremote.App.Service.{ok_value, user_action}

-- The error of `Decide`.
unfoldable pub check_decided : String → Option BridgeError → Method ServiceError (Unit {0})
check_decided id none = pure tt
check_decided id (some Bridge.not_found) = fail (not_found id)
check_decided id (some e) = fail (undecided e)

-- The call of the adapter, if there is a run.
unfoldable pub notify_run :
    String → String → Bool → String → Option Run → Method ServiceError (Unit {0})
notify_run session_id id approved reason none = pure tt
notify_run session_id id approved reason (some run) =
    called (decision_call run.id session_id id approved reason)

unfoldable pub notify_adapter :
    String → String → Bool → String → Option Adapter → Method ServiceError (Unit {0})
notify_adapter session_id id approved reason none = pure tt
notify_adapter session_id id approved reason (some ad) = do
  run ← attempt (on_db (get_active_run session_id))
  notify_run session_id id approved reason (ok_value run)

-- The call of the adapter, if the session can be read and its adapter is registered.
unfoldable pub notify_session :
    String → String → Bool → String → Option Session → Method ServiceError (Unit {0})
notify_session session_id id approved reason none app = (ok tt, app)
notify_session session_id id approved reason (some s) app =
    notify_adapter session_id id approved reason (lookup s.adapter_id app.adapters) app

module _ (outside : Outside) (clock : Clock) where
  abbrev pub read_approval : String → Method ServiceError (Option Approval)
  read_approval id = do
    r ← on_bridge (Upkeep.get_by_id (db_store outside.codec) id)
    pure (ok_value r)

  -- `ResolveApproval` on a decision that was recorded: the event, the entry of the audit log, the session's
  -- pending approval, and the call of the adapter.
  unfoldable pub announce :
      String
      → String
      → String
      → Bool
      → String
      → DecisionResult
      → Method ServiceError (Option Approval)
  announce actor id decision approved reason result = do
    dropped (
        emit_event outside clock result.session_id "approval.resolved"
          (field "approval_id" (text id) (field "decision" (text decision) no_field)))
    dropped (
        record_audit outside clock (
          user_action actor "approval_decision" "approval" id
            (field "decision" (text decision) (field "reason" (text reason) no_field))))
    dropped (on_db (set_pending_approval clock.db_now result.session_id none))
    s ← attempt (on_db (Sessions.get_by_id result.session_id))
    notify_session result.session_id id approved reason (ok_value s)
    read_approval id

  -- `if result.AlreadyFinal`, and the rest of `ResolveApproval`.
  unfoldable pub after_check :
      Bool
      → String
      → String
      → String
      → Bool
      → String
      → DecisionResult
      → Method ServiceError (Option Approval)
  after_check true actor id decision approved reason result = read_approval id
  after_check false actor id decision approved reason result =
      announce actor id decision approved reason result

  -- `ResolveApproval`
  unfoldable pub resolve_approval :
      String → String → String → String → Method ServiceError (Option Approval)
  resolve_approval actor id decision reason = do
    guard (decision == "approve" || decision == "deny") (invalid "decision must be approve or deny")
    let approved = decision == "approve"
    let d : Decision = record { approved = approved; reason = reason; actor_id = actor }
    result ← on_bridge (decide (db_store outside.codec) clock.now id d)
    check_decided id result.error
    after_check result.already_final actor id decision approved reason result
