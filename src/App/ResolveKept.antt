-- ===== src/App/ResolveKept.antt =====
-- `ResolveApproval` keeps an invariant that `IsKept` describes, whatever the driver does.
use codeallremote.Prelude.{String, Bool, true, false, Option, none, some, List, string_eq}
use codeallremote.Prelude.Dict.{lookup}
use codeallremote.Domain.{Session, Run, Event}
use codeallremote.Storage.Database.{Tables}
use codeallremote.Approval.Bridge.{DecisionResult, BridgeError}
use codeallremote.Approval.Bridge
use codeallremote.App.State.{Adapter, Outside, Clock}
use codeallremote.App.Resolve.{
  resolve_approval, announce, notify_session, notify_adapter, notify_run, after_check,
  check_decided,
}
use codeallremote.App.Kept.{IsKept, Keeps}
use codeallremote.App.MethodsKept.{kept_rules}

module _ (P : Tables → List Event → Type 0) (kept : IsKept P) (outside : Outside)
    (clock : Clock) where
  notify_run-kept :
      (session_id id : String) (approved : Bool) (reason : String) (run : Option Run)
      → Keeps P (notify_run session_id id approved reason run)
  unfolding notify_run
  notify_run-kept session_id id approved reason none = search kept_rules
  notify_run-kept session_id id approved reason (some run) = search kept_rules

  notify_adapter-kept :
      (session_id id : String) (approved : Bool) (reason : String) (ad : Option Adapter)
      → Keeps P (notify_adapter session_id id approved reason ad)
  unfolding notify_adapter
  notify_adapter-kept session_id id approved reason none = search kept_rules
  notify_adapter-kept session_id id approved reason (some ad) = search (kept_rules, notify_run-kept)

  notify_session-kept :
      (session_id id : String) (approved : Bool) (reason : String) (s : Option Session)
      → Keeps P (notify_session session_id id approved reason s)
  unfolding notify_session
  notify_session-kept session_id id approved reason none = record { apply = λ app p. p }
  notify_session-kept session_id id approved reason (some s) = record {
    apply = λ app p.
        (notify_adapter-kept session_id id approved reason (lookup s.adapter_id app.adapters)).apply
          app p;
  }

  announce-kept :
      (actor id decision : String) (approved : Bool) (reason : String) (result : DecisionResult)
      → Keeps P (announce outside clock actor id decision approved reason result)
  unfolding announce
  announce-kept actor id decision approved reason result =
      search (kept_rules, notify_session-kept) fits 4000 depth 60

  after_check-kept :
      (final : Bool) (actor id decision : String) (approved : Bool) (reason : String)
      (result : DecisionResult)
      → Keeps P (after_check outside clock final actor id decision approved reason result)
  unfolding after_check
  after_check-kept true actor id decision approved reason result = search kept_rules
  after_check-kept false actor id decision approved reason result = search announce-kept

  check_decided-kept : (id : String) (e : Option BridgeError) → Keeps P (check_decided id e)
  unfolding check_decided
  check_decided-kept id none = search kept_rules
  check_decided-kept id (some Bridge.not_found) = search kept_rules
  check_decided-kept id (some Bridge.not_pending) = search kept_rules
  check_decided-kept id (some Bridge.expired) = search kept_rules
  check_decided-kept id (some (Bridge.persisting t)) = search kept_rules
  check_decided-kept id (some (Bridge.updating t)) = search kept_rules

  pub resolve_approval-kept :
      (actor id decision reason : String)
      → Keeps P (resolve_approval outside clock actor id decision reason)
  unfolding resolve_approval
  resolve_approval-kept actor id decision reason =
      search (kept_rules, check_decided-kept, after_check-kept) fits 4000 depth 60
