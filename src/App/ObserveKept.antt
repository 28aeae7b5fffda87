-- ===== src/App/ObserveKept.antt =====
-- The handlers of `observeAdapter` keep an invariant that `IsKept` describes, whatever the driver does.
use codeallremote.Prelude.{
  ℕ, String, Bool, true, false, Option, none, some, List, [], ◌∷◌, ◌≡◌, refl, ◌==◌, string_eq,
  if◌then◌else◌,
}
use codeallremote.Prelude.Result.{Result, ok, err}
use codeallremote.Domain.{Session, Event, Approval}
use codeallremote.Storage.Database.{Tables}
use codeallremote.Storage.Sessions.{update_state}
use codeallremote.Session.Machine.{can_transition}
use codeallremote.Approval.Bridge.{BridgeError, get_pending_by_session}
use codeallremote.App.State.{App, Outside, Clock, ServiceError, dropped, new_id, pure, on_db}
use codeallremote.App.Service.{Observed}
use codeallremote.App.Observe.{
  Signal, output_signal, approval_signal, status_signal, completion_signal, error_signal,
  other_signal, ApprovalRequestPayload, StatusChangePayload, CompletionPayload, move_state,
  request_id, after_request, handle_approval_request, handle_status_change, after_cancel,
  cancel_pending, cancel_all, handle_completion, handle_signal, end_run, observe_adapter,
}
use codeallremote.App.Kept.{
  IsKept, AllowsMoves, Holds, Keeps, bind-kept, dropped-kept, pure-kept, new_id-kept,
}
use codeallremote.App.StatementsKept.{update_state-kept, update_run_state-kept}
use codeallremote.App.BridgeKept.{requested-kept, cancelled-kept}
use codeallremote.App.MethodsKept.{kept_rules}

module _ (P : Tables → List Event → Type 0) where
  pub end_run-kept : (run_id : String) → Keeps P (end_run run_id)
  unfolding end_run
  end_run-kept run_id = record { apply = λ app p. p }

module _ (P : Tables → List Event → Type 0) (moves : AllowsMoves P) where
  moved :
      (b : Bool) (now : ℕ) (s : Session) (to : String) (app : App)
      → can_transition s.state to ≡ b
      → Holds P app
      → Holds P
          (if b
            then dropped {F = ServiceError} (on_db (update_state now s.id to (some s.state))) app
            else (ok tt, app)).1
  moved true now s to app h p =
      (dropped-kept P _ (update_state-kept P moves now s.id to s.state h)).apply app p
  moved false now s to app h p = p

  move_state-kept : (now : ℕ) (s : Session) (to : String) → Keeps P (move_state now s to)
  unfolding move_state
  move_state-kept now s to = record {
    apply = λ app p. moved (can_transition s.state to) now s to app refl p;
  }

module _ (P : Tables → List Event → Type 0) (kept : IsKept P) (outside : Outside)
    (clock : Clock) where
  id_or-kept :
      (b : Bool) (id : String)
      → Keeps P (if b then new_id outside {E = ServiceError} "apr" else pure id)
  id_or-kept true id = new_id-kept P outside "apr"
  id_or-kept false id = pure-kept P id

  pub request_id-kept : (id : String) → Keeps P (request_id outside clock id)
  unfolding request_id
  request_id-kept id = id_or-kept (id == "") id

  pub handle_status_change-kept :
      (o : Observed) (p : Option StatusChangePayload)
      → Keeps P (handle_status_change outside clock o p)
  unfolding handle_status_change
  handle_status_change-kept o none = search kept_rules
  handle_status_change-kept o (some p) = search kept_rules

  after_cancel-kept :
      (session_id id : String) (e : Option BridgeError)
      → Keeps P (after_cancel outside clock session_id id e)
  unfolding after_cancel
  after_cancel-kept session_id id none = search kept_rules
  after_cancel-kept session_id id (some e) = search kept_rules

  cancel_pending-kept :
      (session_id : String) (l : List Approval)
      → Keeps P (cancel_pending outside clock session_id l)
  unfolding cancel_pending
  cancel_pending-kept session_id [] = search kept_rules
  cancel_pending-kept session_id (ap ∷ rest) =
      bind-kept P _ _ (cancelled-kept P kept outside.codec clock.now ap.id) (λ e.
        bind-kept P _ _ (after_cancel-kept session_id ap.id e)
          (λ u. cancel_pending-kept session_id rest))

  pub cancel_all-kept : (session_id : String) → Keeps P (cancel_all outside clock session_id)
  unfolding cancel_all
  cancel_all-kept session_id = record {
    apply = λ app p.
        (cancel_pending-kept session_id (get_pending_by_session session_id app.approvals)).apply app
          p;
  }

  -- The completion of a run keeps what its move of the session's state keeps.
  pub handle_completion-kept :
      (o : Observed) (p : Option CompletionPayload)
      → ((to : String) → Keeps P (move_state clock.now o.session to))
      → Keeps P (handle_completion outside clock o p)
  unfolding handle_completion
  handle_completion-kept o none moving = search kept_rules
  handle_completion-kept o (some p) moving =
      search (kept_rules, update_run_state-kept, cancel_all-kept) fits 4000 depth 60

module _ (P : Tables → List Event → Type 0) (kept : IsKept P) (moves : AllowsMoves P)
    (outside : Outside) (clock : Clock) where
  after_request-kept :
      (o : Observed) (r : Result BridgeError Approval) → Keeps P (after_request outside clock o r)
  unfolding after_request
  after_request-kept o (ok ap) = search (kept_rules, move_state-kept) fits 4000 depth 60
  after_request-kept o (err e) = search kept_rules

  handle_approval_request-kept :
      (o : Observed) (p : Option ApprovalRequestPayload)
      → Keeps P (handle_approval_request outside clock o p)
  unfolding handle_approval_request
  handle_approval_request-kept o none = search kept_rules
  handle_approval_request-kept o (some p) =
      search (kept_rules, request_id-kept, requested-kept, after_request-kept) fits 4000 depth 60

  pub handle_signal-kept :
      (o : Observed) (sig : Signal) → Keeps P (handle_signal outside clock o sig)
  unfolding handle_signal
  handle_signal-kept o (output_signal content) = search kept_rules fits 4000 depth 60
  handle_signal-kept o (approval_signal p) = search handle_approval_request-kept
  handle_signal-kept o (status_signal p) = search (kept_rules, handle_status_change-kept)
  handle_signal-kept o (completion_signal p) =
      search (kept_rules, handle_completion-kept, move_state-kept)
  handle_signal-kept o (error_signal message) = search kept_rules fits 4000 depth 60
  handle_signal-kept o other_signal = search kept_rules

  pub observe_adapter-kept :
      (o : Observed) (sigs : List Signal) → Keeps P (observe_adapter outside clock o sigs)
  unfolding observe_adapter
  observe_adapter-kept o [] = end_run-kept P o.run.id
  observe_adapter-kept o (sig ∷ rest) =
      bind-kept P _ _ (handle_signal-kept o sig)
        (λ s. observe_adapter-kept (record { session = s; run = o.run }) rest)
