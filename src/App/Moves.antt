-- ===== src/App/Moves.antt =====
-- How each request of the world outside moves the state of a session: the methods of
-- internal/app/session_service.go that call `UpdateState`.
use codeallremote.Prelude.{
  String, Bool, true, false, Option, none, some, List, ◌≡◌, inl, inr, refl, subst, sym,
  if◌then◌else◌,
}
use codeallremote.Prelude.Result.{Result, ok, err}
use codeallremote.Domain.{Session, Event, Approval}
use codeallremote.Domain.SessionState
use codeallremote.Storage.Database.{Tables}
use codeallremote.Storage.Sessions.{update_state}
use codeallremote.Session.Machine.{can_transition}
use codeallremote.Approval.Bridge.{BridgeError}
use codeallremote.App.State.{App, Outside, Clock, ServiceError, dropped, on_db}
use codeallremote.App.Service.{RunHandle, Accepted, Observed}
use codeallremote.App.Runs.{start_run, interrupt}
use codeallremote.App.Observe.{
  ApprovalRequestPayload, CompletionPayload, state_after, move_state, after_request,
  handle_approval_request, handle_completion,
}
use codeallremote.App.Kept.{IsKept, Holds, Keeps}
use codeallremote.App.MethodsKept.{
  kept_rules, adapter-kept, accepting-kept, start_adapter-kept, after_start-kept, can_interrupt,
}
use codeallremote.App.StatementsKept.{update_run_state-kept}
use codeallremote.App.BridgeKept.{requested-kept}
use codeallremote.App.ObserveKept.{request_id-kept, cancel_all-kept}
use codeallremote.App.Near.{
  IsToward, IsStarted, HasState, HasState-IsKept, update_state-leads, Leads, later, now_first,
  guard-leads, kept-leads, dropped-leads, with_error-leads,
}

module _ (outside : Outside) (clock : Clock) (id q : String) where
  abbrev IsAt : Tables → List Event → Type 0
  IsAt = HasState id (λ r. r ≡ q)

  abbrev at : IsKept IsAt
  at = HasState-IsKept id (λ r. r ≡ q)

  -- `StartRun`
  module _ where
    abbrev HasStarted : Tables → List Event → Type 0
    HasStarted = HasState id (IsStarted q)

    pub unmoved : (t : Tables) (ps : List Event) → IsAt t ps → HasStarted t ps
    unmoved t ps h = (h.0, h.1, inl h.2)

    leave :
        (to : String)
        → can_transition SessionState.starting to ≡ true
        → IsStarted q SessionState.starting
        → IsStarted q to
    leave to c (inl e) = inr (inl (subst (λ x. can_transition x to ≡ true) e c, inl (sym e)))
    leave to c (inr (inl (e, h))) = inr (inr (e, c))
    leave to c (inr (inr (e, h))) = inr (inr (e, c))

    leaving :
        (j to : String)
        → can_transition SessionState.starting to ≡ true
        → Keeps HasStarted (on_db (update_state clock.now j to (some SessionState.starting)))
    leaving j to c = record {
      apply =
          update_state-leads id (IsStarted q) (IsStarted q) SessionState.starting to (λ r x. x)
            (leave to c) clock.now j;
    }

    entering :
        (j from : String)
        → can_transition from SessionState.starting ≡ true
        → Leads IsAt HasStarted unmoved
            (on_db (update_state clock.now j SessionState.starting (some from)))
    entering j from c = record {
      leads =
          update_state-leads id (λ r. r ≡ q) (IsStarted q) from SessionState.starting (λ r. inl)
            (λ e.
              inr (inl (subst (λ x. can_transition x SessionState.starting ≡ true) e c, inr refl)))
            clock.now j;
    }

    pub start_run-leads :
        (answer : Result String RunHandle) (actor j : String)
        → Leads IsAt HasStarted unmoved (start_run outside clock answer actor j)
    unfolding start_run
    start_run-leads answer actor j =
        let kept = HasState-IsKept id (IsStarted q) in
        let rest = after_start-kept HasStarted kept outside clock j (leaving j) in
        later IsAt HasStarted unmoved _ _ (search kept_rules) (λ s.
          later IsAt HasStarted unmoved _ _ (accepting-kept IsAt at outside clock) (λ u.
            guard-leads IsAt HasStarted unmoved _ _ _ (λ c.
              later IsAt HasStarted unmoved _ _ (adapter-kept IsAt at outside clock _ _) (λ a.
                later IsAt HasStarted unmoved _ _ (search (kept_rules, at)) (λ ws.
                  now_first IsAt HasStarted unmoved _ _
                    (with_error-leads IsAt HasStarted unmoved _ _ (entering j s.state c))
                    (λ v. search (kept_rules, start_adapter-kept, rest)))))))

  -- The methods that move the session towards one state.
  module _ (to : String) where
    abbrev IsGone : Tables → List Event → Type 0
    IsGone = HasState id (IsToward to q)

    pub stayed : (t : Tables) (ps : List Event) → IsAt t ps → IsGone t ps
    stayed t ps h = (h.0, h.1, inl h.2)

    going :
        (j from : String)
        → can_transition from to ≡ true
        → Leads IsAt IsGone stayed (on_db (update_state clock.now j to (some from)))
    going j from c = record {
      leads =
          update_state-leads id (λ r. r ≡ q) (IsToward to q) from to (λ r. inl)
            (λ e. inr (refl, subst (λ x. can_transition x to ≡ true) e c)) clock.now j;
    }

    moved :
        (b : Bool) (j from : String) (app : App)
        → can_transition from to ≡ b
        → Holds IsAt app
        → Holds IsGone
            (if b
              then dropped {F = ServiceError} (on_db (update_state clock.now j to (some from))) app
              else (ok tt, app)).1
    moved true j from app c h =
        (dropped-leads IsAt IsGone stayed {F = ServiceError} _ (going j from c)).leads app h
    moved false j from app c h = stayed app.db.tables app.published h

    move_state-leads : (s : Session) → Leads IsAt IsGone stayed (move_state clock.now s to)
    unfolding move_state
    move_state-leads s = record {
      leads = λ app h. moved (can_transition s.state to) s.id s.state app refl h;
    }

  pub interrupt-leads :
      (answer : Accepted) (actor j : String)
      → Leads IsAt
          (IsGone SessionState.interrupted)
          (stayed SessionState.interrupted)
          (interrupt outside clock answer actor j)
  unfolding interrupt
  interrupt-leads answer actor j =
      let gone = HasState-IsKept id (IsToward SessionState.interrupted q) in
      later _ _ (stayed SessionState.interrupted) _ _ (search kept_rules) (λ s.
        guard-leads _ _ (stayed SessionState.interrupted) _ _ _ (λ c.
          later _ _ (stayed SessionState.interrupted) _ _ (adapter-kept IsAt at outside clock _ _)
            (λ a. later _ _ (stayed SessionState.interrupted) _ _ (search kept_rules) (λ run.
              later _ _ (stayed SessionState.interrupted) _ _ (search kept_rules) (λ u.
                guard-leads _ _ (stayed SessionState.interrupted) _ _ _ (λ accepted.
                  now_first _ _ (stayed SessionState.interrupted) _ _
                    (dropped-leads _ _ (stayed SessionState.interrupted) _
                      (going SessionState.interrupted j s.state (can_interrupt s c)))
                    (λ v. search kept_rules)))))))

  after_request-leads :
      (o : Observed) (r : Result BridgeError Approval)
      → Leads IsAt
          (IsGone SessionState.waiting_approval)
          (stayed SessionState.waiting_approval)
          (after_request outside clock o r)
  unfolding after_request
  after_request-leads o (err e) =
      kept-leads _ _ (stayed SessionState.waiting_approval) _ (search kept_rules)
  after_request-leads o (ok a) =
      let gone = HasState-IsKept id (IsToward SessionState.waiting_approval q) in
      later _ _ (stayed SessionState.waiting_approval) _ _ (search (kept_rules, at)) (λ u.
        now_first _ _ (stayed SessionState.waiting_approval) _ _
          (move_state-leads SessionState.waiting_approval o.session)
          (λ v. search kept_rules fits 4000 depth 60))

  pub handle_approval_request-leads :
      (o : Observed) (p : Option ApprovalRequestPayload)
      → Leads IsAt
          (IsGone SessionState.waiting_approval)
          (stayed SessionState.waiting_approval)
          (handle_approval_request outside clock o p)
  unfolding handle_approval_request
  handle_approval_request-leads o none =
      kept-leads _ _ (stayed SessionState.waiting_approval) _ (search kept_rules)
  handle_approval_request-leads o (some p) =
      later _ _ (stayed SessionState.waiting_approval) _ _ (request_id-kept IsAt at outside clock _)
        (λ i.
          later _ _ (stayed SessionState.waiting_approval) _ _
            (search (kept_rules, at, requested-kept)) (λ r. after_request-leads o r))

  pub handle_completion-leads :
      (o : Observed) (p : CompletionPayload)
      → Leads IsAt
          (IsGone (state_after p.exit_code))
          (stayed (state_after p.exit_code))
          (handle_completion outside clock o (some p))
  unfolding handle_completion
  handle_completion-leads o p =
      let gone = HasState-IsKept id (IsToward (state_after p.exit_code) q) in
      later _ _ (stayed (state_after p.exit_code)) _ _
        (search (kept_rules, at, update_run_state-kept))
        (λ u.
          now_first _ _ (stayed (state_after p.exit_code)) _ _
            (move_state-leads (state_after p.exit_code) o.session)
            (λ v. search (kept_rules, cancel_all-kept) fits 4000 depth 60))
