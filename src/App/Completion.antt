-- ===== src/App/Completion.antt =====
-- The state of a session when its run completes, and when an approval is resolved.
use codeallremote.Prelude.{
  ℕ, String, Bool, true, false, Option, some, List, ◌≡◌, refl, ◌&&◌, if◌then◌else◌, ◌==◌, string_eq,
  str_iff, Bool-cases, inl, inr, ◌∙◌, ap, subst, sym, contains,
}
use mathlib.Core.Option
use codeallremote.Prelude.Dict.{lookup}
use codeallremote.Prelude.Result.{Result, ok}
use codeallremote.Domain.{Session, Event}
use codeallremote.Domain.SessionState
use codeallremote.Storage.Database.{Tables}
use codeallremote.Storage.Sessions.{has_id, update_state, update_sessions}
use codeallremote.Storage.Cursor.{advance}
use codeallremote.Storage.States.{state_of, state_of-update}
use codeallremote.Session.Machine.{can_transition, valid_transitions}
use codeallremote.App.State.{App, Outside, Clock, ServiceError, dropped, on_db}
use codeallremote.App.Service.{RunHandle, Observed}
use codeallremote.App.Runs.{start_run}
use codeallremote.App.Resolve.{resolve_approval}
use codeallremote.App.Observe.{CompletionPayload, move_state, handle_completion}
use codeallremote.App.Kept.{IsKept, Holds, Keeps, dropped-kept, on_db-kept}
use codeallremote.App.ResolveKept.{resolve_approval-kept}
use codeallremote.App.ObserveKept.{handle_completion-kept}
use codeallremote.App.Near.{state_of-snoc, state_of-same}
use codeallremote.App.Returns.{start_run-CanStart}

-- The session is in state `q`.
abbrev IsIn : String → String → Tables → List Event → Type 0
IsIn id q t ps = state_of id t.sessions ≡ some q

IsIn-IsKept : (id q : String) → IsKept (IsIn id q)
IsIn-IsKept id q = record {
  session_added = λ t ps s n h. state_of-snoc id t.sessions s h;
  pending_set = λ t ps now j a h. state_of-same id (has_id j) _ (λ s. (refl, refl)) t.sessions ∙ h;
  runs_changed = λ t ps rs h. h;
  approvals_changed = λ t ps l h. h;
  audit_changed = λ t ps l n h. h;
  event_appended = λ t ps now e seq payload hp h.
      let kept : IsIn id q
          (record t {
            sessions = update_sessions (has_id e.session_id) (advance now seq) t.sessions;
          })
          ps =
        state_of-same id (has_id e.session_id) (advance now seq) (λ s. (refl, refl)) t.sessions
        ∙ h in
      (kept, kept);
}

unmoved :
    (b : Bool) (q from to : String) → (q == from) ≡ false → (if b && q == from then to else q) ≡ q
unmoved true q from to h = rw h refl
unmoved false q from to h = refl

module _ (id q : String) (now : ℕ) (s : Session) (to : String)
    (other : (q == s.state) ≡ false) where
  update_state-unmoved : Keeps (IsIn id q) (on_db (update_state now s.id to (some s.state)))
  unfolding update_state
  update_state-unmoved = on_db-kept (IsIn id q) _ (λ t ps h.
      state_of-update now s.id to (some s.state) id t.sessions
      ∙ ap (Option.map _) h
      ∙ ap some (unmoved (s.id == id) q s.state to other))

  moved_or :
      (b : Bool) (app : App)
      → IsIn id q app.db.tables app.published
      → Holds
          (IsIn id q)
          (if b
            then dropped {F = ServiceError} (on_db (update_state now s.id to (some s.state))) app
            else (ok tt, app)).1
  moved_or true app h = (dropped-kept (IsIn id q) _ update_state-unmoved).apply app h
  moved_or false app h = h

  move_state-unmoved : Keeps (IsIn id q) (move_state now s to)
  unfolding move_state
  move_state-unmoved = record { apply = λ app h. moved_or (can_transition s.state to) app h }

-- A state from which a run may start is not `active`.
active-CanStart :
    (state : String)
    → can_transition state SessionState.starting ≡ true
    → (SessionState.active == state) ≡ false
unfolding can_transition valid_transitions lookup contains
active-CanStart state h = elim (Bool-cases (SessionState.active == state)) [
  | inr n ↦ n
  | inl y ↦
      let e : SessionState.active ≡ state = (str_iff SessionState.active state).0 y in
      let f : false ≡ true = subst (λ x. can_transition x SessionState.starting ≡ true) (sym e) h in
      cc
]

-- The completion of a run that `StartRun` has started does not complete its session: where the session is
-- `active`, it is still `active` after `handleCompletion` with the session that `StartRun` gave the observer,
-- whatever the exit code, and whichever statements fail.
pub start_run-handle_completion :
    (outside : Outside) (clock later : Clock) (answer : Result String RunHandle) (actor id : String)
    (app : App) {o : Observed}
    → (start_run outside clock answer actor id app).0 ≡ ok o
    → (p : Option CompletionPayload) (app' : App)
    → state_of o.session.id app'.db.tables.sessions ≡ some SessionState.active
    → state_of o.session.id (handle_completion outside later o p app').1.db.tables.sessions
      ≡ some SessionState.active
start_run-handle_completion outside clock later answer actor id app {o} started p app' h =
    let c = (start_run-CanStart outside clock answer actor id).apply app o started in
    (handle_completion-kept (IsIn o.session.id SessionState.active)
        (IsIn-IsKept o.session.id SessionState.active) outside later o p
        (λ to.
          move_state-unmoved o.session.id SessionState.active later.now o.session to
            (active-CanStart o.session.state c))).apply
      app' h

-- `ResolveApproval` leaves every session in the state that it is in, so that one that waits for the approval
-- waits after the decision too, whatever the decision, and whichever statements fail.
pub resolve_approval-state_of :
    (outside : Outside) (clock : Clock) (actor approval decision reason : String) (app : App)
    (id : String) {q : String}
    → state_of id app.db.tables.sessions ≡ some q
    → state_of id
        (resolve_approval outside clock actor approval decision reason app).1.db.tables.sessions
      ≡ some q
resolve_approval-state_of outside clock actor approval decision reason app id {q} h =
    (resolve_approval-kept (IsIn id q) (IsIn-IsKept id q) outside clock actor approval decision
        reason).apply
      app h
