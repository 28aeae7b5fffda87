-- ===== src/App/MethodsKept.antt =====
-- The methods of the service keep an invariant that `IsKept` describes, whatever the driver and the
-- adapters do.
use codeallremote.Prelude.{
  ℕ, String, refl, contains, sym, subst, str_iff, Bool-cases, true, Option, none, some, List, ◌≡◌,
  inl, inr, ◌==◌, string_eq,
}
use codeallremote.Prelude.Dict.{lookup}
use codeallremote.Prelude.Result.{Result, ok, err}
use codeallremote.Domain.{Session, Event}
use codeallremote.Domain.SessionState
use codeallremote.Storage.Database.{Tables}
use codeallremote.Session.Machine.{can_transition, valid_transitions}
use codeallremote.Storage.Sessions.{update_state}
use codeallremote.App.State.{Outside, Clock, ServiceError, called, on_db}
use codeallremote.App.Service.{
  CreateSessionRequest, RunHandle, Accepted, create_session, adapter_of, found_or, check_validation,
  has_run_state,
}
use codeallremote.App.Runs.{
  start_run, submit_prompt, interrupt, after_start, check_accepting, start_adapter, register,
}
use codeallremote.App.Kept.{
  IsKept, AllowsMoves, Holds, Keeps, bind-kept, guard-kept, guard_only-kept, pure-kept, fail-kept,
  attempt-kept, dropped-kept, with_error-kept, called-kept, new_id-kept, emit_event-kept,
}
use codeallremote.Lifecycle.Manager.{is_accepting_runs}
use codeallremote.App.StatementsKept.{
  get_by_id-kept, get_active_run-kept, update_state-kept, set_pending_approval-kept,
  create_session-kept, create_run-kept, record_audit-kept, workspace_by_id-kept,
}
use codeallremote.App.BridgeKept.{decided-kept, approval-kept}

-- The rules for the parts of the methods.
pub ruleset kept_rules = (
  bind-kept, guard-kept, pure-kept, fail-kept, attempt-kept, dropped-kept, with_error-kept,
  called-kept, new_id-kept, emit_event-kept, get_by_id-kept, get_active_run-kept, update_state-kept,
  set_pending_approval-kept, create_session-kept, create_run-kept, record_audit-kept,
  workspace_by_id-kept, decided-kept, approval-kept,
)

can_activate : can_transition SessionState.starting SessionState.active ≡ true
unfolding can_transition valid_transitions lookup contains
can_activate = refl

can_fail : can_transition SessionState.starting SessionState.failed ≡ true
unfolding can_transition valid_transitions lookup contains
can_fail = refl

pub can_interrupt :
    (s : Session) → has_run_state s ≡ true → can_transition s.state SessionState.interrupted ≡ true
unfolding can_transition valid_transitions lookup contains
can_interrupt s h = elim (Bool-cases (s.state == SessionState.active)) [
  | inl y ↦
      subst (λ q. can_transition q SessionState.interrupted ≡ true)
        (sym ((str_iff s.state SessionState.active).0 y)) refl
  | inr n ↦
      let w : (s.state == SessionState.waiting_approval) ≡ true = rw n at h in
      subst (λ q. can_transition q SessionState.interrupted ≡ true)
        (sym ((str_iff s.state SessionState.waiting_approval).0 w)) refl
]

module _ (P : Tables → List Event → Type 0) (kept : IsKept P) (outside : Outside)
    (clock : Clock) where
  found-kept : {A : Type 0} (e : ServiceError) (o : Option A) → Keeps P (found_or e o)
  unfolding found_or
  found-kept e none = fail-kept P e
  found-kept e (some a) = pure-kept P a

  pub adapter-kept : (e : ServiceError) (id : String) → Keeps P (adapter_of e id)
  unfolding adapter_of
  adapter-kept e id = record {
    apply = λ app p. (found-kept e (lookup id app.adapters)).apply app p;
  }

  pub submit_prompt-kept :
      (answer : Accepted) (actor id prompt : String)
      → Keeps P (submit_prompt outside clock answer actor id prompt)
  unfolding submit_prompt
  submit_prompt-kept answer actor id prompt = search (kept_rules, adapter-kept) fits 4000 depth 40

  checked-kept : (o : Option String) → Keeps P (check_validation o)
  unfolding check_validation
  checked-kept none = search kept_rules
  checked-kept (some errors) = search kept_rules

  pub create_session_method-kept :
      (actor : String) (req : CreateSessionRequest)
      → Keeps P (create_session outside clock actor req)
  unfolding create_session
  create_session_method-kept actor req =
      search (kept_rules, adapter-kept, checked-kept) fits 4000 depth 60

  pub accepting-kept : Keeps P check_accepting
  unfolding check_accepting
  accepting-kept = record {
    apply = λ app p. (guard_only-kept P (is_accepting_runs app.lifecycle) _).apply app p;
  }

  registered-kept : (now : ℕ) (id run : String) → Keeps P (register now id run)
  unfolding register
  registered-kept now id run = record { apply = λ app p. p }

  pub start_adapter-kept : (s : Session) (path : String) → Keeps P (start_adapter s path)
  unfolding start_adapter called
  start_adapter-kept s path = record { apply = λ app p. p }

  -- What follows the answer of `Start` keeps what the moves out of `starting` keep.
  module _ (id : String)
      (leaving : (to : String)
        → can_transition SessionState.starting to ≡ true
        → Keeps P (on_db (update_state clock.now id to (some SessionState.starting)))) where
    pub after_start-kept :
        (actor : String) (s : Session) (answer : Result String RunHandle)
        → Keeps P (after_start outside clock actor id s answer)
    unfolding after_start
    after_start-kept actor s (ok handle) =
        search (kept_rules, registered-kept, leaving, can_activate) fits 4000 depth 60
    after_start-kept actor s (err e) = search (kept_rules, leaving, can_fail) fits 4000 depth 60

module _ (P : Tables → List Event → Type 0) (kept : IsKept P) (moves : AllowsMoves P)
    (outside : Outside) (clock : Clock) where
  pub interrupt-kept :
      (answer : Accepted) (actor id : String) → Keeps P (interrupt outside clock answer actor id)
  unfolding interrupt
  interrupt-kept answer actor id =
      search (kept_rules, adapter-kept, can_interrupt) fits 4000 depth 40

  pub start_run-kept :
      (answer : Result String RunHandle) (actor id : String)
      → Keeps P (start_run outside clock answer actor id)
  unfolding start_run
  start_run-kept answer actor id =
      let rest =
        after_start-kept P kept outside clock id
          (λ to h. update_state-kept P moves clock.now id to SessionState.starting h) in
      search (kept_rules, accepting-kept, adapter-kept, start_adapter-kept, rest) fits 4000 depth 60
