-- ===== src/Session/Machine.antt =====
-- `validTransitions` and `StateMachine` of internal/session/manager.go. The lock of the state machine
-- guards a table that is never written, so it has no part in the model.
use codeallremote.Prelude.{
  String, Bool, false, Option, none, some, List, [], ◌∷◌, contains, if◌then◌else◌, string_eq,
}
use codeallremote.Prelude.Dict.{Dict, lookup}
use codeallremote.Prelude.Result.{Result, ok, err}
use codeallremote.Domain.SessionState

unfoldable pub valid_transitions : Dict (List String)
valid_transitions =
    (SessionState.created, SessionState.starting ∷ SessionState.failed ∷ [])
    ∷ (SessionState.starting, SessionState.active ∷ SessionState.failed ∷ [])
    ∷ (
      SessionState.active,
      SessionState.waiting_approval ∷ SessionState.interrupted ∷ SessionState.completed
          ∷ SessionState.failed ∷ [],
    )
    ∷ (
      SessionState.waiting_approval,
      SessionState.active ∷ SessionState.interrupted ∷ SessionState.failed ∷ [],
    )
    ∷ (SessionState.interrupted, SessionState.resumable ∷ SessionState.failed ∷ [])
    ∷ (SessionState.completed, SessionState.resumable ∷ [])
    ∷ (SessionState.failed, [])
    ∷ (SessionState.resumable, SessionState.starting ∷ [])
    ∷ (
      SessionState.recovering,
      SessionState.active ∷ SessionState.completed ∷ SessionState.failed ∷ [],
    )
    ∷ []

-- The loop of `CanTransition` over the targets that the table gives, if it has the state.
abbrev pub allows : Option (List String) → String → Bool
allows none to = false
allows (some valid_targets) to = contains to valid_targets

-- `CanTransition`
unfoldable pub can_transition : String → String → Bool
can_transition from to = allows (lookup from valid_transitions) to

-- The error of `Transition`, with the two states that its text names.
pub data TransitionError : Type 0 where
  invalid_transition : String → String → TransitionError

-- `Transition`
unfoldable pub transition : String → String → Result TransitionError String
transition from to = if can_transition from to then ok to else err (invalid_transition from to)
