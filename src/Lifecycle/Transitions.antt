-- ===== src/Lifecycle/Transitions.antt =====
-- The states that recovery chooses, against the state machine of a session.
use codeallremote.Prelude.{
  String, Bool, ◌≡◌, refl, not, ◌||◌, ◌==◌, string_eq, str_iff, Bool-cases, inl, inr, contains,
}
use codeallremote.Prelude.Dict.{lookup}
use codeallremote.Domain.SessionState
use codeallremote.Domain.RunState
use codeallremote.Session.Machine.{can_transition, valid_transitions}
use codeallremote.Lifecycle.Recovery.{session_state_of}

-- The reports of an adapter that recovery maps to `resumable`, `starting` or `interrupted`.
abbrev pub is_interim : String → Bool
is_interim state =
    state == SessionState.resumable
    || (state == RunState.starting || (state == RunState.pending || state == RunState.interrupted))

-- The state that recovery moves a session to out of `recovering` is one that the session state machine
-- allows exactly when the adapter does not report `resumable`, `starting`, `pending` or `interrupted`:
-- for these four the written state is refused by `CanTransition`.
pub can_transition-session_state_of :
    (state : String)
    → can_transition SessionState.recovering (session_state_of state) ≡ not (is_interim state)
unfolding can_transition valid_transitions lookup contains session_state_of
can_transition-session_state_of state = elim (Bool-cases (state == "active")) [
  | inl e ↦ rw ((str_iff _ _).0 e) refl
  | inr a ↦ elim (Bool-cases (state == "completed")) [
    | inl e ↦ rw ((str_iff _ _).0 e) refl
    | inr c ↦ elim (Bool-cases (state == "failed")) [
      | inl e ↦ rw ((str_iff _ _).0 e) refl
      | inr f ↦ elim (Bool-cases (state == "resumable")) [
        | inl e ↦ rw ((str_iff _ _).0 e) refl
        | inr r ↦ elim (Bool-cases (state == "starting")) [
          | inl e ↦ rw ((str_iff _ _).0 e) refl
          | inr s ↦ elim (Bool-cases (state == "pending")) [
            | inl e ↦ rw ((str_iff _ _).0 e) refl
            | inr p ↦ elim (Bool-cases (state == "interrupted")) [
              | inl e ↦ rw ((str_iff _ _).0 e) refl
              | inr i ↦ rw a (rw c (rw f (rw r (rw s (rw p (rw i refl))))))
            ]
          ]
        ]
      ]
    ]
  ]
]
