-- ===== src/Lifecycle/Recovery.antt =====
-- The part of internal/lifecycle/manager.go that works on the database: `reconcileOnStartup`,
-- `resolveRecovery`, `markFailed`, `markSessionForRecovery` and `markUnresolvedForRecovery`. One reading
-- of the clock stands for those of one call. The adapter's answers are a parameter.
use codeallremote.Prelude.{
  ℕ, ◌+◌, String, Bool, true, false, Option, none, some, List, [], ◌∷◌, ◌||◌, if◌then◌else◌, ◌==◌,
  string_eq,
}
use codeallremote.Prelude.Result.{Result, ok, err}
use codeallremote.Domain.{Session}
use codeallremote.Domain.SessionState
use codeallremote.Domain.RunState
use codeallremote.Storage.Database.{SqlError, Action, pure, ◌>>=◌, ◌>>◌, attempt}
use codeallremote.Storage.Sessions.{get_all, update_state}

-- `isNonterminalState`
unfoldable pub is_nonterminal_state : String → Bool
is_nonterminal_state state =
    state == SessionState.created
    || (state == SessionState.starting
        || (state == SessionState.active
            || (state == SessionState.waiting_approval || state == SessionState.recovering)))

-- The `switch` of `resolveRecovery`.
unfoldable pub session_state_of : String → String
session_state_of state =
    if state == SessionState.active
    then SessionState.active
    else if state == SessionState.completed
    then SessionState.completed
    else if state == SessionState.failed
    then SessionState.failed
    else if state == SessionState.resumable
    then SessionState.resumable
    else if state == RunState.starting || state == RunState.pending
    then SessionState.starting
    else if state == RunState.interrupted
    then SessionState.interrupted
    else SessionState.failed

-- `RunReconciler.Recover`: the state that the adapter reports and whether it can recover, or an error.
abbrev pub Reconciler : Type 0
Reconciler = Session → Result String (String × Bool)

abbrev pub resolved : Result String (String × Bool) → Result String String
resolved (err e) = err e
resolved (ok (state, can_recover)) =
    ok (if can_recover then session_state_of state else SessionState.failed)

-- `resolveRecovery`; without a reconciler every session has failed.
unfoldable pub resolve_recovery : Option Reconciler → Session → Result String String
resolve_recovery none s = ok SessionState.failed
resolve_recovery (some recover) s = resolved (recover s)

-- The counts of reconciled and failed sessions.
abbrev pub Counts : Type 0
Counts = ℕ × ℕ

abbrev pub count_failed : Counts → Counts
count_failed (reconciled, failed) = (reconciled, failed + 1)

abbrev pub count_reconciled : Counts → Counts
count_reconciled (reconciled, failed) = (reconciled + 1, failed)

abbrev pub count_update : Result SqlError Bool → Counts → Counts
count_update (ok found) counts = count_reconciled counts
count_update (err e) counts = count_failed counts

module _ (now : ℕ) where
  -- `markFailed`; its error is only logged.
  unfoldable pub mark_failed : String → Action (Unit {0})
  mark_failed id = do attempt (update_state now id SessionState.failed none); pure tt

  -- `markSessionForRecovery`; its error is only logged.
  unfoldable pub mark_session_for_recovery : String → Action (Unit {0})
  mark_session_for_recovery id = do
    attempt (update_state now id SessionState.recovering none)
    pure tt

  -- The body of the loop from the adapter's answer on.
  abbrev pub settle_session : Session → Result String String → Counts → Action Counts
  settle_session s (err e) counts = do mark_failed s.id; pure (count_failed counts)
  settle_session s (ok state) counts = do
    updated ← attempt (update_state now s.id state (some SessionState.recovering))
    pure (count_update updated counts)

  abbrev pub settle_marked :
      Option Reconciler → Session → Result SqlError Bool → Counts → Action Counts
  settle_marked reconciler s (err e) counts = pure (count_failed counts)
  settle_marked reconciler s (ok found) counts =
      settle_session s (resolve_recovery reconciler s) counts

  abbrev pub reconcile_if : Bool → Option Reconciler → Session → Counts → Action Counts
  reconcile_if false reconciler s counts = pure counts
  reconcile_if true reconciler s counts = do
    marked ← attempt (update_state now s.id SessionState.recovering none)
    settle_marked reconciler s marked counts

  -- The body of the loop in `reconcileOnStartup`.
  unfoldable pub reconcile_session : Option Reconciler → Session → Counts → Action Counts
  reconcile_session reconciler s counts =
      reconcile_if (is_nonterminal_state s.state) reconciler s counts

  unfoldable pub reconcile_sessions : Option Reconciler → List Session → Counts → Action Counts
  reconcile_sessions reconciler [] counts = pure counts
  reconcile_sessions reconciler (s ∷ rest) counts = do
    counts' ← reconcile_session reconciler s counts
    reconcile_sessions reconciler rest counts'

  -- `reconcileOnStartup`, with the counts that it logs.
  unfoldable pub reconcile_on_startup : Option Reconciler → Action Counts
  reconcile_on_startup reconciler = do
    sessions ← get_all
    reconcile_sessions reconciler sessions (0, 0)

  abbrev pub mark_unresolved : Session → Action (Unit {0})
  mark_unresolved s =
      if is_nonterminal_state s.state then mark_session_for_recovery s.id else pure tt

  unfoldable pub mark_all_unresolved : List Session → Action (Unit {0})
  mark_all_unresolved [] = pure tt
  mark_all_unresolved (s ∷ rest) = do mark_unresolved s; mark_all_unresolved rest

  -- `markUnresolvedForRecovery`
  unfoldable pub mark_unresolved_for_recovery : Action (Unit {0})
  mark_unresolved_for_recovery = do sessions ← get_all; mark_all_unresolved sessions
