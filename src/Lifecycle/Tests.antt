-- ===== src/Lifecycle/Tests.antt =====
-- The theorems of the lifecycle package at concrete inputs.
use codeallremote.Prelude.{
  zero, false, String, true, none, some, [], ◌∷◌, ◌≡◌, ◌≢◌, refl, not, string_eq,
}
use mathlib.Core.Option
use codeallremote.Prelude.Int.{pos}
use codeallremote.Prelude.Dict.{lookup}
use codeallremote.Prelude.Result.{ok}
use codeallremote.Domain.{Session}
use codeallremote.Storage.Database.{sound, Tables}
use codeallremote.Storage.States.{find, state_of, HasDistinctIds}
use codeallremote.Session.Machine.{can_transition}
use codeallremote.Lifecycle.Recovery.{Reconciler, Counts, session_state_of, reconcile_on_startup}
use codeallremote.Lifecycle.Reconcile.{reconciled_state, reconcile_on_startup_states}
use codeallremote.Lifecycle.Drain.{left_state, has_undrained, shutdown_work_states}
use codeallremote.Lifecycle.Transitions.{is_interim, can_transition-session_state_of}
use codeallremote.Lifecycle.Manager.{
  Manager, DrainingRun, timed_out, shutdown_work, draining, stopped, go_on, panic, new_manager,
  start_begin, start_end, shutdown_begin, shutdown_end, register_run, is_shutting_down,
  is_accepting_runs,
}
use codeallremote.Lifecycle.Phases.{
  shutdown_begun, started, here, next, new_manager-IsValid, Run-no_panic, run_registered, none_yet,
  and_then, Interleaving-shutting_down, start_overlapped,
}

abbrev session_in : String → String → Session
session_in id state = record {
  id = id;
  workspace_id = "w1";
  adapter_id = "claude-code";
  state = state;
  title = "";
  created_at = 10;
  updated_at = 20;
  last_activity_at = some 20;
  last_sequence = pos 3;
  pending_approval = none;
  owner_device_id = none;
  recovery_state = none;
}

abbrev tables : Tables
tables = record {
  sessions = session_in "s1" "active" ∷ session_in "s2" "completed" ∷ [];
  runs = [];
  events = [];
  approvals = [];
  devices = [];
  access_tokens = [];
  next_event_id = 1;
  workspaces = [];
  audit_log = [];
  next_audit_id = 1;
}

-- An adapter that reports each session as interrupted and recoverable.
abbrev adapter : Reconciler
adapter s = ok ("interrupted", true)

reconcile_on_startup_states_example :
    (counts : Counts) × (t' : Tables) × (reconcile_on_startup 50 (some adapter) (sound tables)
      ≡ (ok counts, sound t'))
    × (state_of "s1" t'.sessions
        ≡ Option.map (reconciled_state (some adapter)) (find "s1" tables.sessions))
unfolding HasDistinctIds find
reconcile_on_startup_states_example =
    reconcile_on_startup_states 50 (some adapter) tables "s1" (refl, (refl, tt))

abbrev run : DrainingRun
run = record { session_id = "s2"; run_id = "r1"; started_at = 5; done = false }

shutdown_work_states_example :
    (t' : Tables) × (shutdown_work 50 (λ id. timed_out) (("r1", run) ∷ []) (sound tables)
      ≡ (ok tt, sound t'))
    × (state_of "s2" t'.sessions
        ≡ Option.map
            (left_state (has_undrained (λ id. timed_out) "s2" (("r1", run) ∷ [])))
            (state_of "s2" tables.sessions))
unfolding HasDistinctIds find
shutdown_work_states_example =
    shutdown_work_states 50 (λ id. timed_out) (("r1", run) ∷ []) tables "s2" (refl, (refl, tt))

can_transition-session_state_of_example :
    can_transition "recovering" (session_state_of "active") ≡ not (is_interim "active")
can_transition-session_state_of_example = can_transition-session_state_of "active"

abbrev running_manager : Manager
running_manager = start_end new_manager

abbrev draining_manager : Manager
draining_manager = record new_manager { phase = draining; shutdown_ch = true }

Run-no_panic_example :
    (shutdown_begin running_manager ≢ panic) × (shutdown_end draining_manager ≢ panic)
unfolding start_begin start_end shutdown_begin new_manager
Run-no_panic_example =
    Run-no_panic {m = running_manager} {m' = draining_manager} (next here (started refl refl))
      (next here (shutdown_begun refl)) refl

Interleaving-shutting_down_example :
    (is_shutting_down draining_manager ≡ true)
    × (lookup "r1" draining_manager.active_runs ≡ none)
    × (zero ≡ 0)
unfolding register_run is_shutting_down new_manager lookup
Interleaving-shutting_down_example =
    Interleaving-shutting_down {m = draining_manager} {m' = draining_manager} "r1"
      (and_then none_yet (run_registered 5 "s1" "r1" refl refl)) refl refl

start_overlapped_example :
    (m1 : Manager) × (m2 : Manager) × (start_begin new_manager ≡ ok tt)
    × (shutdown_begin new_manager ≡ go_on m1)
    × (shutdown_end m1 ≡ go_on m2)
    × (m2.phase ≡ stopped)
    × (is_accepting_runs (start_end m2) ≡ true)
    × (shutdown_begin (start_end m2) ≡ panic)
unfolding new_manager
start_overlapped_example = start_overlapped new_manager refl new_manager-IsValid
