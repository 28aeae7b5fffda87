-- ===== src/Lifecycle/Manager.antt =====
-- `Manager` of internal/lifecycle/manager.go. What runs under the lock is one step: `Start` and
-- `Shutdown` give the lock up while they work on the database, so each is a first and a last step with
-- database work between.
use codeallremote.Prelude.{
  ℕ, String, Bool, true, false, Option, [], ◌∷◌, if◌then◌else◌, string_eq, length,
}
use codeallremote.Prelude.Dict.{Dict, insert, erase}
use codeallremote.Prelude.Result.{Result, ok, err}
use codeallremote.Storage.Database.{Action, Db, pure, ◌>>◌, attempt}
use codeallremote.Lifecycle.Recovery.{
  Reconciler, reconcile_on_startup, mark_session_for_recovery, mark_unresolved_for_recovery,
}

-- `Phase`
pub data Phase : Type 0 where
  starting running draining stopped : Phase

-- `drainingRun`; `done` says whether the channel is closed.
pub record DrainingRun : Type 0 where
  pub session_id : String
  pub run_id : String
  pub started_at : ℕ
  pub done : Bool

-- `Manager`, without the database, the reconciler and the logger. The flags say which channels are
-- closed.
pub record Manager : Type 0 where
  pub phase : Phase
  pub active_runs : Dict DrainingRun
  pub drain_timeout : ℕ
  pub shutdown_ch : Bool
  pub done : Bool

-- `NewManager`
unfoldable pub new_manager : Manager
new_manager = record {
  phase = starting;
  active_runs = [];
  drain_timeout = 30_000_000_000;
  shutdown_ch = false;
  done = false;
}

pub data PhaseError : Type 0 where
  cannot_start cannot_register : Phase → PhaseError

abbrev pub is_starting : Phase → Bool
is_starting starting = true
is_starting _ = false

abbrev pub is_running : Phase → Bool
is_running running = true
is_running _ = false

-- The first step of `Start`: the test of the phase.
unfoldable pub start_begin : Manager → Result PhaseError (Unit {0})
start_begin m = if is_starting m.phase then ok tt else err (cannot_start m.phase)

-- The last step of `Start`.
unfoldable pub start_end : Manager → Manager
start_end m = record m { phase = running }

-- `Start`, with nothing between its steps. The error of the reconciliation is only logged.
unfoldable pub start : ℕ → Option Reconciler → Manager → Db → Result PhaseError Manager × Db
unfolding start_begin start_end
start now reconciler m db = elim (start_begin m) [
  | err e ↦ (err e, db)
  | ok u ↦ (ok (start_end m), (reconcile_on_startup now reconciler db).1)
]

-- How a locked step of `Shutdown` ends: with a new state, at once because the phase says so, or in the
-- panic of closing a closed channel.
pub data ShutdownStep : Type 0 where
  go_on : Manager → ShutdownStep
  nothing_to_do : ShutdownStep
  panic : ShutdownStep

abbrev pub close_shutdown_ch : Manager → ShutdownStep
close_shutdown_ch m =
    if m.shutdown_ch then panic else go_on (record m { phase = draining; shutdown_ch = true })

-- The first step of `Shutdown`. The runs to drain are those of `active_runs`.
unfoldable pub shutdown_begin : Manager → ShutdownStep
shutdown_begin m = elim m.phase [
  | starting ↦ close_shutdown_ch m
  | running ↦ close_shutdown_ch m
  | draining ↦ nothing_to_do
  | stopped ↦ nothing_to_do
]

-- The last step of `Shutdown`.
unfoldable pub shutdown_end : Manager → ShutdownStep
shutdown_end m = if m.done then panic else go_on (record m { phase = stopped; done = true })

-- How the wait for a run ends: its channel is closed, the timeout passes, or the context is cancelled.
pub data Wait : Type 0 where
  drained timed_out cancelled : Wait

-- `drainRun`
unfoldable pub drain_run : ℕ → Wait → DrainingRun → Action (Unit {0})
drain_run now drained run = pure tt
drain_run now timed_out run = mark_session_for_recovery now run.session_id
drain_run now cancelled run = mark_session_for_recovery now run.session_id

unfoldable pub drain_runs : ℕ → (String → Wait) → Dict DrainingRun → Action (Unit {0})
drain_runs now wait [] = pure tt
drain_runs now wait ((id, run) ∷ runs) = do drain_run now (wait id) run; drain_runs now wait runs

-- The work of `Shutdown` between its steps.
unfoldable pub shutdown_work : ℕ → (String → Wait) → Dict DrainingRun → Action (Unit {0})
shutdown_work now wait runs = do
  drain_runs now wait runs
  attempt (mark_unresolved_for_recovery now)
  pure tt

-- `RegisterRun`
unfoldable pub register_run :
    ℕ → String → String → Manager → Result PhaseError DrainingRun × Manager
register_run now session_id run_id m =
    let run : DrainingRun = record {
      session_id = session_id;
      run_id = run_id;
      started_at = now;
      done = false;
    } in
    if is_running m.phase
    then (ok run, record m { active_runs = insert run_id run m.active_runs })
    else (err (cannot_register m.phase), m)

-- `CompleteRun`. The run's channel is closed, which whoever waits for the run sees, and it is taken out
-- of the map.
unfoldable pub complete_run : String → Manager → Manager
complete_run run_id m = record m { active_runs = erase run_id m.active_runs }

-- `IsAcceptingRuns`
unfoldable pub is_accepting_runs : Manager → Bool
is_accepting_runs m = is_running m.phase

-- `IsShuttingDown`
unfoldable pub is_shutting_down : Manager → Bool
is_shutting_down m = elim m.phase [ draining ↦ true | stopped ↦ true | _ ↦ false ]

-- `ActiveRunCount`
unfoldable pub active_run_count : Manager → ℕ
active_run_count m = length m.active_runs

-- `SetDrainTimeout`
unfoldable pub set_drain_timeout : ℕ → Manager → Manager
set_drain_timeout d m = record m { drain_timeout = d }
