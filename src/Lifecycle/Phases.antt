-- ===== src/Lifecycle/Phases.antt =====
-- The phases of the server over every interleaving of the manager's steps.
use codeallremote.Prelude.{
  ℕ, suc, ◌≤◌, String, Bool, true, false, none, ◌≡◌, ◌≢◌, refl, arith, string_eq,
}
use codeallremote.Prelude.Dict.{lookup, lookup-erase}
use codeallremote.Prelude.Result.{ok}
use codeallremote.Lifecycle.Manager.{
  Phase, starting, running, draining, stopped, Manager, go_on, panic, start_begin, start_end,
  shutdown_begin, shutdown_end, register_run, complete_run, set_drain_timeout, is_accepting_runs,
  is_shutting_down, new_manager,
}

-- Which channels are closed in which phase.
abbrev pub ClosedAs : Phase → Bool → Bool → Type 0
ClosedAs starting ch done = (ch ≡ false) × (done ≡ false)
ClosedAs running ch done = (ch ≡ false) × (done ≡ false)
ClosedAs draining ch done = (ch ≡ true) × (done ≡ false)
ClosedAs stopped ch done = (ch ≡ true) × (done ≡ true)

unfoldable pub IsValid : Manager → Type 0
IsValid m = ClosedAs m.phase m.shutdown_ch m.done

-- One locked step of the manager, where `Start` is not overlapped by `Shutdown`. The call of `Shutdown`
-- that found work to do takes its last step while the phase is `draining`.
pub data Step (m m' : Manager) : Type 0 where
  started : start_begin m ≡ ok tt → m' ≡ start_end m → Step m m'
  registered :
      (now : ℕ) (session_id run_id : String)
      → m' ≡ (register_run now session_id run_id m).1
      → Step m m'
  completed : (run_id : String) → m' ≡ complete_run run_id m → Step m m'
  timeout_set : (d : ℕ) → m' ≡ set_drain_timeout d m → Step m m'
  shutdown_begun : shutdown_begin m ≡ go_on m' → Step m m'
  shutdown_ended : m.phase ≡ draining → shutdown_end m ≡ go_on m' → Step m m'

abbrev pub rank : Phase → ℕ
rank starting = 0
rank running = 1
rank draining = 2
rank stopped = 3

-- Every step of a manager whose closed channels are those of its phase keeps them so, and the phase does
-- not go back.
Step-IsValid :
    (m m' : Manager) → Step m m' → IsValid m → IsValid m' × (rank m.phase ≤ rank m'.phase)
unfolding IsValid start_begin start_end register_run complete_run set_drain_timeout shutdown_begin
    shutdown_end
Step-IsValid m m' (started b e) v = ground arith
Step-IsValid m m' (registered now s r e) v = ground arith
Step-IsValid m m' (completed r e) v = ground arith
Step-IsValid m m' (timeout_set d e) v = ground arith
Step-IsValid m m' (shutdown_begun e) v = ground arith
Step-IsValid m m' (shutdown_ended d e) v = ground arith

-- Sequences of steps.
pub data Run (m : Manager) : Manager → Type 0 where
  here : Run m m
  next : {m' m'' : Manager} → Run m m' → Step m' m'' → Run m m''

pub new_manager-IsValid : IsValid new_manager
unfolding IsValid new_manager
new_manager-IsValid = (refl, refl)

Run-IsValid : {m m' : Manager} → IsValid m → Run m m' → IsValid m'
Run-IsValid v here = v
Run-IsValid v (next {m' = x} {m'' = y} r s) = (Step-IsValid x y s (Run-IsValid v r)).0

no_panic-begin : (m : Manager) → IsValid m → shutdown_begin m ≢ panic
unfolding IsValid shutdown_begin
no_panic-begin m v = λ e. ground arith

no_panic-end : (m : Manager) → IsValid m → m.phase ≡ draining → shutdown_end m ≢ panic
unfolding IsValid shutdown_end
no_panic-end m v d = λ e. ground arith

-- In a manager that any sequence of steps reaches from a new one, the first step of `Shutdown` does not
-- panic; and in one so reached whose phase is `draining`, neither does the last step. A step of `Start`
-- is here not overlapped by `Shutdown`.
pub Run-no_panic :
    {m m' : Manager}
    → Run new_manager m
    → Run new_manager m'
    → m'.phase ≡ draining
    → (shutdown_begin m ≢ panic) × (shutdown_end m' ≢ panic)
Run-no_panic {m} {m'} r r' d = (
  no_panic-begin m (Run-IsValid new_manager-IsValid r),
  no_panic-end m' (Run-IsValid new_manager-IsValid r') d,
)

-- One locked step of the manager beside `n` calls of `Start` that have passed their test and have not taken
-- their last step. The calls of `Shutdown` may take their steps at any time.
pub data Interleaved (m : Manager) (n : ℕ) (m' : Manager) (n' : ℕ) : Type 0 where
  start_begun : start_begin m ≡ ok tt → m' ≡ m → n' ≡ suc n → Interleaved m n m' n'
  start_ended : n ≡ suc n' → m' ≡ start_end m → Interleaved m n m' n'
  run_registered :
      (now : ℕ) (session_id run_id : String)
      → m' ≡ (register_run now session_id run_id m).1
      → n' ≡ n
      → Interleaved m n m' n'
  run_completed : (run_id : String) → m' ≡ complete_run run_id m → n' ≡ n → Interleaved m n m' n'
  timeout_changed : (d : ℕ) → m' ≡ set_drain_timeout d m → n' ≡ n → Interleaved m n m' n'
  drain_begun : shutdown_begin m ≡ go_on m' → n' ≡ n → Interleaved m n m' n'
  drain_ended : shutdown_end m ≡ go_on m' → n' ≡ n → Interleaved m n m' n'

pub data Interleaving (m : Manager) (n : ℕ) : Manager → ℕ → Type 0 where
  none_yet : Interleaving m n m n
  and_then :
      {m' m'' : Manager} {n' n'' : ℕ}
      → Interleaving m n m' n'
      → Interleaved m' n' m'' n''
      → Interleaving m n m'' n''

-- The manager is shutting down, no call of `Start` is in progress, and no run of the id is active.
abbrev IsClosing : String → Manager → ℕ → Type 0
IsClosing id m n = (is_shutting_down m ≡ true) × (lookup id m.active_runs ≡ none) × (n ≡ 0)

Interleaved-IsClosing :
    (id : String) (m : Manager) (n : ℕ) (m' : Manager) (n' : ℕ)
    → Interleaved m n m' n'
    → IsClosing id m n
    → IsClosing id m' n'
unfolding is_shutting_down start_begin start_end register_run complete_run set_drain_timeout
    shutdown_begin shutdown_end
Interleaved-IsClosing id m n m' n' (start_begun b e k) h = ground arith
Interleaved-IsClosing id m n m' n' (start_ended k e) h = ground arith
Interleaved-IsClosing id m n m' n' (run_registered now s r e k) h = ground arith
Interleaved-IsClosing id m n m' n' (run_completed r e k) h =
    ground (arith, lookup-erase r id m.active_runs)
Interleaved-IsClosing id m n m' n' (timeout_changed d e k) h = ground arith
Interleaved-IsClosing id m n m' n' (drain_begun e k) h = ground arith
Interleaved-IsClosing id m n m' n' (drain_ended e k) h = ground arith

-- From a manager that is shutting down while no call of `Start` is in progress, and that has no active run of
-- some id, every interleaving of the steps of the manager's methods, the two of `Start` taken apart, leads to a
-- manager that is shutting down, beside no call of `Start` in progress, and has no active run of this id.
pub Interleaving-shutting_down :
    {m m' : Manager} {n' : ℕ} (id : String)
    → Interleaving m 0 m' n'
    → is_shutting_down m ≡ true
    → lookup id m.active_runs ≡ none
    → (is_shutting_down m' ≡ true) × (lookup id m'.active_runs ≡ none) × (n' ≡ 0)
Interleaving-shutting_down id none_yet sd e = (sd, e, refl)
Interleaving-shutting_down id (and_then {m' = x} {m'' = y} {n' = k} {n'' = l} r s) sd e =
    Interleaved-IsClosing id x k y l s (Interleaving-shutting_down id r sd e)

-- In the phase `starting`, `Start` passes its test and a whole `Shutdown` can run before its last step.
-- That last step then puts the stopped server back into the phase `running`, in which it accepts runs,
-- and the first step of the next `Shutdown` panics.
pub start_overlapped :
    (m : Manager)
    → m.phase ≡ starting
    → IsValid m
    → (m1 : Manager) × (m2 : Manager) × (start_begin m ≡ ok tt)
      × (shutdown_begin m ≡ go_on m1)
      × (shutdown_end m1 ≡ go_on m2)
      × (m2.phase ≡ stopped)
      × (is_accepting_runs (start_end m2) ≡ true)
      × (shutdown_begin (start_end m2) ≡ panic)
unfolding IsValid start_begin start_end shutdown_begin shutdown_end is_accepting_runs
start_overlapped m p v = (
  record m { phase = draining; shutdown_ch = true },
  record m { phase = stopped; shutdown_ch = true; done = true },
  ground arith,
  ground arith,
  ground arith,
  refl,
  refl,
  refl,
)
