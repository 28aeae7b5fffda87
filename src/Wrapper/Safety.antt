-- ===== src/Wrapper/Safety.antt =====
-- No send on a closed channel, and no second close, where a wrapper is started once; and what a second start
-- does.
use codeallremote.Prelude.{
  ℕ, ◌+◌, ◌≤◌, Bool, true, false, Option, none, some, List, [], ◌∷◌, ◌≡◌, refl, arith,
  if◌then◌else◌, Option-cases, inl, inr, subst,
}
use codeallremote.Wrapper.Process.{
  WrapperOptions, ProcessWrapper, WaitAnswer, running, process_started, start, new_process_wrapper,
  is_running_state, read_output, read_error, end_reading, wait_for_exit,
}
use codeallremote.Wrapper.Goroutines.{
  System, Act, output_read, error_read, output_ended, error_ended, exit_seen, kill_called,
  output_received, kill, spawn, act, acts,
}

-- Where a channel is closed, nobody waits for the exit and nobody reads.
pub record IsSound (s : System) : Type 0 where
  pub counted : s.wrapper.readers ≡ s.output_readers + s.error_readers
  pub alone : s.waiters ≤ 1
  pub output_quiet : (if s.wrapper.output_closed then s.waiters + s.wrapper.readers else 0) ≡ 0
  pub errors_quiet : (if s.wrapper.errors_closed then s.waiters + s.wrapper.readers else 0) ≡ 0

-- An act does not panic, and keeps the invariant.
abbrev GoesOn : Option System → Type 0
GoesOn none = ⊥
GoesOn (some s) = IsSound s

act-GoesOn : (a : Act) (s : System) → IsSound s → GoesOn (act a s)
unfolding act read_output read_error end_reading wait_for_exit kill
act-GoesOn (output_read c) s v = ground arith
act-GoesOn (error_read c) s v = ground arith
act-GoesOn output_ended s v = ground arith
act-GoesOn error_ended s v = ground arith
act-GoesOn (exit_seen now answer) s v = ground arith
act-GoesOn (kill_called answer) s v = ground arith
act-GoesOn output_received s v = ground arith

acts_go_on :
    (l : List Act) (s : System) → IsSound s → (s' : System) × (acts l s ≡ some s') × IsSound s'
unfolding acts
acts_go_on [] s v = (s, refl, v)
acts_go_on (a ∷ rest) s v = elim (Option-cases (act a s)) [
  | inl n ↦ absurd (let f : GoesOn none = subst GoesOn n (act-GoesOn a s v) in f)
  | inr (t, o) ↦ let f : IsSound t = subst GoesOn o (act-GoesOn a s v) in rw o (acts_go_on rest t f)
]

-- A wrapper that was never started, with no goroutines.
abbrev pub idle : System
idle = record {
  wrapper = new_process_wrapper;
  output_readers = 0;
  error_readers = 0;
  waiters = 0;
  seen = [];
  taken = [];
}

-- A process that was started, of a wrapper that has not been started before, with its goroutines.
abbrev pub first_start : ℕ → WrapperOptions → Bool → ℕ → System
first_start now opts stdin pid =
    spawn (start now opts (process_started stdin pid) new_process_wrapper).1 idle

pub first_start-IsSound :
    (now : ℕ) (opts : WrapperOptions) (stdin : Bool) (pid : ℕ)
    → IsSound (first_start now opts stdin pid)
unfolding start spawn new_process_wrapper
first_start-IsSound now opts stdin pid = ground arith

-- Where a wrapper is started once, no reader sends on a closed channel and no channel is closed twice: every
-- order of reads, ends of the readers, the exit, kills and receptions goes through.
pub first_start-acts :
    (now : ℕ) (opts : WrapperOptions) (stdin : Bool) (pid : ℕ) (l : List Act)
    → (s : System) × (acts l (first_start now opts stdin pid) ≡ some s)
first_start-acts now opts stdin pid l =
    let (s, e, v) =
      acts_go_on l (first_start now opts stdin pid) (first_start-IsSound now opts stdin pid) in
    (s, e)

-- A wrapper whose output channel is closed and that has no reader left, as after an exit, and whose state is
-- not running can be started again: its state is then running, and when its new readers have ended, the
-- exit of the new process panics.
pub start-acts_panic :
    (now : ℕ) (opts : WrapperOptions) (stdin : Bool) (pid later : ℕ) (answer : WaitAnswer)
    (w : ProcessWrapper)
    → w.output_closed ≡ true
    → w.readers ≡ 0
    → is_running_state w.state ≡ false
    → let s =
        spawn (start now opts (process_started stdin pid) w).1 (record idle { wrapper = w }) in
      ((start now opts (process_started stdin pid) w).1.state ≡ running)
      × (acts (output_ended ∷ error_ended ∷ exit_seen later answer ∷ []) s ≡ none)
unfolding start spawn acts act end_reading wait_for_exit new_process_wrapper
start-acts_panic now opts stdin pid later answer w closed quiet idle_state = ground arith
