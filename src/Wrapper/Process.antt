-- ===== src/Wrapper/Process.antt =====
-- `ProcessWrapper` of internal/wrapper/wrapper.go. What the operating system answers to a call is an argument.
-- The pipes are known by what is read from them, and a method that panics returns nothing.
use codeallremote.Prelude.{
  ℕ, ◌+◌, ◌-◌, String, Bool, true, false, Option, none, some, List, [], ◌||◌, if◌then◌else◌,
  string_eq,
}
use codeallremote.Prelude.Int.{ℤ, pos}
use codeallremote.Prelude.Result.{Result, ok, err}
use codeallremote.Approval.Bridge.{try_send}

-- `ProcessState`
pub data ProcessState : Type 0 where
  pending running exited killed failed : ProcessState

-- What one `Read` gives.
abbrev pub Chunk : Type 0
Chunk = List ℕ

-- `WrapperOptions`, without the fields that no method reads.
pub record WrapperOptions : Type 0 where
  pub command : String
  pub args : List String
  pub dir : String
  pub env : List String

-- What `Info` reads of `exec.Cmd`: there is a process from a `Start` on that succeeds.
pub record Cmd : Type 0 where
  pub options : WrapperOptions
  pub pid : Option ℕ

-- `ProcessWrapper`. `readers` is the count of `readersWG`; of `done` and of the two channels for output
-- it is kept whether they are closed, and of the channels what they hold.
pub record ProcessWrapper : Type 0 where
  pub cmd : Option Cmd
  pub has_stdin : Bool
  pub started_at : ℕ
  pub exited_at : Option ℕ
  pub exit_code : Option ℤ
  pub exit_error : Option String
  pub state : ProcessState
  pub done : Bool
  pub output : List Chunk
  pub output_closed : Bool
  pub errors : List Chunk
  pub errors_closed : Bool
  pub readers : ℕ

-- The capacity of the two channels.
abbrev pub channel_cap : ℕ
channel_cap = 100

abbrev pub is_running_state : ProcessState → Bool
is_running_state running = true
is_running_state pending = false
is_running_state exited = false
is_running_state killed = false
is_running_state failed = false

-- `NewProcessWrapper`
unfoldable pub new_process_wrapper : ProcessWrapper
new_process_wrapper = record {
  cmd = none;
  has_stdin = false;
  started_at = 0;
  exited_at = none;
  exit_code = none;
  exit_error = none;
  state = pending;
  done = false;
  output = [];
  output_closed = false;
  errors = [];
  errors_closed = false;
  readers = 0;
}

-- What the operating system answers to the calls of `Start`: a pipe that cannot be made, or whether there is
-- a pipe for the input and what the start of the process gives.
pub data StartAnswer : Type 0 where
  no_pipe : String → StartAnswer
  start_failed : Bool → String → StartAnswer
  process_started : Bool → ℕ → StartAnswer

-- `ProcessInfo`
pub record ProcessInfo : Type 0 where
  pub pid : ℕ
  pub command : String
  pub args : List String
  pub dir : String
  pub started_at : ℕ
  pub exited_at : Option ℕ
  pub exit_code : Option ℤ
  pub exit_error : Option String
  pub state : ProcessState

abbrev pub started_info : ℕ → WrapperOptions → ℕ → ProcessInfo
started_info now opts pid = record {
  pid = pid;
  command = opts.command;
  args = opts.args;
  dir = opts.dir;
  started_at = now;
  exited_at = none;
  exit_code = none;
  exit_error = none;
  state = running;
}

-- `Start` past its guard.
abbrev pub start_process :
    ℕ → WrapperOptions → StartAnswer → ProcessWrapper → Result String ProcessInfo × ProcessWrapper
start_process now opts (no_pipe e) w = (err e, w)
start_process now opts (start_failed stdin e) w = (
  err e,
  record w {
    cmd = some (record { options = opts; pid = none });
    has_stdin = stdin;
    state = failed;
    exit_error = some e;
  },
)
start_process now opts (process_started stdin pid) w = (
  ok (started_info now opts pid),
  record w {
    cmd = some (record { options = opts; pid = some pid });
    has_stdin = stdin;
    started_at = now;
    state = running;
    readers = w.readers + 2;
  },
)

-- `Start`, without the goroutines that it starts.
unfoldable pub start :
    ℕ → WrapperOptions → StartAnswer → ProcessWrapper → Result String ProcessInfo × ProcessWrapper
start now opts answer w =
    if is_running_state w.state
    then (err "process already running", w)
    else start_process now opts answer w

-- The send of `readOutput` to either channel, which panics on a closed one.
unfoldable pub read_output : Chunk → ProcessWrapper → Option ProcessWrapper
unfolding try_send
read_output chunk w =
    if w.output_closed
    then none
    else some (record w { output = try_send channel_cap chunk w.output })

unfoldable pub read_error : Chunk → ProcessWrapper → Option ProcessWrapper
unfolding try_send
read_error chunk w =
    if w.errors_closed
    then none
    else some (record w { errors = try_send channel_cap chunk w.errors })

-- `readersWG.Done`, at the end of `readOutput`.
unfoldable pub end_reading : ProcessWrapper → ProcessWrapper
end_reading w = record w { readers = w.readers - 1 }

-- What `cmd.Wait` returns: no error, an `ExitError` with its code, or another error.
pub data WaitAnswer : Type 0 where
  no_error : WaitAnswer
  exit_status : ℤ → String → WaitAnswer
  wait_error : String → WaitAnswer

abbrev pub wait_text : WaitAnswer → Option String
wait_text no_error = none
wait_text (exit_status code text) = some text
wait_text (wait_error text) = some text

abbrev pub or_old : Option String → Option String → Option String
or_old none old = old
or_old (some text) old = some text

-- `waitForExit` from the record of the exit on, where the process was not killed.
abbrev pub record_exit : WaitAnswer → ProcessWrapper → ProcessWrapper
record_exit no_error w = record w { exit_code = some (pos 0); state = exited }
record_exit (exit_status code text) w = record w {
  exit_code = some code;
  exit_error = some text;
  state = failed;
}
record_exit (wait_error text) w = record w { exit_error = some text; state = failed }

-- And where it was.
abbrev pub record_end : ProcessState → WaitAnswer → ProcessWrapper → ProcessWrapper
record_end killed answer w = record w { exit_error = or_old (wait_text answer) w.exit_error }
record_end pending answer w = record_exit answer w
record_end running answer w = record_exit answer w
record_end exited answer w = record_exit answer w
record_end failed answer w = record_exit answer w

-- `waitForExit` once the readers have ended: it panics on a channel that is closed already.
unfoldable pub wait_for_exit : ℕ → WaitAnswer → ProcessWrapper → Option ProcessWrapper
wait_for_exit now answer w =
    if w.output_closed || w.errors_closed
    then none
    else some (
        record_end w.state answer (record w {
          output_closed = true;
          errors_closed = true;
          exited_at = some now;
          done = true;
        }))
