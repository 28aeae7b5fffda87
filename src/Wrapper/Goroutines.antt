-- ===== src/Wrapper/Goroutines.antt =====
-- The rest of `ProcessWrapper`, and the goroutines that `Start` starts, as acts that come in any order.
use codeallremote.Prelude.{
  ℕ, ◌+◌, ◌-◌, String, Bool, true, false, Option, none, some, List, [], ◌∷◌, ◌++◌, ◌&&◌, not, map,
  any, if◌then◌else◌, ◌==◌, nat_eq, string_eq, ltb,
}
use codeallremote.Prelude.Int.{ℤ}
use codeallremote.Prelude.Text.{contains_text}
use codeallremote.Prelude.Result.{Result, ok, err}
use codeallremote.Wrapper.Process.{
  ProcessState, exited, killed, failed, Chunk, Cmd, ProcessWrapper, ProcessInfo, is_running_state,
  WaitAnswer, read_output, read_error, end_reading, wait_for_exit,
}

-- What the operating system answers to `Kill`: the group is killed, or the process alone, or neither.
pub data KillAnswer : Type 0 where
  group_killed process_killed : KillAnswer
  not_killed : String → KillAnswer

abbrev pub kill_process : KillAnswer → ProcessWrapper → Option String × ProcessWrapper
kill_process group_killed w = (none, record w { state = killed })
kill_process process_killed w = (none, record w { state = killed })
kill_process (not_killed e) w = (some e, w)

abbrev pub pid_of : Option Cmd → Option ℕ
pid_of none = none
pid_of (some c) = c.pid

abbrev pub kill_if : KillAnswer → Option ℕ → ProcessWrapper → Option String × ProcessWrapper
kill_if answer none w = (none, w)
kill_if answer (some pid) w = kill_process answer w

-- `Kill`
unfoldable pub kill : KillAnswer → ProcessWrapper → Option String × ProcessWrapper
kill answer w = kill_if answer (pid_of w.cmd) w

-- `WriteInput`, where the operating system takes what is written.
unfoldable pub write_input : ℕ → ProcessWrapper → Result String ℕ
write_input count w =
    if not w.has_stdin
    then err "stdin not available"
    else if not (is_running_state w.state)
    then err "process not running"
    else ok count

-- `Info`, which panics where there is no command yet. `look_path` says what `exec.Command` makes of the name
-- of a command, the `Path` of the `Cmd`.
abbrev pub info_of : (String → String) → ProcessWrapper → Option Cmd → Option ProcessInfo
info_of look_path w none = none
info_of look_path w (some c) = some (record {
  pid = elim c.pid [ none ↦ 0 | some pid ↦ pid ];
  command = look_path c.options.command;
  args = c.options.args;
  dir = c.options.dir;
  started_at = w.started_at;
  exited_at = w.exited_at;
  exit_code = w.exit_code;
  exit_error = w.exit_error;
  state = w.state;
})

unfoldable pub info : (String → String) → ProcessWrapper → Option ProcessInfo
info look_path w = info_of look_path w w.cmd

-- `IsRunning`
unfoldable pub is_running : ProcessWrapper → Bool
is_running w = is_running_state w.state

abbrev pub is_failed : ProcessState → Bool
is_failed s = elim s [ failed ↦ true | _ ↦ false ]

abbrev pub has_ended : ProcessState → Bool
has_ended s = elim s [ exited ↦ true | failed ↦ true | _ ↦ false ]

-- `ExitCode` and `ExitError`
unfoldable pub exit_code : ProcessWrapper → Option ℤ × Bool
exit_code w = (w.exit_code, has_ended w.state)

unfoldable pub exit_error : ProcessWrapper → Option String × Bool
exit_error w = (w.exit_error, is_failed w.state)

-- `RedactSecrets`
abbrev pub shows : List String → String → Bool
shows secrets arg = any (λ s. not (s == "") && contains_text arg s) secrets

unfoldable pub redact_secrets : List String → List String → List String
redact_secrets secrets args = map (λ a. if shows secrets a then "[REDACTED]" else a) args

-- A wrapper with the goroutines that run beside it: how many readers of the output and of the errors, and how
-- many that wait for the exit. `seen` is what the readers of the output have read so far, and `taken` what
-- was received from the channel.
pub record System : Type 0 where
  pub wrapper : ProcessWrapper
  pub output_readers : ℕ
  pub error_readers : ℕ
  pub waiters : ℕ
  pub seen : List Chunk
  pub taken : List Chunk

pub data Act : Type 0 where
  output_read error_read : Chunk → Act
  output_ended error_ended : Act
  exit_seen : ℕ → WaitAnswer → Act
  kill_called : KillAnswer → Act
  output_received : Act

-- The goroutines of one more `Start` that has succeeded.
unfoldable pub spawn : ProcessWrapper → System → System
spawn w s = record s {
  wrapper = w;
  output_readers = s.output_readers + 1;
  error_readers = s.error_readers + 1;
  waiters = s.waiters + 1;
}

abbrev pub with_wrapper : System → Option ProcessWrapper → Option System
with_wrapper s none = none
with_wrapper s (some w) = some (record s { wrapper = w })

abbrev pub receive : System → List Chunk → System
receive s [] = s
receive s (c ∷ rest) = record s {
  wrapper = record s.wrapper { output = rest };
  taken = s.taken ++ c ∷ [];
}

-- An act, or nothing where it panics. One whose goroutine is not there, or that has to wait, does nothing.
unfoldable pub act : Act → System → Option System
act (output_read c) s =
    if ltb 0 s.output_readers
    then with_wrapper (record s { seen = s.seen ++ c ∷ [] }) (read_output c s.wrapper)
    else some s
act (error_read c) s =
    if ltb 0 s.error_readers then with_wrapper s (read_error c s.wrapper) else some s
act output_ended s =
    if ltb 0 s.output_readers
    then some (record s { wrapper = end_reading s.wrapper; output_readers = s.output_readers - 1 })
    else some s
act error_ended s =
    if ltb 0 s.error_readers
    then some (record s { wrapper = end_reading s.wrapper; error_readers = s.error_readers - 1 })
    else some s
act (exit_seen now answer) s =
    if ltb 0 s.waiters && s.wrapper.readers == 0
    then with_wrapper (record s { waiters = s.waiters - 1 }) (wait_for_exit now answer s.wrapper)
    else some s
act (kill_called answer) s = some (record s { wrapper = (kill answer s.wrapper).1 })
act output_received s = some (receive s s.wrapper.output)

abbrev pub and_then : (System → Option System) → Option System → Option System
and_then f none = none
and_then f (some s) = f s

unfoldable pub acts : List Act → System → Option System
acts [] s = some s
acts (a ∷ rest) s = and_then (acts rest) (act a s)
