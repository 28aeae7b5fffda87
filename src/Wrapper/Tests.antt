-- ===== src/Wrapper/Tests.antt =====
-- The process wrapper at concrete inputs.
use codeallremote.Prelude.{true, some, none, List, [], ◌∷◌, ◌++◌, ◌≡◌, refl, arith, any}
use codeallremote.Prelude.Int.{pos}
use codeallremote.Prelude.Text.{contains_text, after_prefix}
use codeallremote.Wrapper.Process.{
  Chunk, WrapperOptions, ProcessWrapper, running, exited, no_error, process_started, start,
  new_process_wrapper, read_output, end_reading,
}
use codeallremote.Wrapper.Goroutines.{
  System, Act, output_read, error_read, output_ended, error_ended, exit_seen, kill_called,
  output_received, group_killed, spawn, act, acts, redact_secrets,
}
use codeallremote.Wrapper.Safety.{idle, first_start, first_start-acts, start-acts_panic}
use codeallremote.Wrapper.Output.{first_start-IsWhole}

abbrev options : WrapperOptions
options = record { command = "claude"; args = "-p" ∷ []; dir = "/srv"; env = [] }

abbrev chunk : Chunk
chunk = 104 ∷ 105 ∷ []

-- Two chunks are read, one is received, and the process ends.
abbrev one_run : List Act
one_run =
    output_read chunk
    ∷ error_read chunk
    ∷ output_read []
    ∷ output_received
    ∷ output_ended
    ∷ exit_seen 70 no_error
    ∷ error_ended
    ∷ exit_seen 80 no_error
    ∷ kill_called group_killed
    ∷ []

first_start-acts_example : (s : System) × (acts one_run (first_start 50 options true 7) ≡ some s)
first_start-acts_example = first_start-acts 50 options true 7 one_run

-- The wrapper after the first exit.
abbrev ended : ProcessWrapper
ended = record new_process_wrapper {
  cmd = some (record { options = options; pid = some 7 });
  started_at = 50;
  exited_at = some 80;
  exit_code = some (pos 0);
  state = exited;
  done = true;
  output_closed = true;
  errors_closed = true;
}

start-acts_panic_example :
    let s =
      spawn (start 90 options (process_started true 8) ended).1 (record idle { wrapper = ended }) in
    ((start 90 options (process_started true 8) ended).1.state ≡ running)
    × (acts (output_ended ∷ error_ended ∷ exit_seen 95 no_error ∷ []) s ≡ none)
unfolding new_process_wrapper
start-acts_panic_example = start-acts_panic 90 options true 8 95 no_error ended refl refl refl

abbrev one_read : List Act
one_read = output_read chunk ∷ output_received ∷ output_read [] ∷ output_ended ∷ []

abbrev after_one_read : System
after_one_read = record {
  wrapper = record new_process_wrapper {
    cmd = some (record { options = options; pid = some 7 });
    has_stdin = true;
    started_at = 50;
    state = running;
    output = [] ∷ [];
    readers = 1;
  };
  output_readers = 0;
  error_readers = 1;
  waiters = 1;
  seen = chunk ∷ [] ∷ [];
  taken = chunk ∷ [];
}

ran : acts one_read (first_start 50 options true 7) ≡ some after_one_read
unfolding acts act start spawn new_process_wrapper read_output end_reading
ran = refl

first_start-IsWhole_example :
    after_one_read.taken ++ after_one_read.wrapper.output ≡ after_one_read.seen
first_start-IsWhole_example = first_start-IsWhole 50 options true 7 one_read ran (omega arith)

redacted_args :
    redact_secrets ("key" ∷ "" ∷ []) ("--token=key1" ∷ "-p" ∷ []) ≡ "[REDACTED]" ∷ "-p" ∷ []
unfolding redact_secrets contains_text after_prefix any
redacted_args = refl
