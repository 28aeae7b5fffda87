-- ===== src/Wrapper/Output.antt =====
-- What a consumer of the output channel receives.
use codeallremote.Prelude.{
  ℕ, ◌+◌, ◌-◌, ◌≤◌, ◌&&◌, ◌==◌, nat_eq, Bool, true, Option, none, some, List, [], ◌∷◌, ◌++◌, ◌≡◌,
  refl, arith, Option-cases, Bool-cases, inl, inr, subst, length, ltb, ap, sym, ◌∙◌,
}
use mathlib.Core.List.{append_assoc}
use codeallremote.Approval.Bridge.{try_send}
use codeallremote.Wrapper.Process.{
  Chunk, WrapperOptions, ProcessWrapper, WaitAnswer, start, new_process_wrapper, read_output,
  read_error, end_reading, wait_for_exit, channel_cap,
}
use codeallremote.Wrapper.Goroutines.{
  System, Act, output_read, error_read, output_ended, error_ended, exit_seen, kill_called,
  output_received, KillAnswer, kill, spawn, act, acts, receive, with_wrapper,
}
use codeallremote.Wrapper.Safety.{first_start}

-- What was received and what the channel holds is what was read, as long as that is at most what the
-- channel can hold.
abbrev pub IsWhole : System → Type 0
IsWhole s = length s.seen ≤ channel_cap → s.taken ++ s.wrapper.output ≡ s.seen

abbrev pub StaysWhole : Option System → Type 0
StaysWhole none = Unit
StaysWhole (some s) = IsWhole s

length-append : (xs ys : List Chunk) → length (xs ++ ys) ≡ length xs + length ys
length-append [] ys = omega arith
length-append (x ∷ xs) ys = omega (arith, length-append xs ys)

read-IsWhole :
    (c : Chunk) (s : System)
    → IsWhole s
    → length (s.seen ++ c ∷ []) ≤ channel_cap
    → s.taken ++ try_send channel_cap c s.wrapper.output ≡ s.seen ++ c ∷ []
unfolding try_send
read-IsWhole c s v few =
    let counted = length-append s.seen (c ∷ []) in
    let whole = v (omega arith) in
    let held = ap (λ (l : List Chunk). length l) whole in
    let parts = length-append s.taken s.wrapper.output in
    let room : ltb (length s.wrapper.output) channel_cap ≡ true = ground arith in
    rw room (sym (append_assoc s.taken s.wrapper.output (c ∷ [])) ∙ ap (λ l. l ++ c ∷ []) whole)

receive-IsWhole :
    (s : System) (l : List Chunk) → s.wrapper.output ≡ l → IsWhole s → IsWhole (receive s l)
receive-IsWhole s [] e v = v
receive-IsWhole s (c ∷ rest) e v =
    λ few. append_assoc s.taken (c ∷ []) rest ∙ ap (λ l. s.taken ++ l) (sym e) ∙ v few

kill-output : (answer : KillAnswer) (w : ProcessWrapper) → (kill answer w).1.output ≡ w.output
unfolding kill
kill-output answer w = ground arith

wait-output :
    (now : ℕ) (answer : WaitAnswer) (w : ProcessWrapper) {w' : ProcessWrapper}
    → wait_for_exit now answer w ≡ some w'
    → w'.output ≡ w.output
unfolding wait_for_exit
wait-output now answer w h = ground arith

waited-StaysWhole :
    (s : System) (o : Option ProcessWrapper) (n : ℕ)
    → ((w' : ProcessWrapper) → o ≡ some w' → w'.output ≡ s.wrapper.output)
    → IsWhole s
    → StaysWhole (with_wrapper (record s { waiters = n }) o)
waited-StaysWhole s none n h v = tt
waited-StaysWhole s (some w) n h v = λ few. ap (λ l. s.taken ++ l) (h w refl) ∙ v few

act-StaysWhole : (a : Act) (s : System) → IsWhole s → StaysWhole (act a s)
unfolding act read_output read_error end_reading
act-StaysWhole (output_read c) s v = elim (Bool-cases (ltb 0 s.output_readers)) [
  | inl y ↦ rw y (elim (Bool-cases s.wrapper.output_closed) [
    | inl z ↦ rw z tt
    | inr z ↦ rw z (λ few. read-IsWhole c s v few)
  ])
  | inr n ↦ rw n v
]
act-StaysWhole (error_read c) s v = elim (Bool-cases (ltb 0 s.error_readers)) [
  | inl y ↦ rw y (elim (Bool-cases s.wrapper.errors_closed) [ inl z ↦ rw z tt | inr z ↦ rw z v ])
  | inr n ↦ rw n v
]
act-StaysWhole output_ended s v = elim (Bool-cases (ltb 0 s.output_readers)) [
  | inl y ↦ rw y v
  | inr n ↦ rw n v
]
act-StaysWhole error_ended s v = elim (Bool-cases (ltb 0 s.error_readers)) [
  | inl y ↦ rw y v
  | inr n ↦ rw n v
]
act-StaysWhole (exit_seen now answer) s v =
    elim (Bool-cases (ltb 0 s.waiters && s.wrapper.readers == 0)) [
      | inl y ↦ rw y (
          waited-StaysWhole s (wait_for_exit now answer s.wrapper) (s.waiters - 1)
            (λ w' e. wait-output now answer s.wrapper e) v)
      | inr n ↦ rw n v
    ]
act-StaysWhole (kill_called answer) s v =
    λ few. ap (λ l. s.taken ++ l) (kill-output answer s.wrapper) ∙ v few
act-StaysWhole output_received s v = receive-IsWhole s s.wrapper.output refl v

first :
    (now : ℕ) (opts : WrapperOptions) (stdin : Bool) (pid : ℕ)
    → IsWhole (first_start now opts stdin pid)
unfolding start spawn new_process_wrapper
first now opts stdin pid few = refl

acts-StaysWhole : (l : List Act) (s : System) → IsWhole s → StaysWhole (acts l s)
unfolding acts
acts-StaysWhole [] s v = v
acts-StaysWhole (a ∷ rest) s v = elim (Option-cases (act a s)) [
  | inl n ↦ rw n tt
  | inr (t, o) ↦
      let f : IsWhole t = subst StaysWhole o (act-StaysWhole a s v) in
      rw o (acts-StaysWhole rest t f)
]

-- Where at most as many chunks were read of the output as the channel holds, what the consumer has received
-- and what waits for it in the channel are the chunks that were read, in their order and none lost, whatever
-- else went on, an exit or a kill of the process included.
pub first_start-IsWhole :
    (now : ℕ) (opts : WrapperOptions) (stdin : Bool) (pid : ℕ) (l : List Act) {s : System}
    → acts l (first_start now opts stdin pid) ≡ some s
    → length s.seen ≤ channel_cap
    → s.taken ++ s.wrapper.output ≡ s.seen
first_start-IsWhole now opts stdin pid l {s} e few =
    let f : IsWhole s =
      subst StaysWhole e
        (acts-StaysWhole l (first_start now opts stdin pid) (first now opts stdin pid)) in
    f few
