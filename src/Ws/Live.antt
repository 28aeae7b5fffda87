-- ===== src/Ws/Live.antt =====
-- What a client that does not buffer is given: `send` and `sendDirect` of internal/ws/client.go after
-- `flushAndStopBuffering`.
use codeallremote.Prelude.{Bool, true, false, List, [], ◌∷◌, ◌++◌, ◌≡◌, sym, ◌∙◌, ap, arith}
use mathlib.Core.List.{append_assoc, append-nil}
use codeallremote.Ws.Client.{
  Envelope, Client, close, mark_slow, offer, send, send_direct, write_one,
}
use codeallremote.Ws.Replay.{
  Event, live, retained, wrote, ended, run, step, outgoing, step-buffering, send_direct-open,
  write_one-open,
}

-- The envelopes that are sent, in the order of the calls.
unfoldable pub sent_events : List Event → List Envelope
sent_events [] = []
sent_events (live skip env ∷ es) = env ∷ sent_events es
sent_events (retained skip env ∷ es) = env ∷ sent_events es
sent_events (wrote good ∷ es) = sent_events es
sent_events (ended ∷ es) = sent_events es

send-through :
    (skip : Bool) (env : Envelope) (c : Client)
    → c.buffering ≡ false
    → (send skip env c).closed ≡ false
    → (c.closed ≡ false) × (outgoing (send skip env c) ≡ outgoing c ++ env ∷ [])
unfolding send offer mark_slow close
send-through skip env c b h = ground (arith, append_assoc c.written c.send_ch (env ∷ []))

pub run-through :
    (es : List Event) (c : Client)
    → c.buffering ≡ false
    → (run es c).closed ≡ false
    → (c.closed ≡ false) × (outgoing (run es c) ≡ outgoing c ++ sent_events es)
unfolding run step sent_events close
run-through [] c b h = (h, sym (append-nil (outgoing c)))
run-through (live skip env ∷ es) c b h =
    let later = run-through es (send skip env c) (step-buffering (live skip env) c ∙ b) h in
    let now = send-through skip env c b later.0 in
    (
      now.0,
      later.1
          ∙ ap (λ o. o ++ sent_events es) now.1
          ∙ append_assoc (outgoing c) (env ∷ []) (sent_events es),
    )
run-through (retained skip env ∷ es) c b h =
    let later =
      run-through es (send_direct skip env c) (step-buffering (retained skip env) c ∙ b) h in
    let now = send_direct-open skip env c later.0 in
    (
      now.0,
      later.1
          ∙ ap (λ o. o ++ sent_events es) now.1
          ∙ append_assoc (outgoing c) (env ∷ []) (sent_events es),
    )
run-through (wrote good ∷ es) c b h =
    let later = run-through es (write_one good c) (step-buffering (wrote good) c ∙ b) h in
    let now = write_one-open good c later.0 in
    (now.0, later.1 ∙ ap (λ o. o ++ sent_events es) now.1)
run-through (ended ∷ es) c b h =
    absurd (let later = run-through es (close c) b h in let f : true ≡ false = later.0 in cc)
