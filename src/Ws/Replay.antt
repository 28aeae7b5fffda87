-- ===== src/Ws/Replay.antt =====
-- The order in which a client gets retained and live events while it is brought up to date: what
-- `replayAndSubscribe` of internal/ws/hub.go relies on.
use codeallremote.Prelude.{
  Bool, true, false, List, [], ◌∷◌, ◌++◌, ◌≡◌, refl, sym, ◌∙◌, ap, arith, Bool-cases, inl, inr,
  ◌&&◌, ◌||◌, not,
}
use mathlib.Core.List.{append_assoc, append-nil}
use codeallremote.Ws.Client.{
  Envelope, Client, close, mark_slow, offer, send, send_direct, start_buffering, write_one,
  write_first, write_many, flush_loop, flush_and_stop_buffering, has_room,
}

-- What happens to a client while it is buffering: a live event, a retained event, a write of its
-- connection, its end.
pub data Event : Type 0 where
  live retained : Bool → Envelope → Event
  wrote : Bool → Event
  ended : Event

unfoldable pub step : Event → Client → Client
step (live skip env) c = send skip env c
step (retained skip env) c = send_direct skip env c
step (wrote good) c = write_one good c
step ended c = close c

unfoldable pub run : List Event → Client → Client
run [] c = c
run (e ∷ es) c = run es (step e c)

unfoldable pub live_events : List Event → List Envelope
live_events [] = []
live_events (live skip env ∷ es) = env ∷ live_events es
live_events (e ∷ es) = live_events es

unfoldable pub retained_events : List Event → List Envelope
retained_events [] = []
retained_events (retained skip env ∷ es) = env ∷ retained_events es
retained_events (e ∷ es) = retained_events es

-- What the connection has been given, and what it will be given.
abbrev pub outgoing : Client → List Envelope
outgoing c = c.written ++ c.send_ch

offer-open :
    (skip : Bool) (env : Envelope) (c : Client)
    → (offer skip env c).closed ≡ false
    → (c.closed ≡ false)
      × (outgoing (offer skip env c) ≡ outgoing c ++ env ∷ [])
      × ((offer skip env c).buffer ≡ c.buffer)
      × ((offer skip env c).buffering ≡ c.buffering)
unfolding offer mark_slow close
offer-open skip env c h = ground (arith, append_assoc c.written c.send_ch (env ∷ []))

pub write_one-open :
    (good : Bool) (c : Client)
    → (write_one good c).closed ≡ false
    → (c.closed ≡ false)
      × (outgoing (write_one good c) ≡ outgoing c)
      × ((write_one good c).buffer ≡ c.buffer)
      × ((write_one good c).buffering ≡ c.buffering)
unfolding write_one
write_one-open good c h = go good c.send_ch h
  where
    go :
        (good : Bool) (ch : List Envelope)
        → (write_first good ch (record c { send_ch = ch })).closed ≡ false
        → (c.closed ≡ false)
          × (outgoing (write_first good ch (record c { send_ch = ch })) ≡ c.written ++ ch)
          × ((write_first good ch (record c { send_ch = ch })).buffer ≡ c.buffer)
          × ((write_first good ch (record c { send_ch = ch })).buffering ≡ c.buffering)
    go good [] h = (h, refl, refl, refl)
    go true (env ∷ rest) h = (h, append_assoc c.written (env ∷ []) rest, refl, refl)
    go false (env ∷ rest) h = cc

send-open :
    (skip : Bool) (env : Envelope) (c : Client)
    → c.buffering ≡ true
    → (send skip env c).closed ≡ false
    → (c.closed ≡ false)
      × (outgoing (send skip env c) ≡ outgoing c)
      × ((send skip env c).buffer ≡ c.buffer ++ env ∷ [])
      × ((send skip env c).buffering ≡ true)
unfolding send
send-open skip env c b h = ground arith

pub send_direct-open :
    (skip : Bool) (env : Envelope) (c : Client)
    → (send_direct skip env c).closed ≡ false
    → (c.closed ≡ false)
      × (outgoing (send_direct skip env c) ≡ outgoing c ++ env ∷ [])
      × ((send_direct skip env c).buffer ≡ c.buffer)
      × ((send_direct skip env c).buffering ≡ c.buffering)
unfolding send_direct
send_direct-open skip env c h = ground (arith, append_assoc c.written c.send_ch (env ∷ []))

pub step-buffering : (e : Event) (c : Client) → (step e c).buffering ≡ c.buffering
unfolding step send send_direct offer mark_slow close write_one
step-buffering (live skip env) c = ground arith
step-buffering (retained skip env) c = ground arith
step-buffering (wrote good) c = go good c.send_ch
  where
    go : (good : Bool) (ch : List Envelope) → (write_first good ch c).buffering ≡ c.buffering
    go good [] = refl
    go true (env ∷ rest) = refl
    go false (env ∷ rest) = refl
step-buffering ended c = refl

-- What is still to be delivered stands behind what is going out.
run-open :
    (es : List Event) (c : Client)
    → c.buffering ≡ true
    → (run es c).closed ≡ false
    → (c.closed ≡ false)
      × (outgoing (run es c) ≡ outgoing c ++ retained_events es)
      × ((run es c).buffer ≡ c.buffer ++ live_events es)
      × ((run es c).buffering ≡ true)
unfolding run step live_events retained_events close
run-open [] c b h = (h, sym (append-nil (outgoing c)), sym (append-nil c.buffer), b)
run-open (live skip env ∷ es) c b h =
    let later = run-open es (send skip env c) (step-buffering (live skip env) c ∙ b) h in
    let now = send-open skip env c b later.0 in
    (
      now.0,
      later.1 ∙ ap (λ o. o ++ retained_events es) now.1,
      later.2
          ∙ ap (λ o. o ++ live_events es) now.2
          ∙ append_assoc c.buffer (env ∷ []) (live_events es),
      later.3,
    )
run-open (retained skip env ∷ es) c b h =
    let later = run-open es (send_direct skip env c) (step-buffering (retained skip env) c ∙ b) h in
    let now = send_direct-open skip env c later.0 in
    (
      now.0,
      later.1
          ∙ ap (λ o. o ++ retained_events es) now.1
          ∙ append_assoc (outgoing c) (env ∷ []) (retained_events es),
      later.2 ∙ ap (λ o. o ++ live_events es) now.2,
      later.3,
    )
run-open (wrote good ∷ es) c b h =
    let later = run-open es (write_one good c) (step-buffering (wrote good) c ∙ b) h in
    let now = write_one-open good c later.0 in
    (
      now.0,
      later.1 ∙ ap (λ o. o ++ retained_events es) now.1,
      later.2 ∙ ap (λ o. o ++ live_events es) now.2,
      later.3,
    )
run-open (ended ∷ es) c b h =
    let later = run-open es (close c) b h in absurd (let f : true ≡ false = later.0 in cc)

write_many-open :
    (goods : List Bool) (c : Client)
    → (write_many goods c).closed ≡ false
    → (c.closed ≡ false) × (outgoing (write_many goods c) ≡ outgoing c)
unfolding write_many
write_many-open [] c h = (h, refl)
write_many-open (good ∷ goods) c h =
    let later = write_many-open goods (write_one good c) h in
    let now = write_one-open good c later.0 in (now.0, later.1 ∙ now.1)

flush_loop-open :
    (skip : List Envelope → Bool) (turns : List Envelope → List Bool) (es : List Envelope)
    (c : Client)
    → (flush_loop skip turns es c).closed ≡ false
    → (c.closed ≡ false) × (outgoing (flush_loop skip turns es c) ≡ outgoing c ++ es)
unfolding flush_loop
flush_loop-open skip turns [] c h = (h, sym (append-nil (outgoing c)))
flush_loop-open skip turns (env ∷ rest) c h = elim (Bool-cases stops) [
  | inl e ↦ absurd (
      let open_after : c'.closed ≡ false = rw e at h in
      let closed_before : c'.closed ≡ true = ground arith in
      let f : true ≡ false = sym closed_before ∙ open_after in cc)
  | inr n ↦
      let h' : (flush_loop skip turns rest (offer (skip (env ∷ rest)) env c')).closed ≡ false =
        rw n at h in
      let later = flush_loop-open skip turns rest (offer (skip (env ∷ rest)) env c') h' in
      let sent = offer-open (skip (env ∷ rest)) env c' later.0 in
      let before = write_many-open (turns (env ∷ rest)) c sent.0 in
      (
        before.0,
        rw n (
            later.1
            ∙ ap (λ o. o ++ rest) sent.1
            ∙ append_assoc (outgoing c') (env ∷ []) rest
            ∙ ap (λ o. o ++ env ∷ rest) before.1),
      )
]
  where
    c' : Client
    c' = write_many (turns (env ∷ rest)) c

    stops : Bool
    stops = c'.closed && (skip (env ∷ rest) || not (has_room c'))

-- A client has begun to buffer live events; then retained events are delivered to it, live events happen,
-- and its connection writes, in any order; at last the buffer is flushed, while the connection goes on
-- writing. If the client is still not closed, what its connection has been given and will be given is what
-- it was before, then all the retained events and then all the live ones, each in their order.
pub flush-run :
    (es : List Event) (skip : List Envelope → Bool) (turns : List Envelope → List Bool) (c : Client)
    → (flush_and_stop_buffering skip turns (run es (start_buffering c))).closed ≡ false
    → outgoing (flush_and_stop_buffering skip turns (run es (start_buffering c)))
      ≡ outgoing c ++ (retained_events es ++ live_events es)
unfolding flush_and_stop_buffering start_buffering
flush-run es skip turns c h =
    let c1 = run es (start_buffering c) in
    let flushed = flush_loop-open skip turns c1.buffer c1 h in
    let ran = run-open es (start_buffering c) refl flushed.0 in
    flushed.1
    ∙ ap (λ o. o ++ c1.buffer) ran.1
    ∙ ap (λ o. (outgoing c ++ retained_events es) ++ o) ran.2
    ∙ append_assoc (outgoing c) (retained_events es) (live_events es)
