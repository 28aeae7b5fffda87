-- ===== src/Ws/Client.antt =====
-- `client` of internal/ws/client.go. What the connection has been given is a list, and so is the channel,
-- oldest first. Where a `select` finds both the channel and `closed` ready, Go picks one of them: the
-- argument `skip` says that it picks `closed`. The callback of `close` is not modelled.
use codeallremote.Prelude.{
  ℕ, String, Bool, true, false, List, [], ◌∷◌, ◌++◌, ◌&&◌, ◌||◌, not, ltb, length, if◌then◌else◌,
}
use codeallremote.Prelude.Int.{ℤ}

-- `Envelope`. The payload is the text that `json.Marshal` makes of the Go map.
pub record Envelope : Type 0 where
  pub kind : String
  pub message_id : String
  pub occurred_at : ℕ
  pub session_id : String
  pub sequence : ℤ
  pub payload : String

-- `client`, with what its connection has been given.
pub record Client : Type 0 where
  pub id : String
  pub device_id : String
  pub send_ch : List Envelope
  pub send_buffer : ℕ
  pub closed : Bool
  pub slow : Bool
  pub close_code : ℕ
  pub buffering : Bool
  pub buffer : List Envelope
  pub written : List Envelope

-- `newClient`
unfoldable pub new_client : String → String → ℕ → Client
new_client id device_id send_buffer = record {
  id = id;
  device_id = device_id;
  send_ch = [];
  send_buffer = send_buffer;
  closed = false;
  slow = false;
  close_code = 4000;
  buffering = false;
  buffer = [];
  written = [];
}

-- `close`
unfoldable pub close : Client → Client
close c = record c { closed = true }

-- `markSlow`
unfoldable pub mark_slow : Client → Client
unfolding close
mark_slow c = close (record c { slow = true; close_code = 4001 })

abbrev pub has_room : Client → Bool
has_room c = ltb (length c.send_ch) c.send_buffer

-- `select { case c.sendCh <- env: case <-c.closed: default: c.markSlow() }`
unfoldable pub offer : Bool → Envelope → Client → Client
unfolding mark_slow
offer skip env c =
    if has_room c && not (c.closed && skip)
    then record c { send_ch = c.send_ch ++ env ∷ [] }
    else if c.closed
    then c
    else mark_slow c

-- `send`
unfoldable pub send : Bool → Envelope → Client → Client
unfolding offer
send skip env c =
    if c.closed
    then c
    else if c.buffering
    then record c { buffer = c.buffer ++ env ∷ [] }
    else offer skip env c

-- `sendDirect`
unfoldable pub send_direct : Bool → Envelope → Client → Client
unfolding offer
send_direct skip env c = if c.closed then c else offer skip env c

-- `startBuffering`
unfoldable pub start_buffering : Client → Client
start_buffering c = record c { buffering = true; buffer = [] }

-- One turn of the loop of `runWriter` that takes an envelope from the channel: the write succeeds or not.
abbrev pub write_first : Bool → List Envelope → Client → Client
write_first good [] c = c
write_first true (env ∷ rest) c = record c { send_ch = rest; written = c.written ++ env ∷ [] }
write_first false (env ∷ rest) c = record c { send_ch = rest; closed = true }

unfoldable pub write_one : Bool → Client → Client
write_one good c = write_first good c.send_ch c

unfoldable pub write_many : List Bool → Client → Client
write_many [] c = c
write_many (good ∷ rest) c = write_many rest (write_one good c)

-- The loop of `flushAndStopBuffering` over the envelopes of the buffer. The writer works at the same time:
-- before each turn it takes some envelopes from the channel.
unfoldable pub flush_loop :
    (List Envelope → Bool) → (List Envelope → List Bool) → List Envelope → Client → Client
flush_loop skip turns [] c = c
flush_loop skip turns (env ∷ rest) c =
    let c' = write_many (turns (env ∷ rest)) c in
    let going = flush_loop skip turns rest (offer (skip (env ∷ rest)) env c') in
    if c'.closed && (skip (env ∷ rest) || not (has_room c')) then c' else going

-- `flushAndStopBuffering`
unfoldable pub flush_and_stop_buffering :
    (List Envelope → Bool) → (List Envelope → List Bool) → Client → Client
flush_and_stop_buffering skip turns c = record (flush_loop skip turns c.buffer c) {
  buffer = [];
  buffering = false;
}
