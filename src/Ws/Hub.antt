-- ===== src/Ws/Hub.antt =====
-- `Hub` of internal/ws/hub.go. A client is an object: the hub knows it by an identity, under which `clients`
-- holds its state. The journal is an interface, `Journal`, over its own state.
use codeallremote.Prelude.{
  ℕ, String, Bool, true, false, Option, none, some, List, [], ◌∷◌, ◌++◌, not, if◌then◌else◌, ◌==◌,
  string_eq, contains, select, length, map,
}
use codeallremote.Prelude.Int.{ℤ, pos, eqb_ℤ}
use codeallremote.Prelude.Dict.{Dict, lookup, insert, erase, map_values, prune}
use codeallremote.Prelude.Result.{Result, ok, err}
use codeallremote.Domain.{Event}
use codeallremote.Storage.Database.{EventRow}
use codeallremote.Storage.Cursor.{CursorResult}
use codeallremote.Ws.Client.{
  Envelope, Client, send, send_direct, start_buffering, flush_and_stop_buffering,
}

-- `Hello`
pub record Cursor : Type 0 where
  pub session_id : String
  pub after : ℤ

pub record Hello : Type 0 where
  pub kind : String
  pub protocol_version : ℤ
  pub device_id : String
  pub cursors : List Cursor

-- `ResyncRequired`
pub record ResyncRequired : Type 0 where
  pub session_id : String
  pub after : ℤ

-- `EventJournal`: the replay of a session after a sequence, at most so many events.
abbrev pub Journal : Type 0 → Type 0 → Type 0
Journal J E = String → ℤ → ℤ → J → Result E CursorResult × J

-- `Hub`, without its lock and its logger.
pub record Hub : Type 0 where
  pub subs_by_session : Dict (List String)
  pub clients : Dict Client
  pub replay_limit : ℤ
  pub send_buffer : ℕ

-- `NewHub`
unfoldable pub new_hub : Hub
new_hub = record { subs_by_session = []; clients = []; replay_limit = pos 100; send_buffer = 256 }

-- A method of a client, on the object.
abbrev pub changed : String → (Client → Client) → Option Client → Dict Client → Dict Client
changed id f none m = m
changed id f (some c) m = insert id (f c) m

abbrev pub on_client : String → (Client → Client) → Hub → Hub
on_client id f h = record h { clients = changed id f (lookup id h.clients) h.clients }

-- `h.subsBySession[sessionID]`
abbrev pub listed : Option (List String) → List String
listed none = []
listed (some ids) = ids

unfoldable pub subscribers : String → Hub → List String
subscribers session_id h = listed (lookup session_id h.subs_by_session)

abbrev pub add_subscriber : String → List String → List String
add_subscriber id ids = if contains id ids then ids else id ∷ ids

-- `subscribe`
unfoldable pub subscribe : String → String → Hub → Hub
subscribe id session_id h = record h {
  subs_by_session =
      insert session_id (add_subscriber id (subscribers session_id h)) h.subs_by_session;
}

abbrev pub remove_subscriber : String → List String → List String
remove_subscriber id ids = select (λ other. not (other == id)) ids

abbrev pub is_empty : List String → Bool
is_empty [] = true
is_empty (id ∷ ids) = false

-- `unsubscribe`
unfoldable pub unsubscribe : String → Hub → Hub
unsubscribe id h = record h {
  subs_by_session = prune is_empty (map_values (remove_subscriber id) h.subs_by_session);
}

abbrev pub remove_from :
    String → String → Option (List String) → Dict (List String) → Dict (List String)
remove_from id session_id none m = m
remove_from id session_id (some ids) m =
    let left = remove_subscriber id ids in
    if is_empty left then erase session_id m else insert session_id left m

-- `unsubscribeSession`
unfoldable pub unsubscribe_session : String → String → Hub → Hub
unsubscribe_session id session_id h = record h {
  subs_by_session =
      remove_from id session_id (lookup session_id h.subs_by_session) h.subs_by_session;
}

-- `SubscriberCount`
unfoldable pub subscriber_count : String → Hub → ℕ
subscriber_count session_id h = length (subscribers session_id h)

-- The payload of an event, as text: one that has no JSON text is empty.
abbrev pub text_or_empty : Option String → String
text_or_empty none = ""
text_or_empty (some text) = text

abbrev pub event_envelope : Event → Envelope
event_envelope e = record {
  kind = e.event_type;
  message_id = e.message_id;
  occurred_at = e.occurred_at;
  session_id = e.session_id;
  sequence = e.sequence;
  payload = text_or_empty e.payload;
}

abbrev pub row_envelope : EventRow → Envelope
row_envelope r = record {
  kind = r.event_type;
  message_id = r.message_id;
  occurred_at = r.occurred_at;
  session_id = r.session_id;
  sequence = r.sequence;
  payload = r.payload;
}

-- The loop of `Publish` over the subscribers that it found, one `send` at a time. For each client an
-- argument says what `send` picks where two cases are ready.
unfoldable pub send_each : (String → Bool) → Envelope → List String → Hub → Hub
send_each skip env [] h = h
send_each skip env (id ∷ ids) h = send_each skip env ids (on_client id (send (skip id) env) h)

-- `Publish`: the subscribers are read under the lock, and the sends come after it.
unfoldable pub publish : (String → Bool) → Event → Hub → Hub
publish skip e h = send_each skip (event_envelope e) (subscribers e.session_id h) h

-- The loop of `replayAndSubscribe` that subscribes.
unfoldable pub subscribe_all : String → List Cursor → Hub → Hub
subscribe_all id [] h = h
subscribe_all id (cur ∷ cursors) h = subscribe_all id cursors (subscribe id cur.session_id h)

-- The loop over the retained events of a page.
unfoldable pub direct_all : (Envelope → Bool) → List Envelope → Client → Client
direct_all skip [] c = c
direct_all skip (env ∷ envs) c = direct_all skip envs (send_direct (skip env) env c)

-- What is done with the page of a cursor.
abbrev pub deliver :
    {E : Type 0}
    → (Envelope → Bool)
    → String
    → Cursor
    → Result E CursorResult
    → Hub
    → Hub × List ResyncRequired
deliver skip id cur (err e) h = (unsubscribe_session id cur.session_id h, [])
deliver skip id cur (ok page) h =
    if page.resync_required
    then (
      unsubscribe_session id cur.session_id h,
      record { session_id = cur.session_id; after = cur.after } ∷ [],
    )
    else (on_client id (direct_all skip (map row_envelope page.events)) h, [])

module _ {J E : Type 0} (journal : Journal J E) where
  -- The loop that replays.
  unfoldable pub replay_all :
      (Envelope → Bool) → String → List Cursor → Hub × J → (Hub × J) × List ResyncRequired
  replay_all skip id [] x = (x, [])
  replay_all skip id (cur ∷ cursors) (h, j) =
      let (res, j') = journal cur.session_id cur.after h.replay_limit j in
      let (h', resyncs) = deliver skip id cur res h in
      let (x, rest) = replay_all skip id cursors (h', j') in (x, resyncs ++ rest)

  -- `replayAndSubscribe`, with nothing of other goroutines between its steps.
  unfoldable pub replay_and_subscribe :
      (Envelope → Bool)
      → (List Envelope → Bool)
      → (List Envelope → List Bool)
      → String
      → List Cursor
      → Hub × J
      → (Hub × J) × List ResyncRequired
  replay_and_subscribe skip flush_skip turns id cursors (h, j) =
      let h1 = subscribe_all id cursors (on_client id start_buffering h) in
      let ((h2, j'), resyncs) = replay_all skip id cursors (h1, j) in
      ((on_client id (flush_and_stop_buffering flush_skip turns) h2, j'), resyncs)

-- Why `decodeHello` refuses a message.
pub data HelloError : Type 0 where
  undecodable : String → HelloError
  not_hello bad_version device_required : HelloError

abbrev pub check_hello : Result String Hello → Result HelloError Hello
check_hello (err e) = err (undecodable e)
check_hello (ok hello) =
    if not (hello.kind == "hello")
    then err not_hello
    else if not (eqb_ℤ hello.protocol_version (pos 1))
    then err bad_version
    else if hello.device_id == ""
    then err device_required
    else ok hello

-- `decodeHello`; `json.Unmarshal` is a parameter.
unfoldable pub decode_hello : (String → Result String Hello) → String → Result HelloError Hello
decode_hello unmarshal data_text = check_hello (unmarshal data_text)
