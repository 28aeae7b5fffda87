-- ===== src/Ws/Pages.antt =====
-- What a client gets when it comes with a cursor.
use codeallremote.Prelude.{
  ℕ, String, Bool, true, false, some, List, [], ◌∷◌, ◌++◌, ◌≡◌, refl, sym, ◌∙◌, ap, string_eq,
  contains, map, str_refl, Bool-cases, inl, inr, select, take,
}
use codeallremote.Prelude.Dict.{lookup, lookup-insert_self}
use codeallremote.Prelude.Result.{ok}
use codeallremote.Storage.Database.{Db, Tables, sound}
use codeallremote.Storage.Events.{of_session, events_after}
use codeallremote.Storage.Cursor.{CursorResult, clamp_limit, is_cursor_expired, replay}
use codeallremote.Storage.Paging.{Distinct, page, replay_pages}
use codeallremote.Ws.Client.{
  Envelope, Client, start_buffering, send_direct, flush_and_stop_buffering,
}
use codeallremote.Ws.Replay.{
  Event, retained, run, step, retained_events, live_events, outgoing, flush-run,
}
use codeallremote.Ws.Hub.{
  Hub, Cursor, Journal, on_client, subscribers, subscribe, add_subscriber, subscribe_all,
  direct_all, replay_all, replay_and_subscribe, row_envelope,
}
use codeallremote.Ws.Live.{sent_events, run-through}
use mathlib.Core.List.{append-nil, append_assoc}

-- The direct sends are steps of a client that buffers.
sends : (Envelope → Bool) → List Envelope → List Event
sends skip [] = []
sends skip (env ∷ envs) = retained (skip env) env ∷ sends skip envs

direct_all-run :
    (skip : Envelope → Bool) (envs : List Envelope) (c : Client)
    → direct_all skip envs c ≡ run (sends skip envs) c
unfolding direct_all run sends step
direct_all-run skip [] c = refl
direct_all-run skip (env ∷ envs) c = direct_all-run skip envs (send_direct (skip env) env c)

retained_events-sends :
    (skip : Envelope → Bool) (envs : List Envelope)
    → (retained_events (sends skip envs) ≡ envs) × (live_events (sends skip envs) ≡ [])
unfolding retained_events live_events sends
retained_events-sends skip [] = (refl, refl)
retained_events-sends skip (env ∷ envs) =
    let later = retained_events-sends skip envs in (ap (λ es. env ∷ es) later.0, later.1)

-- The client after a page.
abbrev pub served :
    (Envelope → Bool)
    → (List Envelope → Bool)
    → (List Envelope → List Bool)
    → List Envelope
    → Client
    → Client
served skip flush_skip turns envs c =
    flush_and_stop_buffering flush_skip turns (direct_all skip envs (start_buffering c))

served-outgoing :
    (skip : Envelope → Bool) (flush_skip : List Envelope → Bool) (turns : List Envelope → List Bool)
    (envs : List Envelope) (c : Client)
    → (served skip flush_skip turns envs c).closed ≡ false
    → outgoing (served skip flush_skip turns envs c) ≡ outgoing c ++ envs
served-outgoing skip flush_skip turns envs c h =
    let same = direct_all-run skip envs (start_buffering c) in
    let lists = retained_events-sends skip envs in
    let flushed = flush-run (sends skip envs) flush_skip turns c (rw same at h) in
    let all_sent : retained_events (sends skip envs) ++ live_events (sends skip envs) ≡ envs =
      rw lists.0 (rw lists.1 (append-nil envs)) in
    ap (λ x. outgoing (flush_and_stop_buffering flush_skip turns x)) same
    ∙ flushed
    ∙ ap (λ o. outgoing c ++ o) all_sent

served-buffering :
    (skip : Envelope → Bool) (flush_skip : List Envelope → Bool) (turns : List Envelope → List Bool)
    (envs : List Envelope) (c : Client)
    → (served skip flush_skip turns envs c).buffering ≡ false
unfolding flush_and_stop_buffering
served-buffering skip flush_skip turns envs c = refl

-- What is sent after the page comes behind it.
served-then :
    (skip : Envelope → Bool) (flush_skip : List Envelope → Bool) (turns : List Envelope → List Bool)
    (envs : List Envelope) (c c' : Client) (es : List Event)
    → served skip flush_skip turns envs c ≡ c'
    → (run es c').closed ≡ false
    → outgoing (run es c') ≡ outgoing c ++ (envs ++ sent_events es)
served-then skip flush_skip turns envs c c' es got h =
    let stopped : c'.buffering ≡ false =
      ap (λ x. x.buffering) (sym got) ∙ served-buffering skip flush_skip turns envs c in
    let sent = run-through es c' stopped h in
    let before = served-outgoing skip flush_skip turns envs c (ap (λ x. x.closed) got ∙ sent.0) in
    sent.1
    ∙ ap (λ o. o ++ sent_events es) (ap outgoing (sym got) ∙ before)
    ∙ append_assoc (outgoing c) envs (sent_events es)

on_client_found :
    (id : String) (f : Client → Client) (h : Hub) (c : Client)
    → lookup id h.clients ≡ some c
    → lookup id (on_client id f h).clients ≡ some (f c)
on_client_found id f h c e = rw e (lookup-insert_self id (f c) h.clients)

add_subscriber-contains :
    (id : String) (ids : List String) → contains id (add_subscriber id ids) ≡ true
unfolding contains
add_subscriber-contains id ids = elim (Bool-cases (contains id ids)) [
  | inl y ↦ rw y y
  | inr n ↦ rw n (rw (str_refl id) refl)
]

module _ {J E : Type 0} (journal : Journal J E) (skip : Envelope → Bool)
    (flush_skip : List Envelope → Bool) (turns : List Envelope → List Bool) where
  -- The hub after `replayAndSubscribe` with one cursor, if the journal has a page for it.
  abbrev served_hub : String → Cursor → CursorResult → Hub → Hub
  served_hub id cur p h = on_client id (flush_and_stop_buffering flush_skip turns) (
      on_client id (direct_all skip (map row_envelope p.events))
        (subscribe id cur.session_id (on_client id start_buffering h)))

  replay_and_subscribe-served_hub :
      (id : String) (cur : Cursor) (h : Hub) (j j' : J) (p : CursorResult)
      → journal cur.session_id cur.after h.replay_limit j ≡ (ok p, j')
      → p.resync_required ≡ false
      → (replay_and_subscribe journal skip flush_skip turns id (cur ∷ []) (h, j)).0.0
        ≡ served_hub id cur p h
  unfolding replay_and_subscribe replay_all subscribe_all subscribe
  replay_and_subscribe-served_hub id cur h j j' p e r = rw e (rw r refl)

  served_hub-found :
      (id : String) (cur : Cursor) (p : CursorResult) (h : Hub) (c : Client)
      → lookup id h.clients ≡ some c
      → (lookup id (served_hub id cur p h).clients
          ≡ some (served skip flush_skip turns (map row_envelope p.events) c))
        × (contains id (subscribers cur.session_id (served_hub id cur p h)) ≡ true)
  unfolding subscribe subscribers
  served_hub-found id cur p h c e =
      let begun = on_client id start_buffering h in
      let listening = subscribe id cur.session_id begun in
      let f1 = on_client_found id start_buffering h c e in
      let f2 =
        on_client_found id (direct_all skip (map row_envelope p.events)) listening
          (start_buffering c) f1 in
      let sent = on_client id (direct_all skip (map row_envelope p.events)) listening in
      let c2 = direct_all skip (map row_envelope p.events) (start_buffering c) in
      (
        on_client_found id (flush_and_stop_buffering flush_skip turns) sent c2 f2,
        let ids = subscribers cur.session_id h in
            rw (lookup-insert_self cur.session_id (add_subscriber id ids) h.subs_by_session)
              (add_subscriber-contains id ids),
      )

-- The hub on the journal of internal/storage/cursor_repository.go.
abbrev pub brought_up :
    (Envelope → Bool)
    → (List Envelope → Bool)
    → (List Envelope → List Bool)
    → ℕ
    → ℕ
    → String
    → Cursor
    → Hub × Db
    → Hub
brought_up skip flush_skip turns retention now id cur x =
    (replay_and_subscribe (replay retention now) skip flush_skip turns id (cur ∷ []) x).0.0

-- A client comes with one cursor that has not expired, on a database whose driver does not fail and in which
-- the events of the session have distinct sequences, and nothing else happens meanwhile but the writes of
-- its connection; then envelopes are sent to it and its connection writes, in any order. If it is not closed
-- afterwards, what it has been given and will be given is what it was before, then the first retained events
-- after the cursor, no more than `clamp_limit` of the hub's replay limit, and then the envelopes sent to it,
-- in the order of the sends; and once the page is served it is subscribed to the live events of the
-- session, also if retained ones were left out.
pub replay_and_subscribe_page :
    (skip : Envelope → Bool) (flush_skip : List Envelope → Bool) (turns : List Envelope → List Bool)
    (retention now : ℕ) (id : String) (cur : Cursor) (h : Hub) (t : Tables) (c c' : Client)
    (es : List Event)
    → Distinct (select (of_session cur.session_id) t.events)
    → is_cursor_expired retention now cur.session_id cur.after (sound t) ≡ (ok false, sound t)
    → lookup id h.clients ≡ some c
    → lookup id (brought_up skip flush_skip turns retention now id cur (h, sound t)).clients
      ≡ some c'
    → (run es c').closed ≡ false
    → (outgoing (run es c')
        ≡ outgoing c
          ++ (map row_envelope
                (take (clamp_limit h.replay_limit) (events_after cur.session_id cur.after t))
              ++ sent_events es))
      × (contains id (
            subscribers cur.session_id
              (brought_up skip flush_skip turns retention now id cur (h, sound t)))
          ≡ true)
replay_and_subscribe_page skip flush_skip turns retention now id cur h t c c' es d fresh e found
      open_after =
    let p = page cur.session_id cur.after (clamp_limit h.replay_limit) t in
    let journal = replay retention now in
    let paged = (replay_pages cur.session_id t retention now cur.after h.replay_limit d fresh).0 in
    let same =
      replay_and_subscribe-served_hub journal skip flush_skip turns id cur h (sound t) (sound t) p
        paged refl in
    let served_client = served_hub-found journal skip flush_skip turns id cur p h c e in
    let f : some (served skip flush_skip turns (map row_envelope p.events) c) ≡ some c' =
      sym served_client.0 ∙ ap (λ x. lookup id x.clients) (sym same) ∙ found in
    let got : served skip flush_skip turns (map row_envelope p.events) c ≡ c' = cc f in
    (
      served-then skip flush_skip turns (map row_envelope p.events) c c' es got open_after,
      ap (λ x. contains id (subscribers cur.session_id x)) same ∙ served_client.1,
    )
