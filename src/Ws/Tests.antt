-- ===== src/Ws/Tests.antt =====
-- The theorems of the ws package at concrete inputs.
use codeallremote.Prelude.{
  ℕ, true, false, List, [], ◌∷◌, ◌++◌, ◌≡◌, refl, string_eq, select, take, map, contains,
}
use codeallremote.Prelude.Int.{pos}
use codeallremote.Storage.Database.{EventRow, Tables, sound, statement}
use codeallremote.Storage.Sort.{sort_by}
use codeallremote.Storage.Events.{of_session, events_after, get_by_sequence}
use codeallremote.Storage.Cursor.{clamp_limit, is_cursor_expired, replay, replay_page}
use codeallremote.Storage.Paging.{Distinct}
use codeallremote.Ws.Hub.{
  Hub, Cursor, new_hub, subscribers, subscribe, subscribe_all, replay_all, replay_and_subscribe,
  direct_all, row_envelope,
}
use codeallremote.Ws.Live.{sent_events}
use codeallremote.Ws.Pages.{brought_up, replay_and_subscribe_page}
use codeallremote.Prelude.Dict.{lookup, insert}
use codeallremote.Ws.Client.{
  Envelope, Client, new_client, start_buffering, flush_and_stop_buffering, flush_loop, write_many,
  write_one, offer, send, send_direct,
}
use codeallremote.Ws.Replay.{
  Event, live, retained, wrote, run, step, live_events, retained_events, outgoing, flush-run,
}

abbrev event : ℕ → Envelope
event n = record {
  kind = "run.output";
  message_id = "m";
  occurred_at = 10;
  session_id = "s1";
  sequence = pos n;
  payload = "{}";
}

abbrev newcomer : Client
newcomer = new_client "c1" "d1" 4

-- A live event comes between two retained ones.
abbrev catching_up : List Event
catching_up =
    retained false (event 1) ∷ live false (event 3) ∷ wrote true ∷ retained false (event 2) ∷ []

flush-run_example :
    outgoing (
      flush_and_stop_buffering
        (λ es. false)
        (λ es. true ∷ [])
        (run catching_up (start_buffering newcomer)))
    ≡ outgoing newcomer ++ (retained_events catching_up ++ live_events catching_up)
unfolding flush_and_stop_buffering flush_loop run step start_buffering new_client send send_direct
    offer write_one write_many
flush-run_example = flush-run catching_up (λ es. false) (λ es. true ∷ []) newcomer refl

in_order : retained_events catching_up ++ live_events catching_up ≡ event 1 ∷ event 2 ∷ event 3 ∷ []
unfolding retained_events live_events
in_order = refl

abbrev row : ℕ → EventRow
row n = record {
  id = n;
  session_id = "s1";
  sequence = pos n;
  event_type = "run.output";
  message_id = "m";
  schema_version = pos 1;
  payload = "{}";
  occurred_at = 10;
}

abbrev tables : Tables
tables = record {
  sessions = [];
  runs = [];
  events = row 1 ∷ row 2 ∷ row 3 ∷ [];
  approvals = [];
  devices = [];
  access_tokens = [];
  next_event_id = 4;
  workspaces = [];
  audit_log = [];
  next_audit_id = 1;
}

tables-Distinct : Distinct (select (of_session "s1") tables.events)
tables-Distinct = (((λ e. cc), ((λ e. cc), tt)), (((λ e. cc), tt), (tt, tt)))

-- A hub that replays two events.
abbrev small_hub : Hub
small_hub = record new_hub { clients = ("c1", newcomer) ∷ []; replay_limit = pos 2 }

abbrev cursor : Cursor
cursor = record { session_id = "s1"; after = pos 0 }

abbrev caught_up : Client
caught_up = record newcomer { send_ch = event 1 ∷ event 2 ∷ [] }

-- A write, and a live event.
abbrev afterwards : List Event
afterwards = wrote true ∷ live false (event 3) ∷ []

replay_and_subscribe_page_example :
    (outgoing (run afterwards caught_up)
      ≡ outgoing newcomer
        ++ (map row_envelope
              (take (clamp_limit small_hub.replay_limit) (events_after "s1" (pos 0) tables))
            ++ sent_events afterwards))
    × (contains "c1" (
          subscribers "s1" (
            brought_up
              (λ e. false)
              (λ es. false)
              (λ es. [])
              0
              50
              "c1"
              cursor
              (small_hub, sound tables)))
        ≡ true)
unfolding run step send write_one is_cursor_expired lookup insert replay_and_subscribe subscribe_all
    subscribe subscribers replay_all replay replay_page get_by_sequence events_after sort_by
    statement direct_all send_direct offer flush_and_stop_buffering flush_loop start_buffering
    new_client new_hub contains
replay_and_subscribe_page_example =
    replay_and_subscribe_page (λ e. false) (λ es. false) (λ es. []) 0 50 "c1" cursor small_hub
      tables newcomer caught_up afterwards tables-Distinct refl refl refl refl
