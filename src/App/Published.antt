-- ===== src/App/Published.antt =====
-- What the live subscribers are given, and what the journal holds.
use codeallremote.Prelude.{List, [], ◌∷◌, ◌++◌, ◌≡◌, ◌⊎◌, inl, inr, All, All-snoc, arith}
use codeallremote.Domain.{Event}
use codeallremote.Storage.Database.{Tables, EventRow}
use codeallremote.Storage.Events.{event_row, scan_event}
use codeallremote.App.State.{App, Outside}
use codeallremote.App.Kept.{IsKept, AllowsMoves}
use codeallremote.App.Serve.{Incoming, serve_all, serve_all-kept}

-- A row of the journal reads back as the event, but for the number of the row.
abbrev pub InJournal : Event → List EventRow → Type 0
InJournal e [] = ⊥
InJournal e (r ∷ rs) = (record (scan_event r) { id = e.id } ≡ e) ⊎ InJournal e rs

abbrev pub Recoverable : Tables → List Event → Type 0
Recoverable t ps = All (λ e. InJournal e t.events) ps

InJournal-snoc :
    (e : Event) (rs : List EventRow) (r : EventRow) → InJournal e rs → InJournal e (rs ++ r ∷ [])
InJournal-snoc e [] r h = absurd h
InJournal-snoc e (s ∷ rs) r (inl h) = inl h
InJournal-snoc e (s ∷ rs) r (inr h) = inr (InJournal-snoc e rs r h)

InJournal-last :
    (e : Event) (rs : List EventRow) (r : EventRow)
    → record (scan_event r) { id = e.id } ≡ e
    → InJournal e (rs ++ r ∷ [])
InJournal-last e [] r h = inl h
InJournal-last e (s ∷ rs) r h = inr (InJournal-last e rs r h)

Recoverable-snoc :
    (ps : List Event) (rs : List EventRow) (r : EventRow)
    → All (λ e. InJournal e rs) ps
    → All (λ e. InJournal e (rs ++ r ∷ [])) ps
Recoverable-snoc [] rs r h = tt
Recoverable-snoc (p ∷ ps) rs r h = (InJournal-snoc p rs r h.0, Recoverable-snoc ps rs r h.1)

Recoverable-IsKept : IsKept Recoverable
Recoverable-IsKept = record {
  session_added = λ t ps s n h. h;
  pending_set = λ t ps now id a h. h;
  runs_changed = λ t ps rs h. h;
  approvals_changed = λ t ps l h. h;
  audit_changed = λ t ps l n h. h;
  event_appended = λ t ps now e seq payload hp h.
      let r = event_row t.next_event_id (record e { sequence = seq }) payload in
      let old = Recoverable-snoc ps t.events r h in
      (
        old,
        All-snoc (λ x. InJournal x (t.events ++ r ∷ [])) ps (record e { sequence = seq }) old
            (InJournal-last (record e { sequence = seq }) t.events r (ground arith)),
      );
}

Recoverable-AllowsMoves : AllowsMoves Recoverable
Recoverable-AllowsMoves = record { state_moved = λ t ps now id from to c h. h }

-- Where nothing had been published before, every event that is published to live subscribers reads back from
-- a row of the journal, with its session, sequence, type, message id, version, payload and time: after any
-- requests of the world outside, in any order, whatever the adapters answer and whichever statements of the
-- database fail.
pub serve_all-Recoverable :
    (outside : Outside) (rs : List Incoming) (app : App)
    → app.published ≡ []
    → let app' = serve_all outside rs app in
      All (λ e. InJournal e app'.db.tables.events) app'.published
serve_all-Recoverable outside rs app h =
    serve_all-kept Recoverable Recoverable-IsKept Recoverable-AllowsMoves outside rs app (rw h tt)
