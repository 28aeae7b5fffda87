-- ===== src/Storage/Purge.antt =====
-- What `PurgeExpired` does to the numbering of a session's events.
use codeallremote.Prelude.{
  ℕ, ◌<◌, String, Bool, true, false, not, none, some, List, [], ◌∷◌, ◌≡◌, refl, ltb, ◌==◌,
  string_eq, select, any, All, arith, Bool-cases, inl, inr, ap,
}
use codeallremote.Prelude.Int.{pos}
use codeallremote.Prelude.Result.{ok}
use codeallremote.Domain.{Event}
use codeallremote.Storage.Database.{sound, EventRow, Tables}
use codeallremote.Storage.Events.{of_session, has_session, last_sequence_of, max_sequence}
use codeallremote.Storage.Cursor.{append_without_tx, purge_expired}
use codeallremote.Storage.Append.{append_without_tx_lem, appended}

abbrev pub kept : ℕ → EventRow → Bool
kept before r = not (ltb r.occurred_at before)

abbrev pub purged : ℕ → Tables → Tables
purged before t = record t { events = select (kept before) t.events }

purge_runs :
    (before : ℕ) (t : Tables) → (purge_expired before (sound t)).1 ≡ sound (purged before t)
unfolding purge_expired
purge_runs before t = refl

none_left :
    (before : ℕ) (session_id : String) (rs : List EventRow)
    → All (λ r. r.occurred_at < before) (select (of_session session_id) rs)
    → select (of_session session_id) (select (kept before) rs) ≡ []
none_left before session_id [] h = refl
none_left before session_id (r ∷ rs) h = elim (Bool-cases (of_session session_id r)) [
  | inl own ↦
      let h' : (r.occurred_at < before)
          × All (λ r. r.occurred_at < before) (select (of_session session_id) rs) =
        rw own at h in
      ground (arith, none_left before session_id rs h'.1)
  | inr other ↦
      let h' : All (λ r. r.occurred_at < before) (select (of_session session_id) rs) =
        rw other at h in
      ground (arith, none_left before session_id rs h')
]

any-select :
    (p q : EventRow → Bool) (rs : List EventRow) → any p rs ≡ false → any p (select q rs) ≡ false
unfolding any
any-select p q [] h = refl
any-select p q (r ∷ rs) h = ground (arith, any-select p q rs)

no_last_sequence :
    (before : ℕ) (session_id : String) (t : Tables)
    → All (λ r. r.occurred_at < before) (select (of_session session_id) t.events)
    → last_sequence_of session_id (purged before t) ≡ none
unfolding last_sequence_of max_sequence
no_last_sequence before session_id t old =
    ap max_sequence (none_left before session_id t.events old)

-- Where the driver does not fail and a purge has removed every event of a session, the next event of this
-- session that has a payload text and a new message id gets the sequence 1, whatever the session's
-- `last_sequence` was, and that becomes 1 too.
pub append_after_purge :
    (before db_now : ℕ) (e : Event) {payload : String} (t : Tables)
    → e.payload ≡ some payload
    → has_session e.session_id t.sessions ≡ true
    → any (λ r. r.message_id == e.message_id) t.events ≡ false
    → All (λ r. r.occurred_at < before) (select (of_session e.session_id) t.events)
    → append_without_tx db_now e (purge_expired before (sound t)).1
      ≡ (ok (pos 1), sound (appended db_now e (pos 1) payload (purged before t)))
append_after_purge before db_now e {payload} t hp hs hm old =
    let fresh = no_last_sequence before e.session_id t old in
    let run =
      append_without_tx_lem db_now e {payload = payload} (purged before t) hp hs
        (any-select (λ r. r.message_id == e.message_id) (kept before) t.events hm)
        (rw fresh (omega arith)) (rw (none_left before e.session_id t.events old) tt) in
    rw (purge_runs before t) (rw fresh at run.0)
