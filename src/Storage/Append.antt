-- ===== src/Storage/Append.antt =====
-- The sequence numbers that `CursorRepository.Append` assigns.
use codeallremote.Prelude.{
  ℕ, ◌+◌, String, true, false, Option, none, some, List, [], ◌∷◌, ◌++◌, ◌≡◌, ◌≢◌, refl, ap, ◌∙◌,
  ◌==◌, string_eq, select, any, All, All-snoc, select-snoc, arith, Bool-cases, inl, inr, str_refl,
}
use codeallremote.Prelude.Int.{ℤ, pos, ◌<ℤ◌, ◌≤ℤ◌, pos_part, neg_part, inc64-lt, max_int64}
use codeallremote.Prelude.Result.{ok}
use codeallremote.Domain.{Event}
use codeallremote.Storage.Database.{sound, EventRow, Tables, with_transaction}
use codeallremote.Storage.Events.{
  of_session, clashes, event_row, admits, insert_event, has_session, max_sequence, max_option,
  last_sequence_of, or_zero, append as append_event,
}
use codeallremote.Storage.Sessions.{has_id, update_sessions}
use codeallremote.Storage.Cursor.{append, append_without_tx, next_sequence, advance}
use codeallremote.Storage.Paging.{Distinct}

-- A maximum is at most `b`.
abbrev AtMost : Option ℤ → ℤ → Type 0
AtMost none b = Unit
AtMost (some m) b = m ≤ℤ b

AtMost-max_option : (a : ℤ) (o : Option ℤ) (b : ℤ) → max_option a o ≤ℤ b → (a ≤ℤ b) × AtMost o b
AtMost-max_option a none b h = (h, tt)
AtMost-max_option a (some m) b h = ground arith

max_sequence_bound :
    (rs : List EventRow) (b : ℤ) → AtMost (max_sequence rs) b → All (λ r. r.sequence ≤ℤ b) rs
unfolding max_sequence
max_sequence_bound [] b h = tt
max_sequence_bound (r ∷ rs) b h =
    let (le, rest) = AtMost-max_option r.sequence (max_sequence rs) b h in
    (le, max_sequence_bound rs b rest)

below :
    (rs : List EventRow) (b c : ℤ)
    → b <ℤ c
    → All (λ r. r.sequence ≤ℤ b) rs
    → All (λ r. r.sequence <ℤ c) rs
below [] b c lt h = tt
below (r ∷ rs) b c lt h = (omega arith, below rs b c lt h.1)

or_zero-lt-next_sequence :
    (o : Option ℤ) → or_zero o <ℤ pos max_int64 → or_zero o <ℤ next_sequence o
or_zero-lt-next_sequence none h = omega arith
or_zero-lt-next_sequence (some m) h = inc64-lt m h

AtMost-or_zero : (o : Option ℤ) → AtMost o (or_zero o)
AtMost-or_zero none = tt
AtMost-or_zero (some m) = omega arith

-- Every row of the session has a smaller sequence than the one that is assigned next.
below_next :
    (rs : List EventRow)
    → or_zero (max_sequence rs) <ℤ pos max_int64
    → All (λ r. r.sequence <ℤ next_sequence (max_sequence rs)) rs
below_next rs h =
    below rs (or_zero (max_sequence rs)) (next_sequence (max_sequence rs))
      (or_zero-lt-next_sequence (max_sequence rs) h)
      (max_sequence_bound rs (or_zero (max_sequence rs)) (AtMost-or_zero (max_sequence rs)))

no_clash :
    (e : Event) (rs : List EventRow)
    → All (λ r. r.sequence <ℤ e.sequence) (select (of_session e.session_id) rs)
    → any (λ r. r.message_id == e.message_id) rs ≡ false
    → any (clashes e) rs ≡ false
unfolding any
no_clash e [] h m = refl
no_clash e (r ∷ rs) h m = elim (Bool-cases (of_session e.session_id r)) [
  | inl own ↦
      let h' : (r.sequence <ℤ e.sequence)
          × All (λ r. r.sequence <ℤ e.sequence) (select (of_session e.session_id) rs) =
        rw own at h in
      ground (arith, no_clash e rs h'.1)
  | inr other ↦
      let h' : All (λ r. r.sequence <ℤ e.sequence) (select (of_session e.session_id) rs) =
        rw other at h in
      ground (arith, no_clash e rs h')
]

max_sequence-snoc :
    (rs : List EventRow) (r : EventRow)
    → All (λ s. s.sequence <ℤ r.sequence) rs
    → max_sequence (rs ++ r ∷ []) ≡ some r.sequence
unfolding max_sequence
max_sequence-snoc [] r h = refl
max_sequence-snoc (s ∷ rs) r h = rw (max_sequence-snoc rs r h.1) (ground arith)

Distinct-snoc :
    (rs : List EventRow) (r : EventRow)
    → All (λ s. s.sequence <ℤ r.sequence) rs
    → Distinct rs
    → Distinct (rs ++ r ∷ [])
Distinct-snoc [] r h d = (tt, tt)
Distinct-snoc (s ∷ rs) r h d = (
  All-snoc (λ x. x.sequence ≢ s.sequence) rs r d.0
      (λ e. omega (arith, ap pos_part e, ap neg_part e, h.0)),
  Distinct-snoc rs r h.1 d.1,
)

-- The tables after a successful append.
abbrev pub appended : ℕ → Event → ℤ → String → Tables → Tables
appended db_now e seq payload t = record t {
  events = t.events ++ event_row t.next_event_id (record e { sequence = seq }) payload ∷ [];
  next_event_id = t.next_event_id + 1;
  sessions = update_sessions (has_id e.session_id) (advance db_now seq) t.sessions;
}

module _ (db_now : ℕ) (e : Event) (payload : String) (t : Tables) where
  abbrev own_rows : List EventRow
  own_rows = select (of_session e.session_id) t.events

  abbrev assigned : ℤ
  assigned = next_sequence (last_sequence_of e.session_id t)

  abbrev new_row : EventRow
  new_row = event_row t.next_event_id (record e { sequence = assigned }) payload

  own_rows-lt :
      or_zero (last_sequence_of e.session_id t) <ℤ pos max_int64
      → All (λ r. r.sequence <ℤ assigned) own_rows
  unfolding last_sequence_of
  own_rows-lt room = below_next own_rows room

  admits_new :
      has_session e.session_id t.sessions ≡ true
      → any (λ r. r.message_id == e.message_id) t.events ≡ false
      → All (λ r. r.sequence <ℤ assigned) own_rows
      → admits (record e { sequence = assigned }) t ≡ true
  unfolding admits
  admits_new hs hm less =
      rw hs (rw (no_clash (record e { sequence = assigned }) t.events less hm) refl)

  insert_runs :
      admits (record e { sequence = assigned }) t ≡ true
      → insert_event (record e { sequence = assigned }) payload t
        ≡ ok (
          assigned,
          record t { events = t.events ++ new_row ∷ []; next_event_id = t.next_event_id + 1 },
        )
  unfolding insert_event
  insert_runs adm = rw adm refl

  append_runs :
      e.payload ≡ some payload
      → admits (record e { sequence = assigned }) t ≡ true
      → append_without_tx db_now e (sound t)
        ≡ (ok assigned, sound (appended db_now e assigned payload t))
  unfolding append_without_tx with_transaction append append_event admits last_sequence_of
      update_sessions
  append_runs hp adm = simp (hp, insert_runs adm)

  last_sequence_of-appended :
      All (λ r. r.sequence <ℤ assigned) own_rows
      → last_sequence_of e.session_id (appended db_now e assigned payload t) ≡ some assigned
  unfolding last_sequence_of
  last_sequence_of-appended less =
      ap max_sequence
        (select-snoc (of_session e.session_id) t.events new_row (str_refl e.session_id))
      ∙ max_sequence-snoc own_rows new_row less

-- Where the driver does not fail, the last sequence is below the largest int64 and the session's events
-- have distinct sequences, an event of a known session that has a payload text and a new message id is
-- appended with the next sequence. This one is above all that the journal held of the session and is its
-- last sequence from then on, and the session's events have distinct sequences again.
pub append_without_tx_lem :
    (db_now : ℕ) (e : Event) {payload : String} (t : Tables)
    → e.payload ≡ some payload
    → has_session e.session_id t.sessions ≡ true
    → any (λ r. r.message_id == e.message_id) t.events ≡ false
    → or_zero (last_sequence_of e.session_id t) <ℤ pos max_int64
    → Distinct (select (of_session e.session_id) t.events)
    → let seq = next_sequence (last_sequence_of e.session_id t) in
      let t' = appended db_now e seq payload t in
      (append_without_tx db_now e (sound t) ≡ (ok seq, sound t'))
      × All (λ r. r.sequence <ℤ seq) (select (of_session e.session_id) t.events)
      × (last_sequence_of e.session_id t' ≡ some seq)
      × Distinct (select (of_session e.session_id) t'.events)
append_without_tx_lem db_now e {payload} t hp hs hm room d =
    let less = own_rows-lt db_now e payload t room in
    let row = new_row db_now e payload t in
    (
      append_runs db_now e payload t hp (admits_new db_now e payload t hs hm less),
      less,
      last_sequence_of-appended db_now e payload t less,
      rw (select-snoc (of_session e.session_id) t.events row (str_refl e.session_id))
          (Distinct-snoc (select (of_session e.session_id) t.events) row less d),
    )
