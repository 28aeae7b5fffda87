-- ===== src/Storage/Log.antt =====
-- The journal as a log: what an append does to the events that the sessions are replayed from.
use codeallremote.Prelude.{
  ℕ, String, Bool, true, false, some, List, [], ◌∷◌, ◌++◌, ◌≡◌, refl, ◌∙◌, ap, arith, ◌==◌,
  string_eq, str_iff, str_refl, if◌then◌else◌, select, any, All, Bool-cases, inl, inr, subst,
}
use codeallremote.Prelude.Int.{ℤ, pos, ◌<ℤ◌, ltb_ℤ, max_int64}
use codeallremote.Domain.{Event}
use codeallremote.Storage.Database.{Tables, EventRow, sound}
use codeallremote.Storage.Sort.{insert_by, sort_by}
use codeallremote.Storage.Events.{
  event_row, events_after, of_session, of_session_after, by_sequence, last_sequence_of, or_zero,
}
use codeallremote.Storage.Cursor.{next_sequence, append_without_tx}
use codeallremote.Storage.Sessions.{has_id}
use codeallremote.Storage.Paging.{Distinct}
use codeallremote.Storage.Append.{append_without_tx_lem}

insert_by-snoc :
    {A : Type 0} (le : A → A → Bool) (x r : A) (ys : List A)
    → le x r ≡ true
    → insert_by le x (ys ++ r ∷ []) ≡ insert_by le x ys ++ r ∷ []
unfolding insert_by
insert_by-snoc le x r [] h = rw h refl
insert_by-snoc le x r (y ∷ ys) h = elim (Bool-cases (le x y)) [
  | inl e ↦ rw e refl
  | inr n ↦ rw n (ap (λ zs. y ∷ zs) (insert_by-snoc le x r ys h))
]

-- A row that comes after all the others is sorted to the end.
sort_by-snoc :
    {A : Type 0} (le : A → A → Bool) (r : A) (xs : List A)
    → All (λ x. le x r ≡ true) xs
    → sort_by le (xs ++ r ∷ []) ≡ sort_by le xs ++ r ∷ []
unfolding sort_by insert_by
sort_by-snoc le r [] h = refl
sort_by-snoc le r (x ∷ xs) (h, hs) =
    ap (insert_by le x) (sort_by-snoc le r xs hs) ∙ insert_by-snoc le x r (sort_by le xs) h

select-snoc_none :
    {A : Type 0} (p : A → Bool) (xs : List A) (r : A)
    → p r ≡ false
    → select p (xs ++ r ∷ []) ≡ select p xs
select-snoc_none p [] r h = rw h refl
select-snoc_none p (x ∷ xs) r h = ground (arith, select-snoc_none p xs r h)

select-snoc_one :
    {A : Type 0} (p : A → Bool) (xs : List A) (r : A)
    → p r ≡ true
    → select p (xs ++ r ∷ []) ≡ select p xs ++ r ∷ []
select-snoc_one p [] r h = rw h refl
select-snoc_one p (x ∷ xs) r h = ground (arith, select-snoc_one p xs r h)

before_new :
    (session_id : String) (after : ℤ) (r : EventRow) (rows : List EventRow)
    → All (λ x. x.sequence <ℤ r.sequence) (select (of_session session_id) rows)
    → All (λ x. by_sequence x r ≡ true) (select (of_session_after session_id after) rows)
before_new session_id after r [] h = tt
before_new session_id after r (x ∷ rows) h = elim (Bool-cases (of_session session_id x)) [
  | inr n ↦ rw n (before_new session_id after r rows (let f : _ = rw n at h in f))
  | inl y ↦
      let hs : _ = rw y at h in
      elim (Bool-cases (ltb_ℤ after x.sequence)) [
        | inl l ↦ rw y (rw l (ground arith, before_new session_id after r rows hs.1))
        | inr l ↦ rw y (rw l (before_new session_id after r rows hs.1))
      ]
]

-- The event of an append, as it stands in the journal.
abbrev pub logged : Event → String → Tables → EventRow
logged e payload t =
    event_row t.next_event_id
      (record e { sequence = next_sequence (last_sequence_of e.session_id t) }) payload

own_log :
    (after : ℤ) (r : EventRow) (t t' : Tables)
    → t'.events ≡ t.events ++ r ∷ []
    → ltb_ℤ after r.sequence ≡ true
    → All (λ x. x.sequence <ℤ r.sequence) (select (of_session r.session_id) t.events)
    → events_after r.session_id after t' ≡ events_after r.session_id after t ++ r ∷ []
unfolding events_after
own_log after r t t' rows l less =
    let p = of_session_after r.session_id after in
    let passes : p r ≡ true = rw (str_refl r.session_id) l in
    ap (λ es. sort_by by_sequence (select p es)) rows
    ∙ ap (sort_by by_sequence) (select-snoc_one p t.events r passes)
    ∙ sort_by-snoc by_sequence r (select p t.events) (before_new r.session_id after r t.events less)

other_log :
    (session_id : String) (after : ℤ) (r : EventRow) (t t' : Tables)
    → t'.events ≡ t.events ++ r ∷ []
    → (r.session_id == session_id) ≡ false
    → events_after session_id after t' ≡ events_after session_id after t
unfolding events_after
other_log session_id after r t t' rows n =
    let p = of_session_after session_id after in
    let fails : p r ≡ false = rw n refl in
    ap (λ es. sort_by by_sequence (select p es)) rows
    ∙ ap (sort_by by_sequence) (select-snoc_none p t.events r fails)

-- Under the conditions of the append theorem (the driver does not fail, the last sequence is below the
-- largest int64, the session's events have distinct sequences, the session is known, the payload has a text
-- and the message id is new), and for a cursor below the sequence that is assigned, an append puts the new
-- event at the end of the events of its session after that cursor, and leaves those of every other session
-- as they were: the journal is a log for each session that grows only at its end.
pub events_after-append_without_tx :
    (db_now : ℕ) (e : Event) {payload : String} (t : Tables) (session_id : String) (after : ℤ)
    → e.payload ≡ some payload
    → any (has_id e.session_id) t.sessions ≡ true
    → any (λ r. r.message_id == e.message_id) t.events ≡ false
    → or_zero (last_sequence_of e.session_id t) <ℤ pos max_int64
    → Distinct (select (of_session e.session_id) t.events)
    → ltb_ℤ after (next_sequence (last_sequence_of e.session_id t)) ≡ true
    → events_after session_id after (append_without_tx db_now e (sound t)).1.tables ≡ (
        if e.session_id == session_id
        then events_after session_id after t ++ logged e payload t ∷ []
        else events_after session_id after t)
events_after-append_without_tx db_now e {payload} t session_id after hp hs hm room d l =
    let seq = next_sequence (last_sequence_of e.session_id t) in
    let t' = (append_without_tx db_now e (sound t)).1.tables in
    let (runs, less, last, distinct) =
      append_without_tx_lem db_now e {payload = payload} t hp hs hm room d in
    let rows : t'.events ≡ t.events ++ logged e payload t ∷ [] = ap (λ x. x.1.tables.events) runs in
    elim (Bool-cases (e.session_id == session_id)) [
      | inl y ↦ rw y (
          subst
            (λ id. events_after id after t' ≡ events_after id after t ++ logged e payload t ∷ [])
            ((str_iff e.session_id session_id).0 y)
            (own_log after (logged e payload t) t t' rows l less))
      | inr n ↦ rw n (other_log session_id after (logged e payload t) t t' rows n)
    ]
