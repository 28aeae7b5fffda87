-- ===== src/Storage/Paging.antt =====
-- Why paging through the journal neither loses nor repeats an event.
use codeallremote.Prelude.{
  ℕ, zero, suc, String, Bool, true, false, List, [], ◌∷◌, ◌++◌, ◌≡◌, ◌≢◌, refl, sym, ap, ◌∙◌, ◌==◌,
  string_eq, nat_eq, length, take, drop, take-append-drop, select, All, select-select, All-select,
  All-of_select, arith, Bool-cases, inl, inr,
}
use codeallremote.Prelude.Int.{ℤ, ltb_ℤ, ◌<ℤ◌, ◌≤ℤ◌, lt-of_leb_ne}
use codeallremote.Prelude.Result.{Result, ok}
use codeallremote.Storage.Database.{sound, EventRow, Tables, SqlError, Db}
use codeallremote.Storage.Sort.{sort_by, insert_by, sort_by-select, All-sort_by}
use codeallremote.Storage.Events.{of_session, by_sequence, events_after, get_by_sequence}
use codeallremote.Storage.Cursor.{
  CursorResult, replay, replay_page, last_sequence_or, clamp_limit, is_cursor_expired, some_rows,
}

-- Increasing sequences, all above a bound.
abbrev pub Ascending : ℤ → List EventRow → Type 0
Ascending lo [] = Unit
Ascending lo (r ∷ rs) = (lo <ℤ r.sequence) × Ascending r.sequence rs

-- No two rows have one sequence.
abbrev pub Distinct : List EventRow → Type 0
Distinct [] = Unit
Distinct (r ∷ rs) = All (λ s. s.sequence ≢ r.sequence) rs × Distinct rs

abbrev is_after : ℤ → EventRow → Bool
is_after after r = ltb_ℤ after r.sequence

Distinct-select : (p : EventRow → Bool) (rs : List EventRow) → Distinct rs → Distinct (select p rs)
Distinct-select p [] h = tt
Distinct-select p (r ∷ rs) h = elim (Bool-cases (p r)) [
  | inl e ↦ rw e (All-select _ p rs h.0, Distinct-select p rs h.1)
  | inr n ↦ rw n (Distinct-select p rs h.1)
]

Ascending-insert_by :
    (lo : ℤ) (x : EventRow) (ys : List EventRow)
    → lo <ℤ x.sequence
    → All (λ s. s.sequence ≢ x.sequence) ys
    → Ascending lo ys
    → Ascending lo (insert_by by_sequence x ys)
unfolding insert_by
Ascending-insert_by lo x [] h ne a = (h, tt)
Ascending-insert_by lo x (y ∷ ys) h ne a = elim (Bool-cases (by_sequence x y)) [
  | inl e ↦ rw e (h, (lt-of_leb_ne x.sequence y.sequence e ne.0, a.1))
  | inr n ↦ rw n (a.0, Ascending-insert_by y.sequence x ys (ground arith) ne.1 a.1)
]

Ascending-sort_by :
    (lo : ℤ) (rs : List EventRow)
    → All (λ s. lo <ℤ s.sequence) rs
    → Distinct rs
    → Ascending lo (sort_by by_sequence rs)
unfolding sort_by
Ascending-sort_by lo [] h d = tt
Ascending-sort_by lo (r ∷ rs) h d =
    Ascending-insert_by lo r (sort_by by_sequence rs) h.0 (All-sort_by _ by_sequence rs d.0)
      (Ascending-sort_by lo rs h.1 d.1)

select_of_Ascending :
    (lo a : ℤ) (rs : List EventRow) → a ≤ℤ lo → Ascending lo rs → select (is_after a) rs ≡ rs
select_of_Ascending lo a [] le h = refl
select_of_Ascending lo a (r ∷ rs) le h = ground (arith, select_of_Ascending r.sequence a rs)

last_sequence_or-ge :
    (lo : ℤ) (n : ℕ) (rs : List EventRow) → Ascending lo rs → lo ≤ℤ last_sequence_or lo (take n rs)
last_sequence_or-ge lo zero rs h = omega arith
last_sequence_or-ge lo (suc n) [] h = omega arith
last_sequence_or-ge lo (suc n) (r ∷ rs) h = omega (arith, last_sequence_or-ge r.sequence n rs h.1)

-- Behind the last row of a page come exactly the rows that the page left out.
select_after_page :
    (lo : ℤ) (n : ℕ) (rs : List EventRow)
    → Ascending lo rs
    → select (is_after (last_sequence_or lo (take n rs))) rs ≡ drop n rs
select_after_page lo zero rs h = select_of_Ascending lo lo rs (omega arith) h
select_after_page lo (suc n) [] h = refl
select_after_page lo (suc n) (r ∷ rs) h =
    ground (arith, select_after_page r.sequence n rs h.1, last_sequence_or-ge r.sequence n rs h.1)

select_twice :
    (a b : ℤ) (rs : List EventRow)
    → a ≤ℤ b
    → select (is_after b) (select (is_after a) rs) ≡ select (is_after b) rs
select_twice a b [] le = refl
select_twice a b (r ∷ rs) le = ground (arith, select_twice a b rs le)

is_after_up :
    (a : ℤ) (r s : EventRow) → by_sequence r s ≡ true → is_after a r ≡ true → is_after a s ≡ true
is_after_up a r s le h = ground arith

module _ (session_id : String) (t : Tables) where
  -- The rows of one session, as `WHERE session_id = ?` finds them.
  abbrev session_rows : List EventRow
  session_rows = select (of_session session_id) t.events

  events_after-select :
      (after : ℤ)
      → events_after session_id after t ≡ select (is_after after) (sort_by by_sequence session_rows)
  unfolding events_after
  events_after-select after =
      ap (sort_by by_sequence) (select-select (of_session session_id) (is_after after) t.events)
      ∙ sym (sort_by-select by_sequence (is_after after) session_rows (is_after_up after))

  -- The events after a cursor come in increasing order of their sequences.
  pub events_after-Ascending :
      (after : ℤ) → Distinct session_rows → Ascending after (events_after session_id after t)
  unfolding events_after
  events_after-Ascending after d =
      rw (select-select (of_session session_id) (is_after after) t.events) (
        Ascending-sort_by after (select (is_after after) session_rows)
          (All-of_select _ (is_after after) session_rows (λ r h. ground arith))
          (Distinct-select (is_after after) session_rows d))

  -- The events behind the page of `n` events after a cursor are exactly those that the page left out.
  pub events_after_page :
      (after : ℤ) (n : ℕ)
      → Distinct session_rows
      → events_after session_id
          (last_sequence_or after (take n (events_after session_id after t)))
          t
        ≡ drop n (events_after session_id after t)
  events_after_page after n d =
      let rows = events_after session_id after t in
      let next = last_sequence_or after (take n rows) in
      let sorted = events_after-Ascending after d in
      events_after-select next
      ∙ sym (
          select_twice after next (sort_by by_sequence session_rows)
            (last_sequence_or-ge after n rows sorted))
      ∙ ap (select (is_after next)) (sym (events_after-select after))
      ∙ select_after_page after n rows sorted

-- `events_after` at the cursor that a page returns, in a database whose driver does not fail.
abbrev pub is_nonempty : List EventRow → Bool
is_nonempty [] = false
is_nonempty (r ∷ rs) = true

abbrev pub page : String → ℤ → ℕ → Tables → CursorResult
page session_id after n t =
    let rows = events_after session_id after t in
    record {
      events = take n rows;
      next_after = last_sequence_or after (take n rows);
      resync_required = false;
      has_more = is_nonempty (drop n rows);
    }

Ascending-take : (lo : ℤ) (n : ℕ) (rs : List EventRow) → Ascending lo rs → Ascending lo (take n rs)
Ascending-take lo zero rs h = tt
Ascending-take lo (suc n) [] h = tt
Ascending-take lo (suc n) (r ∷ rs) h = (h.0, Ascending-take r.sequence n rs h.1)

some_rows-take : (rs : List EventRow) → some_rows (ok (take 1 rs)) ≡ is_nonempty rs
some_rows-take [] = refl
some_rows-take (r ∷ rs) = refl

drop_of_short :
    (n : ℕ) (rs : List EventRow)
    → (length (take n rs) == n) ≡ false
    → is_nonempty (drop n rs) ≡ false
drop_of_short zero rs h = ground arith
drop_of_short (suc n) [] h = refl
drop_of_short (suc n) (r ∷ rs) h = drop_of_short n rs (ground arith)

module _ (session_id : String) (t : Tables) where
  replay_page_lem :
      (after : ℤ) (n : ℕ)
      → Distinct (select (of_session session_id) t.events)
      → replay_page session_id after n (sound t) ≡ (ok (page session_id after n t), sound t)
  unfolding replay_page get_by_sequence
  replay_page_lem after n d =
      elim (Bool-cases (length (take n (events_after session_id after t)) == n)) [
        | inl full ↦ rw full (
            ap result (
              ap (λ rs. some_rows (ok (take 1 rs))) (events_after_page session_id t after n d)
              ∙ some_rows-take (drop n (events_after session_id after t))))
        | inr short ↦
            rw short (ap result (sym (drop_of_short n (events_after session_id after t) short)))
      ]
    where
      result : Bool → Result SqlError CursorResult × Db
      result more = (ok (record (page session_id after n t) { has_more = more }), sound t)

  -- Where the driver does not fail, the events of the session have distinct sequences and the cursor has
  -- not expired, a replay returns the first events after the cursor, at most `clamp_limit limit` of
  -- them, in ascending sequence, with the cursor of the last one, and says that there are more exactly
  -- when some are left out. The events after the cursor that it returns are exactly those left out.
  pub replay_pages :
      (retention now : ℕ) (after limit : ℤ)
      → Distinct (select (of_session session_id) t.events)
      → is_cursor_expired retention now session_id after (sound t) ≡ (ok false, sound t)
      → let p = page session_id after (clamp_limit limit) t in
        (replay retention now session_id after limit (sound t) ≡ (ok p, sound t))
        × (p.events ++ events_after session_id p.next_after t ≡ events_after session_id after t)
        × Ascending after p.events
  unfolding replay
  replay_pages retention now after limit d fresh = (
    rw fresh (replay_page_lem after (clamp_limit limit) d),
    ap (λ rs. take (clamp_limit limit) (events_after session_id after t) ++ rs)
          (events_after_page session_id t after (clamp_limit limit) d)
        ∙ take-append-drop (clamp_limit limit) (events_after session_id after t),
    Ascending-take after (clamp_limit limit) (events_after session_id after t)
        (events_after-Ascending session_id t after d),
  )
