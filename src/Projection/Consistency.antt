-- ===== src/Projection/Consistency.antt =====
-- Snapshots against the journal: they are read only, and when `last_sequence` is that of the journal.
use codeallremote.Prelude.{
  ℕ, String, Bool, true, false, some, List, [], ◌∷◌, ◌≡◌, refl, sym, ap, ◌∙◌, if◌then◌else◌, ◌==◌,
  string_eq, select, any, map, select-map, first_of_select, All-intro, List-cases, Bool-cases, inl,
  inr, arith,
}
use codeallremote.Prelude.Int.{ℤ, pos, eqb_ℤ, eq_of_parts, max_int64, ◌<ℤ◌}
use codeallremote.Prelude.Result.{ok}
use codeallremote.Domain.{Session, Event}
use codeallremote.Storage.Database.{sound, Tables}
use codeallremote.Storage.Events.{of_session, last_sequence_of, or_zero, has_session}
use codeallremote.Storage.Sessions.{has_id, update_sessions}
use codeallremote.Storage.Cursor.{append_without_tx, next_sequence, advance}
use codeallremote.Storage.Append.{appended, append_without_tx_lem}
use codeallremote.Storage.Paging.{Distinct}
use codeallremote.Projection.Snapshot.{is_consistent, load_last_event_sequence}

eqb_ℤ-refl : (a : ℤ) → eqb_ℤ a a ≡ true
eqb_ℤ-refl a = ground arith

eqb_ℤ-eq : (a b : ℤ) → eqb_ℤ a b ≡ true → a ≡ b
eqb_ℤ-eq a b h = eq_of_parts a b (ground arith)

-- The first row of the updated table is the updated first row.
select_updated :
    (id : String) (f : Session → Session) (rows : List Session)
    → ((s : Session) → (f s).id ≡ s.id)
    → select (has_id id) (update_sessions (has_id id) f rows)
      ≡ map (λ s. if has_id id s then f s else s) (select (has_id id) rows)
unfolding update_sessions
select_updated id f rows same =
    select-map (has_id id) (λ s. if has_id id s then f s else s) rows (λ s. same_test s)
  where
    same_test : (s : Session) → has_id id (if has_id id s then f s else s) ≡ has_id id s
    same_test s = elim (Bool-cases (has_id id s)) [
      | inl e ↦ rw e (ap (λ (i : String). i == id) (same s) ∙ e)
      | inr n ↦ rw n n
    ]

is_consistent_first :
    (id : String) (t : Tables) (s : Session) (rest : List Session)
    → select (has_id id) t.sessions ≡ s ∷ rest
    → is_consistent id (sound t)
      ≡ (ok (eqb_ℤ s.last_sequence (or_zero (last_sequence_of id t))), sound t)
unfolding is_consistent load_last_event_sequence
is_consistent_first id t s rest e = rw e refl

consistent_after :
    (id : String) (t t' : Tables) (f : Session → Session) (s : Session) (rest : List Session)
    → t'.sessions ≡ update_sessions (has_id id) f t.sessions
    → ((x : Session) → (f x).id ≡ x.id)
    → select (has_id id) t.sessions ≡ s ∷ rest
    → (f s).last_sequence ≡ or_zero (last_sequence_of id t')
    → (is_consistent id (sound t')).0 ≡ ok true
consistent_after id t t' f s rest sessions same e last =
    let own =
      (first_of_select (λ x. Unit {0}) (has_id id) t.sessions (All-intro _ t.sessions (λ x. tt))
        e).1 in
    let found : select (has_id id) t'.sessions
        ≡ f s ∷ map (λ x. if has_id id x then f x else x) rest =
      rw sessions (select_updated id f t.sessions same ∙ rw e (rw own refl)) in
    rw (is_consistent_first id t' (f s) (map (λ x. if has_id id x then f x else x) rest) found)
      (rw last (rw (eqb_ℤ-refl (or_zero (last_sequence_of id t'))) refl))

any_of_none : (p : Session → Bool) (rows : List Session) → select p rows ≡ [] → any p rows ≡ false
unfolding any
any_of_none p [] e = refl
any_of_none p (s ∷ rest) e = elim (Bool-cases (p s)) [
  | inl y ↦ absurd (let f : s ∷ select p rest ≡ [] = rw y at e in cc)
  | inr n ↦ rw n (any_of_none p rest (let f : select p rest ≡ [] = rw n at e in f))
]

append_consistent :
    (db_now : ℕ) (e : Event) (t : Tables) (seq : ℤ) (payload : String)
    → has_session e.session_id t.sessions ≡ true
    → last_sequence_of e.session_id (appended db_now e seq payload t) ≡ some seq
    → (is_consistent e.session_id (sound (appended db_now e seq payload t))).0 ≡ ok true
append_consistent db_now e t seq payload known last =
    elim (List-cases (select (has_id e.session_id) t.sessions)) [
      | inl missing ↦ let f = any_of_none (has_id e.session_id) t.sessions missing in absurd (cc)
      | inr (s, rest, found) ↦
          consistent_after e.session_id t (appended db_now e seq payload t) (advance db_now seq) s
            rest refl (λ x. refl) found (sym (ap or_zero last))
    ]

-- Under the conditions of the append (the driver does not fail, the session is known, the event has a
-- payload text and a new message id, the last sequence is below the largest int64, the session's sequences
-- are distinct), `IsConsistent` is true of the session after `AppendWithoutTx`.
pub is_consistent-append_without_tx :
    (db_now : ℕ) (e : Event) {payload : String} (t : Tables)
    → e.payload ≡ some payload
    → has_session e.session_id t.sessions ≡ true
    → any (λ r. r.message_id == e.message_id) t.events ≡ false
    → or_zero (last_sequence_of e.session_id t) <ℤ pos max_int64
    → Distinct (select (of_session e.session_id) t.events)
    → (is_consistent e.session_id (append_without_tx db_now e (sound t)).1).0 ≡ ok true
is_consistent-append_without_tx db_now e {payload} t hp hs hm room d =
    let run = append_without_tx_lem db_now e {payload = payload} t hp hs hm room d in
    rw run.0 (
      append_consistent db_now e t (next_sequence (last_sequence_of e.session_id t)) payload hs
        run.2)
