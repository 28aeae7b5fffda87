-- ===== src/Storage/Outcome.antt =====
-- What `AppendWithoutTx` leaves of the tables, whichever statements fail.
use codeallremote.Prelude.{
  ℕ, ◌+◌, ◌++◌, Option-cases, inl, inr, String, Bool, true, false, some, List, [], ◌∷◌, ◌≡◌, refl,
  ap, ◌∙◌, arith,
}
use codeallremote.Prelude.Int.{ℤ}
use codeallremote.Prelude.Result.{Result, ok, err}
use codeallremote.Domain.{Event}
use codeallremote.Storage.Database.{
  Db, SqlError, Tables, Action, Does, settle, bind_rest, query, exec, next_fault, run_unless,
  statement, with_transaction, with_transaction_atomic, commit, end_transaction, within,
}
use codeallremote.Storage.Events.{
  admits, insert_event, last_sequence_of, event_row, append as append_event,
}
use codeallremote.Storage.Sessions.{has_id, update_sessions}
use codeallremote.Storage.Cursor.{append, next_sequence, advance, append_without_tx}
use codeallremote.Storage.Append.{appended}

-- The tables that a statement leaves.
abbrev pub tables_after : {A : Type 0} → Tables → Result SqlError (A × Tables) → Tables
tables_after t (ok (a, t')) = t'
tables_after t (err e) = t

settle-kept :
    {A : Type 0} (P : Tables → Type 0) (t : Tables) (fs : List Bool)
    (r : Result SqlError (A × Tables))
    → P t
    → P (tables_after t r)
    → P (settle t fs r).1.tables
settle-kept P t fs (ok (a, t')) same done = done
settle-kept P t fs (err e) same done = same

run_unless-kept :
    {A : Type 0} (f : Tables → Result SqlError (A × Tables)) (P : Tables → Type 0) (t : Tables)
    (fault : Bool) (fs : List Bool)
    → P t
    → P (tables_after t (f t))
    → P (run_unless fault fs f t).1.tables
run_unless-kept f P t true fs same done = same
run_unless-kept f P t false fs same done = settle-kept P t fs (f t) same done

-- What holds of the tables, and of those that its effect gives, holds after a statement.
pub statement-kept :
    {A : Type 0} (f : Tables → Result SqlError (A × Tables)) (P : Tables → Type 0) (db : Db)
    → P db.tables
    → P (tables_after db.tables (f db.tables))
    → P (statement f db).1.tables
unfolding statement
statement-kept f P db same done =
    run_unless-kept f P db.tables (next_fault db.faults).0 (next_fault db.faults).1 same done

-- A call that succeeds in a `do` block, and the rest of the block.
pub bind-ok :
    {E A B : Type 0} (f : A → Does E B) (q : Result E A × Db) {b : B}
    → (bind_rest f q).0 ≡ ok b
    → (a : A) × (q.0 ≡ ok a) × ((f a q.1).0 ≡ ok b) × ((bind_rest f q).1 ≡ (f a q.1).1)
bind-ok f (ok a, db) h = (a, refl, h, refl)
bind-ok f (err e, db) h = cc

settle-ok :
    {A : Type 0} (t : Tables) (fs : List Bool) (r : Result SqlError (A × Tables)) {a : A}
    → (settle t fs r).0 ≡ ok a
    → r ≡ ok (a, (settle t fs r).1.tables)
settle-ok t fs (ok (a, t')) h = cc
settle-ok t fs (err e) h = cc

run_unless-ok :
    {A : Type 0} (f : Tables → Result SqlError (A × Tables)) (t : Tables) (fault : Bool)
    (fs : List Bool) {a : A}
    → (run_unless fault fs f t).0 ≡ ok a
    → f t ≡ ok (a, (run_unless fault fs f t).1.tables)
run_unless-ok f t true fs h = cc
run_unless-ok f t false fs h = settle-ok t fs (f t) h

-- A statement that succeeds has its effect.
pub statement-ok :
    {A : Type 0} (f : Tables → Result SqlError (A × Tables)) (db : Db) {a : A}
    → (statement f db).0 ≡ ok a
    → f db.tables ≡ ok (a, (statement f db).1.tables)
unfolding statement
statement-ok f db h = run_unless-ok f db.tables (next_fault db.faults).0 (next_fault db.faults).1 h

commit-ok :
    {A : Type 0} (fault : Bool) (fs : List Bool) (a : A) (before after : Tables) {b : A}
    → (commit fault fs a before after).0 ≡ ok b
    → (◌≡◌ {A = Result SqlError A} (ok a) (ok b))
      × ((commit fault fs a before after).1.tables ≡ after)
commit-ok true fs a before after h = ground arith
commit-ok false fs a before after h = ground arith

end_transaction-ok :
    {A : Type 0} (t : Tables) (r : Result SqlError A) (db : Db) {b : A}
    → (end_transaction t r db).0 ≡ ok b
    → (r ≡ ok b) × ((end_transaction t r db).1.tables ≡ db.tables)
end_transaction-ok t (err e) db h = ground arith
end_transaction-ok t (ok a) db h =
    commit-ok (next_fault db.faults).0 (next_fault db.faults).1 a t db.tables h

within-ok :
    {A : Type 0} (fault : Bool) (fn : Action A) (db : Db) {a : A}
    → (within fault fn db).0 ≡ ok a
    → ((fn db).0 ≡ ok a) × ((within fault fn db).1.tables ≡ (fn db).1.tables)
within-ok true fn db h = cc
within-ok false fn db h = end_transaction-ok db.tables (fn db).0 (fn db).1 h

-- A transaction that succeeds leaves what its statements leave.
pub with_transaction-ok :
    {A : Type 0} (fn : Action A) (db : Db) {a : A}
    → (with_transaction fn db).0 ≡ ok a
    → let db' = record db { faults = (next_fault db.faults).1 } in
      ((fn db').0 ≡ ok a) × ((with_transaction fn db).1.tables ≡ (fn db').1.tables)
unfolding with_transaction
with_transaction-ok fn db h =
    within-ok (next_fault db.faults).0 fn (record db { faults = (next_fault db.faults).1 }) h

insert_event-ok :
    (e : Event) (payload : String) (t : Tables) {seq : ℤ} {t' : Tables}
    → insert_event e payload t ≡ ok (seq, t')
    → t' ≡ record t {
      events = t.events ++ event_row t.next_event_id e payload ∷ [];
      next_event_id = t.next_event_id + 1;
    }
unfolding insert_event
insert_event-ok e payload t h = ground arith

append_event-ok :
    (e : Event) (db : Db) {seq : ℤ}
    → (append_event e db).0 ≡ ok seq
    → (payload : String) × (e.payload ≡ some payload)
      × ((append_event e db).1.tables ≡ record db.tables {
        events = db.tables.events ++ event_row db.tables.next_event_id e payload ∷ [];
        next_event_id = db.tables.next_event_id + 1;
      })
unfolding append_event admits
append_event-ok e db {seq} h = elim (Option-cases e.payload) [
  | inl o ↦
      absurd (let f : ◌≡◌ {A = Result SqlError ℤ} (err SqlError.marshal) (ok seq) = rw o at h in cc)
  | inr (payload, o) ↦
      let f : (statement (insert_event e payload) db).0 ≡ ok seq = rw o at h in
      (
        payload,
        o,
        rw o (insert_event-ok e payload db.tables (statement-ok (insert_event e payload) db f)),
      )
]

query-ok :
    {A : Type 0} (f : Tables → A) (db : Db) {a : A}
    → (query f db).0 ≡ ok a
    → (a ≡ f db.tables) × ((query f db).1.tables ≡ db.tables)
query-ok f db h = let e = statement-ok (λ t. ok (f t, t)) db h in (cc, cc)

exec-ok :
    (f : Tables → Tables) (db : Db) → (exec f db).0 ≡ ok tt → (exec f db).1.tables ≡ f db.tables
exec-ok f db h = let e = statement-ok (λ t. ok (tt, f t)) db h in cc

append-ok :
    (db_now : ℕ) (e : Event) (db : Db) {seq : ℤ}
    → (append db_now e db).0 ≡ ok seq
    → (payload : String) × (e.payload ≡ some payload)
      × ((append db_now e db).1.tables ≡ appended db_now e seq payload db.tables)
unfolding append
append-ok db_now e db {seq} h =
    let (found, q1, h1, e1) = bind-ok _ (query (last_sequence_of e.session_id) db) h in
    let db1 = (query (last_sequence_of e.session_id) db).1 in
    let next = next_sequence found in
    let e' = record e { sequence = next } in
    let (same, kept) = query-ok (last_sequence_of e.session_id) db q1 in
    let (n, q2, h2, e2) = bind-ok _ (append_event e' db1) h1 in
    let (payload, hp, inserted) = append_event-ok e' db1 q2 in
    let db2 = (append_event e' db1).1 in
    let set = λ (t : Tables). record t {
      sessions = update_sessions (has_id e.session_id) (advance db_now next) t.sessions;
    } in
    let (u, q3, h3, e3) = bind-ok _ (exec set db2) h2 in
    let done : (exec set db2).1.tables ≡ set db2.tables = exec-ok set db2 q3 in
    let result : next ≡ seq = cc in
    let last : (append db_now e db).1.tables ≡ set db2.tables =
      ap (λ (d : Db). d.tables) (e1 ∙ e2 ∙ e3) ∙ done in
    (
      payload,
      hp,
      last
          ∙ ap set inserted
          ∙ ap (λ (t : Tables). appended db_now e next payload t) kept
          ∙ ap (λ (m : ℤ). appended db_now e m payload db.tables) result,
    )

-- Where `AppendWithoutTx` succeeds, whatever the schedule of faults, the event has a payload text, and the
-- tables are those with its row, its sequence in the session's row, and the next number of a row.
pub append_without_tx-ok :
    (db_now : ℕ) (e : Event) (db : Db) {seq : ℤ}
    → (append_without_tx db_now e db).0 ≡ ok seq
    → (payload : String) × (e.payload ≡ some payload)
      × ((append_without_tx db_now e db).1.tables ≡ appended db_now e seq payload db.tables)
unfolding append_without_tx
append_without_tx-ok db_now e db h =
    let db' = record db { faults = (next_fault db.faults).1 } in
    let (done, same) = with_transaction-ok (append db_now e) db h in
    let (payload, hp, tables) = append-ok db_now e db' done in (payload, hp, same ∙ tables)

-- Where it fails, the tables are as they were.
pub append_without_tx-err :
    (db_now : ℕ) (e : Event) (db : Db) {x : SqlError}
    → (append_without_tx db_now e db).0 ≡ err x
    → (append_without_tx db_now e db).1.tables ≡ db.tables
unfolding append_without_tx
append_without_tx-err db_now e db h = with_transaction_atomic (append db_now e) db h
