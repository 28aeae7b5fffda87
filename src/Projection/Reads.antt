-- ===== src/Projection/Reads.antt =====
-- The snapshots only read: whatever fails, the tables stay as they are.
use codeallremote.Prelude.{
  String, Bool, true, false, Option, none, some, List, [], ◌∷◌, ◌≡◌, refl, ◌∙◌, ◌==◌, string_eq,
  select, Bool-cases, inl, inr,
}
use codeallremote.Prelude.Int.{ℤ}
use codeallremote.Prelude.Result.{Result, ok, err}
use codeallremote.Domain.{Session}
use codeallremote.Storage.Database.{
  Tables, SqlError, Db, Action, ◌>>=◌, bind_rest, statement, next_fault, run_unless, settle, within,
  end_transaction, commit, with_transaction,
}
use codeallremote.Storage.Sessions.{first_row, has_id, is_active_of, run_newest_first}
use codeallremote.Storage.Sort.{sort_by}
use codeallremote.Projection.Snapshot.{
  get_snapshot, read_snapshot, reconstruct, read_reconstructed, load_session, load_active_run,
  load_approval, load_last_event_sequence, load_pending, load_rest, optional, row_or_none,
  verified_sequence,
}

abbrev pub ReadsOnly : {A : Type 0} → Action A → Type 0
ReadsOnly m = (db : Db) → (m db).1.tables ≡ db.tables

bind_rest-reads :
    {A B : Type 0} (f : A → Action B) (r : Result SqlError A) (db : Db)
    → ((a : A) → ReadsOnly (f a))
    → (bind_rest f (r, db)).1.tables ≡ db.tables
bind_rest-reads f (ok a) db h = h a db
bind_rest-reads f (err e) db h = refl

bind-reads :
    {A B : Type 0} (m : Action A) (f : A → Action B)
    → ReadsOnly m
    → ((a : A) → ReadsOnly (f a))
    → ReadsOnly (m >>= f)
bind-reads m f h k db = bind_rest-reads f (m db).0 (m db).1 k ∙ h db

-- A statement whose function on the tables changes nothing.
abbrev Keeps : {A : Type 0} → Result SqlError (A × Tables) → Tables → Type 0
Keeps (ok (a, t')) t = t' ≡ t
Keeps (err e) t = Unit

settle-reads :
    {A : Type 0} (t : Tables) (fs : List Bool) (r : Result SqlError (A × Tables))
    → Keeps r t
    → (settle t fs r).1.tables ≡ t
settle-reads t fs (ok (a, t')) h = h
settle-reads t fs (err e) h = refl

run_unless-reads :
    {A : Type 0} (fault : Bool) (fs : List Bool) (f : Tables → Result SqlError (A × Tables))
    (t : Tables)
    → Keeps (f t) t
    → (run_unless fault fs f t).1.tables ≡ t
run_unless-reads true fs f t h = refl
run_unless-reads false fs f t h = settle-reads t fs (f t) h

statement-reads :
    {A : Type 0} (f : Tables → Result SqlError (A × Tables))
    → ((t : Tables) → Keeps (f t) t)
    → ReadsOnly (statement f)
unfolding statement
statement-reads f h db =
    run_unless-reads (next_fault db.faults).0 (next_fault db.faults).1 f db.tables (h db.tables)

first_row-Keeps : {A : Type 0} (rows : List A) (t : Tables) → Keeps (first_row rows t) t
first_row-Keeps [] t = tt
first_row-Keeps (a ∷ rows) t = refl

row_or_none-reads : {A : Type 0} (r : Result SqlError A) → ReadsOnly (row_or_none r)
row_or_none-reads (ok a) db = refl
row_or_none-reads (err SqlError.no_rows) db = refl
row_or_none-reads (err SqlError.driver) db = refl
row_or_none-reads (err SqlError.constraint) db = refl
row_or_none-reads (err SqlError.no_such_column) db = refl
row_or_none-reads (err SqlError.marshal) db = refl
row_or_none-reads (err SqlError.rollback_failed) db = refl

optional-reads : {A : Type 0} (m : Action A) → ReadsOnly m → ReadsOnly (optional m)
optional-reads m h db = row_or_none-reads (m db).0 (m db).1 ∙ h db

load_session-reads : (id : String) → ReadsOnly (load_session id)
unfolding load_session
load_session-reads id =
    statement-reads (λ t. first_row (select (has_id id) t.sessions) t)
      (λ t. first_row-Keeps (select (has_id id) t.sessions) t)

load_active_run-reads : (id : String) → ReadsOnly (load_active_run id)
unfolding load_active_run
load_active_run-reads id =
    statement-reads (λ t. first_row (sort_by run_newest_first (select (is_active_of id) t.runs)) t)
      (λ t. first_row-Keeps (sort_by run_newest_first (select (is_active_of id) t.runs)) t)

load_approval-reads : (id : String) → ReadsOnly (load_approval id)
unfolding load_approval
load_approval-reads id =
    statement-reads (λ t. first_row (select (λ a. a.id == id) t.approvals) t)
      (λ t. first_row-Keeps (select (λ a. a.id == id) t.approvals) t)

load_last_event_sequence-reads : (id : String) → ReadsOnly (load_last_event_sequence id)
unfolding load_last_event_sequence
load_last_event_sequence-reads id = statement-reads _ (λ t. refl)

load_pending-reads : (o : Option String) → ReadsOnly (load_pending o)
load_pending-reads none = λ db. refl
load_pending-reads (some id) = elim (Bool-cases (id == "")) [
  | inl e ↦ rw e (λ db. refl)
  | inr n ↦ rw n (optional-reads (load_approval id) (load_approval-reads id))
]

load_rest-reads : (s : Session) (last : ℤ) → ReadsOnly (load_rest s last)
load_rest-reads s last =
    bind-reads (optional (load_active_run s.id)) _
      (optional-reads (load_active_run s.id) (load_active_run-reads s.id))
      (λ run.
        bind-reads (load_pending s.pending_approval) _ (load_pending-reads s.pending_approval)
          (λ a db. refl))

end_transaction-reads :
    {A : Type 0} (t : Tables) (r : Result SqlError A) (db : Db)
    → db.tables ≡ t
    → (end_transaction t r db).1.tables ≡ t
end_transaction-reads t (err e) db h = refl
end_transaction-reads t (ok a) db h = go (next_fault db.faults).0
  where
    go : (fault : Bool) → (commit fault (next_fault db.faults).1 a t db.tables).1.tables ≡ t
    go true = refl
    go false = h

within-reads : {A : Type 0} (fault : Bool) (m : Action A) → ReadsOnly m → ReadsOnly (within fault m)
within-reads true m h db = refl
within-reads false m h db = end_transaction-reads db.tables (m db).0 (m db).1 (h db)

with_transaction-reads : {A : Type 0} (m : Action A) → ReadsOnly m → ReadsOnly (with_transaction m)
unfolding with_transaction
with_transaction-reads m h db =
    within-reads (next_fault db.faults).0 m h (record db { faults = (next_fault db.faults).1 })

-- However the driver fails, `GetSnapshot` and `Reconstruct` leave the tables as they were.
snapshots_read_only :
    (id : String) (db : Db)
    → ((get_snapshot id db).1.tables ≡ db.tables) × ((reconstruct id db).1.tables ≡ db.tables)
unfolding get_snapshot reconstruct read_snapshot read_reconstructed
snapshots_read_only id db = (
  with_transaction-reads (read_snapshot id)
      (bind-reads (load_session id) _ (load_session-reads id)
        (λ s. load_rest-reads s s.last_sequence))
      db,
  with_transaction-reads (read_reconstructed id)
      (bind-reads (load_session id) _ (load_session-reads id) (λ s.
        bind-reads (load_last_event_sequence id) _ (load_last_event_sequence-reads id)
          (λ last. load_rest-reads s (verified_sequence last s.last_sequence))))
      db,
)
