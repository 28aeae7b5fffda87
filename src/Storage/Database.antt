-- ===== src/Storage/Database.antt =====
-- The tables of internal/storage/migrations.go, and how internal/storage/storage.go runs statements and
-- transactions on them. The database itself is not code of the repository: a statement is the function
-- on tables that its SQL text states, and whether the driver fails is a schedule that the environment
-- chooses, one entry for each statement to come.
use codeallremote.Prelude.{ℕ, String, Bool, true, false, List, [], ◌∷◌, ◌≡◌, refl, arith}
use codeallremote.Prelude.Int.{ℤ}
use codeallremote.Prelude.Result.{Result, ok, err}
use codeallremote.Domain.{Session, Run, Approval, Device, AuditEntry}

-- Table `events`.
pub record EventRow : Type 0 where
  pub id : ℕ
  pub session_id : String
  pub sequence : ℤ
  pub event_type : String
  pub message_id : String
  pub schema_version : ℤ
  pub payload : String
  pub occurred_at : ℕ

-- Table `workspaces`: lists and policies are JSON texts.
pub record WorkspaceRow : Type 0 where
  pub id : String
  pub display_name : String
  pub path : String
  pub allowed_adapters : String
  pub execution_policy : String
  pub created_at : ℕ
  pub updated_at : ℕ

-- Table `access_tokens`, with the fields of `AccessToken` of internal/identity/service.go.
pub record AccessToken : Type 0 where
  pub value : String
  pub device_id : String
  pub issued_at : ℕ
  pub expires_at : ℕ

-- The tables that the modelled code touches. `next_event_id` and `next_audit_id` are the
-- `AUTOINCREMENT` of `events` and `audit_log`.
pub record Tables : Type 0 where
  pub sessions : List Session
  pub runs : List Run
  pub events : List EventRow
  pub approvals : List Approval
  pub devices : List Device
  pub access_tokens : List AccessToken
  pub next_event_id : ℕ
  pub workspaces : List WorkspaceRow
  pub audit_log : List AuditEntry
  pub next_audit_id : ℕ

-- Why a statement fails: the driver, an empty result where `Scan` wants a row, a constraint, a column
-- that the table does not have, a value with no JSON text; and a rollback that fails in its turn.
pub data SqlError : Type 0 where
  driver no_rows constraint no_such_column marshal rollback_failed : SqlError

-- `DB`: the tables, and for each statement to come whether the driver fails. Past the end of the
-- schedule it does not.
pub record Db : Type 0 where
  pub tables : Tables
  pub faults : List Bool

-- A database whose driver does not fail.
abbrev pub sound : Tables → Db
sound t = record { tables = t; faults = [] }

-- A method that works on the database and may return an error of type `E`.
abbrev pub Does : Type 0 → Type 0 → Type 0
Does E A = Db → Result E A × Db

abbrev pub Action : Type 0 → Type 0
Action A = Does SqlError A

abbrev pub pure : {E A : Type 0} → A → Does E A
pure a db = (ok a, db)

abbrev pub fail : {E A : Type 0} → E → Does E A
fail e db = (err e, db)

abbrev pub bind_rest : {E A B : Type 0} → (A → Does E B) → Result E A × Db → Result E B × Db
bind_rest f (ok a, db) = f a db
bind_rest f (err e, db) = (err e, db)

infixl 5 ◌>>=◌ ◌>>◌
abbrev pub ◌>>=◌ : {E A B : Type 0} → Does E A → (A → Does E B) → Does E B
◌>>=◌ m f db = bind_rest f (m db)

abbrev pub ◌>>◌ : {E A B : Type 0} → Does E A → Does E B → Does E B
m >> k = m >>= λ _. k

-- A call whose error the code looks at and does not return.
abbrev pub attempt : {E F A : Type 0} → Does E A → Does F (Result E A)
attempt m db = let (r, db') = m db in (ok r, db')

-- A call whose error becomes another.
abbrev pub or_error : {E F A : Type 0} → (E → F) → Result E A → Result F A
or_error f (ok a) = ok a
or_error f (err e) = err (f e)

abbrev pub with_error : {E F A : Type 0} → (E → F) → Does E A → Does F A
with_error f m db = let (r, db') = m db in (or_error f r, db')

-- The entry of the schedule for this statement, and the schedule of the rest.
abbrev pub next_fault : List Bool → Bool × List Bool
next_fault [] = (false, [])
next_fault (f ∷ fs) = (f, fs)

-- What a statement leaves: its effect, or the tables as they were if it fails.
abbrev pub settle :
    {A : Type 0} → Tables → List Bool → Result SqlError (A × Tables) → Result SqlError A × Db
settle t fs (ok (a, t')) = (ok a, record { tables = t'; faults = fs })
settle t fs (err e) = (err e, record { tables = t; faults = fs })

abbrev pub run_unless :
    {A : Type 0}
    → Bool
    → List Bool
    → (Tables → Result SqlError (A × Tables))
    → Tables
    → Result SqlError A × Db
run_unless true fs f t = (err driver, record { tables = t; faults = fs })
run_unless false fs f t = settle t fs (f t)

-- `Exec`, `Query` or `QueryRow`: one statement.
unfoldable pub statement : {A : Type 0} → (Tables → Result SqlError (A × Tables)) → Action A
statement f db = let (fault, fs) = next_fault db.faults in run_unless fault fs f db.tables

-- A statement that only reads, and one that always succeeds if the driver does.
abbrev pub query : {A : Type 0} → (Tables → A) → Action A
query f = statement (λ t. ok (f t, t))

abbrev pub exec : (Tables → Tables) → Action (Unit {0})
exec f = statement (λ t. ok (tt, f t))

-- The end of a transaction: `Rollback` on an error, else `Commit`. That nothing of the transaction is kept
-- where the driver fails to commit or to roll back is not the work of `WithTransaction`: SQLite drops what is
-- not committed when the connection or its journal is recovered.
abbrev pub rollback_error : Bool → SqlError → SqlError
rollback_error true e = rollback_failed
rollback_error false e = e

abbrev pub commit : {A : Type 0} → Bool → List Bool → A → Tables → Tables → Result SqlError A × Db
commit true fs a before after = (err driver, record { tables = before; faults = fs })
commit false fs a before after = (ok a, record { tables = after; faults = fs })

abbrev pub end_transaction : {A : Type 0} → Tables → Result SqlError A → Db → Result SqlError A × Db
end_transaction t (err e) db =
    let (fault, fs) = next_fault db.faults in
    (err (rollback_error fault e), record { tables = t; faults = fs })
end_transaction t (ok a) db =
    let (fault, fs) = next_fault db.faults in commit fault fs a t db.tables

abbrev pub within : {A : Type 0} → Bool → Action A → Db → Result SqlError A × Db
within true fn db = (err driver, db)
within false fn db = let (r, db') = fn db in end_transaction db.tables r db'

-- `WithTransaction`
unfoldable pub with_transaction : {A : Type 0} → Action A → Action A
with_transaction fn db =
    let (fault, fs) = next_fault db.faults in within fault fn (record db { faults = fs })

end_transaction-err :
    {A : Type 0} (t : Tables) (r : Result SqlError A) (db : Db) {e : SqlError}
    → (end_transaction t r db).0 ≡ err e
    → (end_transaction t r db).1.tables ≡ t
end_transaction-err t (err e) db h = refl
end_transaction-err t (ok a) db h = ground arith

within-err :
    {A : Type 0} (fault : Bool) (fn : Action A) (db : Db) {e : SqlError}
    → (within fault fn db).0 ≡ err e
    → (within fault fn db).1.tables ≡ db.tables
within-err true fn db h = refl
within-err false fn db h = end_transaction-err db.tables (fn db).0 (fn db).1 h

-- A transaction that returns an error leaves the tables as they were, whatever it ran and wherever it
-- failed, at its beginning, in a statement, or when it was committed.
pub with_transaction_atomic :
    {A : Type 0} (fn : Action A) (db : Db) {e : SqlError}
    → (with_transaction fn db).0 ≡ err e
    → (with_transaction fn db).1.tables ≡ db.tables
unfolding with_transaction
with_transaction_atomic fn db h =
    within-err (next_fault db.faults).0 fn (record db { faults = (next_fault db.faults).1 }) h
