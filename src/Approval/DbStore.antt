-- ===== src/Approval/DbStore.antt =====
-- `DBStore` of internal/approval/store.go: approvals in the database. The texts that `encoding/json` makes
-- of a Go string and reads back, and the texts of the driver's errors, are parameters.
use codeallremote.Prelude.{
  String, Bool, Option, none, some, List, [], ◌∷◌, ◌++◌, ◌||◌, not, if◌then◌else◌, ◌==◌, string_eq,
  leb, select, any, map,
}
use codeallremote.Prelude.Result.{Result, ok, err}
use codeallremote.Domain.{Approval}
use codeallremote.Storage.Database.{Tables, SqlError, Db, statement, query, exec}
use codeallremote.Storage.Sort.{sort_by}
use codeallremote.Storage.Sessions.{first_row, has_id}
use codeallremote.Approval.Store.{ApprovalStore, is_pending_of}

-- `json.Marshal` and `json.Unmarshal` at the type `string`, and `Error` of what the driver returns.
pub record Codec : Type 0 where
  pub marshal : String → String
  pub unmarshal : String → Result String String
  pub describe : SqlError → String

abbrev pub has_approval_id : String → Approval → Bool
has_approval_id id a = a.id == id

-- The columns of `INSERT INTO approvals`; the others are null.
abbrev pub approval_row : String → Approval → Approval
approval_row payload a = record a {
  structured_payload = payload;
  decided_at = none;
  decision_reason = none;
}

-- `INSERT INTO approvals`, with the primary key and the reference to the session.
abbrev pub insert_approval : String → Approval → Tables → Result SqlError (Unit {0} × Tables)
insert_approval payload a t =
    if any (has_approval_id a.id) t.approvals || not (any (has_id a.session_id) t.sessions)
    then err SqlError.constraint
    else ok (tt, record t { approvals = t.approvals ++ approval_row payload a ∷ [] })

-- The columns that `UPDATE approvals` sets: not `expires_at`.
abbrev pub update_row : Approval → Approval → Approval
update_row a row =
    if row.id == a.id
    then record row {
      state = a.state;
      decided_at = a.decided_at;
      decision_reason = a.decision_reason;
    }
    else row

abbrev pub oldest_first : Approval → Approval → Bool
oldest_first a b = leb a.created_at b.created_at

module _ (codec : Codec) where
  abbrev pub error_text : Result SqlError (Unit {0}) → Option String
  error_text (ok u) = none
  error_text (err e) = some (codec.describe e)

  -- `DBStore.Create`
  unfoldable pub db_create : Approval → Db → Db × Option String
  unfolding statement
  db_create a db =
      let (r, db') = statement (insert_approval (codec.marshal a.structured_payload) a) db in
      (db', error_text r)

  -- The end of `scanApproval`: the payload is read back.
  abbrev pub with_payload : Approval → Result String String → Result String Approval
  with_payload row (err e) = err e
  with_payload row (ok text) = ok (record row { structured_payload = text })

  -- `scanApproval`
  abbrev pub scan_approval : Result SqlError Approval → Result String Approval
  scan_approval (ok row) = with_payload row (codec.unmarshal row.structured_payload)
  scan_approval (err SqlError.no_rows) = err "approval not found"
  scan_approval (err e) = err (codec.describe e)

  -- `DBStore.GetByID`
  unfoldable pub db_get_by_id : String → Db → Db × Result String Approval
  unfolding statement
  db_get_by_id id db =
      let (r, db') = statement (λ t. first_row (select (has_approval_id id) t.approvals) t) db in
      (db', scan_approval r)

  -- `DBStore.Update`
  unfoldable pub db_update : Approval → Db → Db × Option String
  unfolding statement
  db_update a db =
      let (r, db') = exec (λ t. record t { approvals = map (update_row a) t.approvals }) db in
      (db', error_text r)

  -- `DBStore.Delete`
  unfoldable pub db_delete : String → Db → Db × Option String
  unfolding statement
  db_delete id db =
      let (r, db') =
        exec (λ t. record t { approvals = select (λ a. not (has_approval_id id a)) t.approvals })
          db in
      (db', error_text r)

  abbrev pub prepend :
      Result String Approval → Result String (List Approval) → Result String (List Approval)
  prepend (err e) rest = err e
  prepend (ok a) (err e) = err e
  prepend (ok a) (ok rest) = ok (a ∷ rest)

  -- `scanApprovals`: the first row that cannot be read ends the loop.
  unfoldable pub scan_approvals : List Approval → Result String (List Approval)
  scan_approvals [] = ok []
  scan_approvals (row ∷ rows) = prepend (scan_approval (ok row)) (scan_approvals rows)

  abbrev pub scan_found : Result SqlError (List Approval) → Result String (List Approval)
  scan_found (ok rows) = scan_approvals rows
  scan_found (err e) = err (codec.describe e)

  -- `DBStore.GetPendingBySession`
  unfoldable pub db_pending_by_session : String → Db → Db × Result String (List Approval)
  unfolding statement
  db_pending_by_session session_id db =
      let (r, db') =
        query (λ t. sort_by oldest_first (select (is_pending_of session_id) t.approvals)) db in
      (db', scan_found r)

  -- `DBStore` as the bridge's store.
  abbrev pub db_store : ApprovalStore Db
  db_store = record { create = db_create; get_by_id = db_get_by_id; update = db_update }
