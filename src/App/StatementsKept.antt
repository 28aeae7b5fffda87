-- ===== src/App/StatementsKept.antt =====
-- The statements of the service keep an invariant that `IsKept` describes.
use codeallremote.Prelude.{
  ℕ, String, true, Option, none, some, List, [], ◌∷◌, ◌≡◌, any, ◌||◌, not, Bool-cases, inl, inr,
  ◌==◌, string_eq, select,
}
use codeallremote.Prelude.Int.{ℤ}
use codeallremote.Prelude.Dict.{lookup}
use codeallremote.Domain.{Session, Run, Event, Workspace}
use codeallremote.Storage.Database.{Db, Tables, statement}
use codeallremote.Storage.Sessions.{
  has_id, first_row, insert_session, insert_run, update_state, create_session, get_by_id,
  get_active_run, create_run, set_pending_approval, update_run_state,
}
use codeallremote.Storage.Workspaces.{get_workspace}
use codeallremote.Storage.Outcome.{tables_after, statement-kept}
use codeallremote.Session.Machine.{can_transition}
use codeallremote.Workspace.Registry
use codeallremote.Audit.Redaction.{Fields}
use codeallremote.Audit.Writer.{Entry, record_entry, write_entry}
use codeallremote.App.State.{App, Outside, Clock, on_db, with_error, record_audit}
use codeallremote.App.Service.{workspace_by_id}
use codeallremote.App.Kept.{IsKept, AllowsMoves, Holds, Keeps, on_db-kept}

pub first_row-same :
    {A : Type 0} (P : Tables → Type 0) (l : List A) (t : Tables)
    → P t
    → P (tables_after t (first_row l t))
first_row-same P [] t h = h
first_row-same P (a ∷ rest) t h = h

module _ (P : Tables → List Event → Type 0) where
  -- A read of one row.
  pub read_one-kept :
      {A : Type 0} (f : Tables → List A) → Keeps P (on_db (statement (λ t. first_row (f t) t)))
  read_one-kept f =
      on_db-kept P (λ t. first_row (f t) t) (λ t ps h. first_row-same (λ t'. P t' ps) (f t) t h)

  pub get_by_id-kept : (id : String) → Keeps P (on_db (get_by_id id))
  unfolding get_by_id
  get_by_id-kept id = read_one-kept (λ t. select (has_id id) t.sessions)

  pub get_active_run-kept : (id : String) → Keeps P (on_db (get_active_run id))
  unfolding get_active_run
  get_active_run-kept id = read_one-kept _

module _ (P : Tables → List Event → Type 0) (moves : AllowsMoves P) where
  pub update_state-kept :
      (now : ℕ) (id to from : String)
      → can_transition from to ≡ true
      → Keeps P (on_db (update_state now id to (some from)))
  unfolding update_state
  update_state-kept now id to from h =
      on_db-kept P _ (λ t ps p. moves.state_moved t ps now id from to h p)

module _ (P : Tables → List Event → Type 0) (kept : IsKept P) where
  pub set_pending_approval-kept :
      (now : ℕ) (id : String) (a : Option String) → Keeps P (on_db (set_pending_approval now id a))
  unfolding set_pending_approval
  set_pending_approval-kept now id a = on_db-kept P _ (λ t ps p. kept.pending_set t ps now id a p)

  insert_session-kept :
      (s : Session) (t : Tables) (ps : List Event)
      → P t ps
      → P (tables_after t (insert_session s t)) ps
  insert_session-kept s t ps p = elim (Bool-cases (any (has_id s.id) t.sessions)) [
    | inl e ↦ rw e p
    | inr n ↦ elim (Bool-cases (any (λ w. w.id == s.workspace_id) t.workspaces)) [
      | inl w ↦ rw n (rw w (kept.session_added t ps _ n p))
      | inr w ↦ rw n (rw w p)
    ]
  ]

  insert_run-kept :
      (r : Run) (t : Tables) (ps : List Event) → P t ps → P (tables_after t (insert_run r t)) ps
  insert_run-kept r t ps p =
      elim (Bool-cases
        (any (λ x. x.id == r.id) t.runs || not (any (has_id r.session_id) t.sessions))) [
          | inl e ↦ rw e p
          | inr n ↦ rw n (kept.runs_changed t ps _ p)
        ]

  pub create_session-kept : (now : ℕ) (s : Session) → Keeps P (on_db (create_session now s))
  unfolding create_session
  create_session-kept now s = on_db-kept P _ (λ t ps p. insert_session-kept _ t ps p)

  pub create_run-kept : (now : ℕ) (r : Run) → Keeps P (on_db (create_run now r))
  unfolding create_run
  create_run-kept now r = on_db-kept P _ (λ t ps p. insert_run-kept _ t ps p)

  pub update_run_state-kept :
      (now : ℕ) (id state : String) (code : Option ℤ) (error : Option String)
      → Keeps P (on_db (update_run_state now id state code error))
  unfolding update_run_state
  update_run_state-kept now id state code error = on_db-kept P _ (λ t ps p. p)

  write_entry-kept :
      (lower : String → String) (marshal : Option Fields → Option String) (db_now : ℕ) (e : Entry)
      (o : Option String) (db : Db) (ps : List Event)
      → P db.tables ps
      → P (write_entry lower marshal db_now e o db).1.tables ps
  write_entry-kept lower marshal db_now e none db ps p = p
  write_entry-kept lower marshal db_now e (some context) db ps p =
      statement-kept _ (λ t. P t ps) db p (kept.audit_changed db.tables ps _ _ p)

  audited :
      (outside : Outside) (clock : Clock) (e : Entry) (app : App)
      → Holds P app
      → Holds P (record_audit outside clock e app).1
  unfolding record_audit record_entry on_db
  audited outside clock e app p = elim (Bool-cases (e.actor_id == "")) [
    | inl y ↦ rw y p
    | inr n ↦ elim (Bool-cases (e.action == "")) [
      | inl y ↦ rw n (rw y p)
      | inr m ↦ rw n (
          rw m (
            write_entry-kept outside.lower outside.marshal clock.db_now e _ app.db app.published p))
    ]
  ]

  pub record_audit-kept :
      (outside : Outside) (clock : Clock) (e : Entry) → Keeps P (record_audit outside clock e)
  record_audit-kept outside clock e = record { apply = audited outside clock e }

  held-kept :
      (outside : Outside) (id : String) (o : Option Workspace)
      → Keeps P (
          on_db (
            Registry.held_or outside.workspace_codec outside.files
              (get_workspace outside.workspace_codec id)
              o))
  unfolding get_workspace on_db
  held-kept outside id (some w) = record { apply = λ app p. p }
  held-kept outside id none = read_one-kept P _

  pub workspace_by_id-kept :
      (outside : Outside) (id : String) → Keeps P (workspace_by_id outside id)
  unfolding workspace_by_id Registry.get_by_id with_error
  workspace_by_id-kept outside id = record {
    apply = λ app p. (held-kept outside id (lookup id app.workspaces.workspaces)).apply app p;
  }
