-- ===== src/App/BridgeKept.antt =====
-- The calls of the approval bridge keep an invariant that `IsKept` describes.
use codeallremote.Prelude.{
  ℕ, String, Option, none, some, List, ◌||◌, not, Bool-cases, inl, inr, string_eq, any,
}
use codeallremote.Domain.{Event, Approval}
use codeallremote.Storage.Database.{Db, Tables}
use codeallremote.Storage.Sessions.{has_id}
use codeallremote.Storage.Outcome.{tables_after, statement-kept}
use codeallremote.Approval.Bridge.{Bridge, Decision, Request, decide, request}
use codeallremote.Approval.Upkeep
use codeallremote.Approval.DbStore.{
  Codec, has_approval_id, db_store, db_create, db_get_by_id, db_update, insert_approval,
}
use codeallremote.Approval.StoreKept.{InStore, decide-kept, request-kept, cancel-kept}
use codeallremote.Approval.StoreKept
use codeallremote.App.State.{ServiceError, on_bridge, store_or}
use codeallremote.App.Kept.{IsKept, Keeps}
use codeallremote.App.StatementsKept.{first_row-same}

module _ (P : Tables → List Event → Type 0) where
  stored :
      (db : Db) (o : Option Db) (ps : List Event)
      → P db.tables ps
      → InStore (λ s. P s.tables ps) o
      → P (store_or db o).tables ps
  stored db none ps p h = p
  stored db (some db') ps p h = h

  on_bridge-kept :
      {A : Type 0} (f : Bridge Db → Bridge Db × A)
      → ((ps : List Event) (b : Bridge Db)
          → InStore (λ s. P s.tables ps) b.store
          → InStore (λ s. P s.tables ps) (f b).0.store)
      → Keeps P (on_bridge {E = ServiceError} f)
  unfolding on_bridge
  on_bridge-kept f hf = record {
    apply = λ app p.
        let b = record app.approvals { store = some app.db } in
        stored app.db (f b).0.store app.published p (hf app.published b p);
  }

module _ (P : Tables → List Event → Type 0) (kept : IsKept P) (codec : Codec)
    (ps : List Event) where
  insert_approval-kept :
      (payload : String) (a : Approval) (t : Tables)
      → P t ps
      → P (tables_after t (insert_approval payload a t)) ps
  insert_approval-kept payload a t p =
      elim (Bool-cases
        (any (has_approval_id a.id) t.approvals || not (any (has_id a.session_id) t.sessions))) [
          | inl e ↦ rw e p
          | inr n ↦ rw n (kept.approvals_changed t ps _ p)
        ]

  db_create-kept : (a : Approval) (db : Db) → P db.tables ps → P (db_create codec a db).0.tables ps
  unfolding db_create
  db_create-kept a db p =
      statement-kept _ (λ t. P t ps) db p
        (insert_approval-kept (codec.marshal a.structured_payload) a db.tables p)

  db_update-kept : (a : Approval) (db : Db) → P db.tables ps → P (db_update codec a db).0.tables ps
  unfolding db_update
  db_update-kept a db p =
      statement-kept _ (λ t. P t ps) db p (kept.approvals_changed db.tables ps _ p)

  db_get_by_id-kept :
      (id : String) (db : Db) → P db.tables ps → P (db_get_by_id codec id db).0.tables ps
  unfolding db_get_by_id
  db_get_by_id-kept id db p =
      statement-kept _ (λ t. P t ps) db p (first_row-same (λ t. P t ps) _ db.tables p)

module _ (P : Tables → List Event → Type 0) (kept : IsKept P) (codec : Codec) where
  pub decided-kept :
      (now : ℕ) (id : String) (d : Decision)
      → Keeps P (on_bridge {E = ServiceError} (decide (db_store codec) now id d))
  decided-kept now id d = on_bridge-kept P (decide (db_store codec) now id d) (λ ps b.
      decide-kept (db_store codec) (λ s. P s.tables ps) (db_create-kept P kept codec ps)
        (db_get_by_id-kept P kept codec ps) (db_update-kept P kept codec ps) now id d b)

  pub requested-kept :
      (now : ℕ) (req : Request)
      → Keeps P (on_bridge {E = ServiceError} (request (db_store codec) now req))
  requested-kept now req = on_bridge-kept P (request (db_store codec) now req) (λ ps b.
      request-kept (db_store codec) (λ s. P s.tables ps) (db_create-kept P kept codec ps)
        (db_get_by_id-kept P kept codec ps) (db_update-kept P kept codec ps) now req b)

  pub cancelled-kept :
      (now : ℕ) (id : String)
      → Keeps P (on_bridge {E = ServiceError} (Upkeep.cancel (db_store codec) now id))
  cancelled-kept now id = on_bridge-kept P (Upkeep.cancel (db_store codec) now id) (λ ps b.
      cancel-kept (db_store codec) (λ s. P s.tables ps) (db_create-kept P kept codec ps)
        (db_get_by_id-kept P kept codec ps) (db_update-kept P kept codec ps) now id b)

  pub approval-kept :
      (id : String) → Keeps P (on_bridge {E = ServiceError} (Upkeep.get_by_id (db_store codec) id))
  approval-kept id = on_bridge-kept P (Upkeep.get_by_id (db_store codec) id) (λ ps b.
      StoreKept.get_by_id-kept (db_store codec) (λ s. P s.tables ps)
        (db_create-kept P kept codec ps) (db_get_by_id-kept P kept codec ps)
        (db_update-kept P kept codec ps) id b)
