-- ===== src/Approval/Store.antt =====
-- `ApprovalStore` of internal/approval/approval.go, the interface that the bridge uses, and
-- `MemoryStore` of internal/approval/store.go. The maps hold the approvals themselves; that
-- `MemoryStore` shares its pointers with the bridge is not modelled.
use codeallremote.Prelude.{
  String, Bool, Option, none, some, List, [], ◌∷◌, ◌&&◌, if◌then◌else◌, ◌==◌, string_eq,
}
use codeallremote.Prelude.Dict.{Dict, lookup, insert, erase}
use codeallremote.Prelude.Result.{Result, ok, err}
use codeallremote.Domain.{Approval}
use codeallremote.Domain.ApprovalState

-- The methods that the bridge calls. A call returns the store's next state, and an error's text.
pub record ApprovalStore (S : Type 0) : Type 0 where
  pub create : Approval → S → S × Option String
  pub get_by_id : String → S → S × Result String Approval
  pub update : Approval → S → S × Option String

abbrev pub MemoryStore : Type 0
MemoryStore = Dict Approval

-- `MemoryStore.Create`
unfoldable pub memory_create : Approval → MemoryStore → MemoryStore × Option String
memory_create approval s = (insert approval.id approval s, none)

abbrev pub found : Option Approval → Result String Approval
found none = err "approval not found"
found (some a) = ok a

-- `MemoryStore.GetByID`
unfoldable pub memory_get_by_id : String → MemoryStore → MemoryStore × Result String Approval
memory_get_by_id id s = (s, found (lookup id s))

-- `MemoryStore.Update`
unfoldable pub memory_update : Approval → MemoryStore → MemoryStore × Option String
memory_update approval s = elim (lookup approval.id s) [
  | none ↦ (s, some "approval not found")
  | some _ ↦ (insert approval.id approval s, none)
]

-- `MemoryStore.Delete`
unfoldable pub memory_delete : String → MemoryStore → MemoryStore
memory_delete id s = erase id s

-- `MemoryStore.SetApproval`
unfoldable pub memory_set_approval : String → Approval → MemoryStore → MemoryStore
memory_set_approval id approval s = insert id approval s

-- The test that `GetPendingBySession` of both the store and the bridge makes.
abbrev pub is_pending_of : String → Approval → Bool
is_pending_of session_id a = a.session_id == session_id && a.state == ApprovalState.pending

-- The loop of `GetPendingBySession`, in the order of the map.
unfoldable pub pending_by_session : String → Dict Approval → List Approval
pending_by_session session_id [] = []
pending_by_session session_id ((id, a) ∷ m) =
    let rest = pending_by_session session_id m in
    if is_pending_of session_id a then a ∷ rest else rest

abbrev pub memory_store : ApprovalStore MemoryStore
memory_store = record {
  create = memory_create;
  get_by_id = memory_get_by_id;
  update = memory_update;
}
