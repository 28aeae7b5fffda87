-- ===== src/Approval/Upkeep.antt =====
-- The methods of `ApprovalBridge` that expire, cancel, extend and read approvals, in
-- internal/approval/approval.go.
use codeallremote.Prelude.Int.{ℤ, pos, negsuc}
use codeallremote.Prelude.{
  suc, ◌-◌, ℕ, ◌+◌, String, Bool, Option, none, some, [], ◌∷◌, ◌&&◌, ltb, if◌then◌else◌, ◌==◌,
  string_eq, not,
}
use codeallremote.Prelude.Dict.{Dict, lookup, insert, map_values}
use codeallremote.Prelude.Result.{Result, ok, err}
use codeallremote.Domain.{Approval}
use codeallremote.Domain.ApprovalState
use codeallremote.Approval.Store.{ApprovalStore}
use codeallremote.Approval.Bridge.{
  Bridge, BridgeError, not_found, not_pending, updating, expire, update_store,
}

-- `a.State == pending && now.After(a.ExpiresAt)`
abbrev pub is_due : ℕ → Approval → Bool
is_due now a = a.state == ApprovalState.pending && ltb a.expires_at now

abbrev pub expire_if_due : ℕ → Approval → Approval
expire_if_due now a = if is_due now a then expire now a else a

abbrev pub cancel_approval : ℕ → Approval → Approval
cancel_approval now a = record a { state = ApprovalState.cancelled; decided_at = some now }

-- `Time.Add`; a duration may be negative, and a time before the clock's 0 is taken as 0.
abbrev pub add_duration : ℕ → ℤ → ℕ
add_duration time (pos d) = time + d
add_duration time (negsuc d) = time - suc d

abbrev pub extend_approval : ℤ → Approval → Approval
extend_approval d a = record a { expires_at = add_duration a.expires_at d }

abbrev pub update_error : Option String → Option BridgeError
update_error none = none
update_error (some e) = some (updating e)

module _ {S : Type 0} (st : ApprovalStore S) where
  abbrev pub read_store : String → Option S → Bridge S → Bridge S × Result String Approval
  read_store id none b = (b, err "approval not found")
  read_store id (some s) b = let (s', r) = st.get_by_id id s in (record b { store = some s' }, r)

  abbrev pub get_or : String → Option Approval → Bridge S → Bridge S × Result String Approval
  get_or id (some a) b = (b, ok a)
  get_or id none b = read_store id b.store b

  -- `GetByID`
  unfoldable pub get_by_id : String → Bridge S → Bridge S × Result String Approval
  get_by_id id b = get_or id (lookup id b.approvals) b

  -- The store calls of the loop in `checkExpiry`; their errors are dropped.
  unfoldable pub persist_expired : ℕ → Dict Approval → Option S → Option S
  persist_expired now [] store = store
  persist_expired now ((id, a) ∷ m) store =
      persist_expired now m
        (if is_due now a then (update_store st (expire now a) store).0 else store)

  -- `checkExpiry`
  unfoldable pub check_expiry : ℕ → Bridge S → Bridge S
  check_expiry now b = record b {
    approvals = map_values (expire_if_due now) b.approvals;
    store = persist_expired now b.approvals b.store;
  }

  -- The guards of `Cancel` and `ExtendExpiry`, and the change that they make to a pending approval.
  abbrev pub change_pending :
      (Approval → Approval) → String → Option Approval → Bridge S → Bridge S × Option BridgeError
  change_pending f id none b = (b, some not_found)
  change_pending f id (some a) b =
      let a' = f a in
      let (store', e) = update_store st a' b.store in
      if not (a.state == ApprovalState.pending)
      then (b, some not_pending)
      else (record b { approvals = insert id a' b.approvals; store = store' }, update_error e)

  -- `Cancel`
  unfoldable pub cancel : ℕ → String → Bridge S → Bridge S × Option BridgeError
  unfolding update_store
  cancel now id b = change_pending (cancel_approval now) id (lookup id b.approvals) b

  -- `ExtendExpiry`
  unfoldable pub extend_expiry : String → ℤ → Bridge S → Bridge S × Option BridgeError
  unfolding update_store
  extend_expiry id d b = change_pending (extend_approval d) id (lookup id b.approvals) b
