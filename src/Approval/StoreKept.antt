-- ===== src/Approval/StoreKept.antt =====
-- What the store of a bridge keeps through the bridge's methods, if its own calls keep it.
use codeallremote.Prelude.{
  ℕ, String, Option, none, some, ◌≡◌, arith, Bool-cases, inl, inr, ◌==◌, string_eq, ltb,
}
use codeallremote.Prelude.Dict.{lookup, insert}
use codeallremote.Prelude.Result.{Result, ok, err}
use codeallremote.Domain.{Approval}
use codeallremote.Domain.ApprovalState
use codeallremote.Approval.Store.{ApprovalStore}
use codeallremote.Approval.Bridge.{
  Bridge, BridgeError, Decision, DecisionResult, Request, Loaded, new_approval, create_in_store,
  update_store, request, request_reply, load_from_store, load_or, decide_load, finish_decision,
  accept_decision, refuse_late, decide_apply, decide_loaded, decide, decide_approval, expire,
  notify_subscribers, new_result,
}
use codeallremote.Approval.Upkeep.{
  read_store, get_or, get_by_id, change_pending, cancel, cancel_approval,
}

abbrev pub InStore : {S : Type 0} → (S → Type 0) → Option S → Type 0
InStore Q none = Unit
InStore Q (some s) = Q s

notify_subscribers-store :
    {S : Type 0} (id : String) (a : Approval) (b : Bridge S)
    → (notify_subscribers id a b).store ≡ b.store
unfolding notify_subscribers
notify_subscribers-store id a b = ground arith

module _ {S : Type 0} (st : ApprovalStore S) (Q : S → Type 0)
    (create_keeps : (a : Approval) (s : S) → Q s → Q (st.create a s).0)
    (get_keeps : (id : String) (s : S) → Q s → Q (st.get_by_id id s).0)
    (update_keeps : (a : Approval) (s : S) → Q s → Q (st.update a s).0) where
  update_store-kept :
      (a : Approval) (o : Option S) → InStore Q o → InStore Q (update_store st a o).0
  unfolding update_store
  update_store-kept a none h = tt
  update_store-kept a (some s) h = update_keeps a s h

  create_in_store-kept :
      (a : Approval) (o : Option S) → InStore Q o → InStore Q (create_in_store st a o).0
  unfolding create_in_store
  create_in_store-kept a none h = tt
  create_in_store-kept a (some s) h = create_keeps a s h

  reply-kept :
      (a : Approval) (e : Option String) (b : Bridge S)
      → InStore Q b.store
      → InStore Q (request_reply st a e b).0.store
  reply-kept a (some e) b h = h
  reply-kept a none b h = rw (notify_subscribers-store a.session_id a b) h

  pub request-kept :
      (now : ℕ) (req : Request) (b : Bridge S)
      → InStore Q b.store
      → InStore Q (request st now req b).0.store
  unfolding request
  request-kept now req b h =
      let a = new_approval now b.default_expiry req in
      reply-kept a (create_in_store st a b.store).1
        (record b {
          approvals = insert a.id a b.approvals;
          store = (create_in_store st a b.store).0;
        })
        (create_in_store-kept a b.store h)

  load-kept : (id : String) (o : Option S) → InStore Q o → InStore Q (load_from_store st id o).0
  unfolding load_from_store
  load-kept id none h = tt
  load-kept id (some s) h = get_keeps id s h

  load_or-kept :
      (id : String) (o : Option Approval) (b : Bridge S)
      → InStore Q b.store
      → InStore Q (load_or st id o b).0.store
  load_or-kept id (some a) b h = h
  load_or-kept id none b h = load-kept id b.store h

  finish-kept :
      (e : Option String) (result : DecisionResult) (b : Bridge S)
      → InStore Q b.store
      → InStore Q (finish_decision st e result b).0.store
  finish-kept (some e) result b h = h
  finish-kept none result b h = h

  apply-kept :
      (now : ℕ) (id : String) (d : Decision) (l : Loaded) (b : Bridge S)
      → InStore Q b.store
      → InStore Q (decide_apply st now id d l b).0.store
  unfolding decide_apply accept_decision refuse_late
  apply-kept now id d l b h = elim (Bool-cases (l.approval.state == ApprovalState.pending)) [
    | inr n ↦ rw n h
    | inl p ↦ elim (Bool-cases (ltb l.approval.expires_at now)) [
      | inl late ↦ rw p (rw late (update_store-kept (expire now l.approval) b.store h))
      | inr intime ↦
          let a = decide_approval now d l.approval in
          rw p (
            rw intime (
              finish-kept (update_store st a b.store).1
                (record (new_result id d) { session_id = l.approval.session_id })
                (record b {
                  approvals = insert id a b.approvals;
                  store = (update_store st a b.store).0;
                })
                (update_store-kept a b.store h)))
    ]
  ]

  loaded-kept :
      (now : ℕ) (id : String) (d : Decision) (q : Bridge S × Result BridgeError Loaded)
      → InStore Q q.0.store
      → InStore Q (decide_loaded st now id d q).0.store
  loaded-kept now id d (b, ok l) h = apply-kept now id d l b h
  loaded-kept now id d (b, err e) h = h

  pub decide-kept :
      (now : ℕ) (id : String) (d : Decision) (b : Bridge S)
      → InStore Q b.store
      → InStore Q (decide st now id d b).0.store
  unfolding decide decide_load
  decide-kept now id d b h =
      loaded-kept now id d (load_or st id (lookup id b.approvals) b)
        (load_or-kept id (lookup id b.approvals) b h)

  read_store-kept :
      (id : String) (o : Option S) (b : Bridge S)
      → InStore Q o
      → InStore Q b.store
      → InStore Q (read_store st id o b).0.store
  read_store-kept id none b ho h = h
  read_store-kept id (some s) b ho h = get_keeps id s ho

  get_or-kept :
      (id : String) (o : Option Approval) (b : Bridge S)
      → InStore Q b.store
      → InStore Q (get_or st id o b).0.store
  get_or-kept id (some a) b h = h
  get_or-kept id none b h = read_store-kept id b.store b h h

  pub get_by_id-kept :
      (id : String) (b : Bridge S) → InStore Q b.store → InStore Q (get_by_id st id b).0.store
  unfolding get_by_id
  get_by_id-kept id b h = get_or-kept id (lookup id b.approvals) b h

  change_pending-kept :
      (f : Approval → Approval) (id : String) (o : Option Approval) (b : Bridge S)
      → InStore Q b.store
      → InStore Q (change_pending st f id o b).0.store
  change_pending-kept f id none b h = h
  change_pending-kept f id (some a) b h = elim (Bool-cases (a.state == ApprovalState.pending)) [
    | inr n ↦ rw n h
    | inl p ↦ rw p (update_store-kept (f a) b.store h)
  ]

  pub cancel-kept :
      (now : ℕ) (id : String) (b : Bridge S)
      → InStore Q b.store
      → InStore Q (cancel st now id b).0.store
  unfolding cancel
  cancel-kept now id b h = change_pending-kept (cancel_approval now) id (lookup id b.approvals) b h
