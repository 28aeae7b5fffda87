-- ===== src/Approval/Bridge.antt =====
-- `ApprovalBridge` of internal/approval/approval.go. A method body that runs under the lock is one
-- step; `Decide` gives the lock up while it reads the store, so it is two steps, `decide_load` and
-- `decide_apply`. The clock's reading is an argument. A channel is the list of what it holds.
use codeallremote.Prelude.{
  ℕ, ◌+◌, String, Bool, true, false, Option, none, some, List, [], ◌∷◌, ◌++◌, ltb, length,
  if◌then◌else◌, ◌==◌, string_eq, not,
}
use codeallremote.Prelude.Dict.{Dict, lookup, insert, erase}
use codeallremote.Prelude.Result.{Result, ok, err}
use codeallremote.Domain.{Approval}
use codeallremote.Domain.ApprovalState
use codeallremote.Approval.Store.{ApprovalStore, pending_by_session}

-- `Decision`
pub record Decision : Type 0 where
  pub approved : Bool
  pub reason : String
  pub actor_id : String

pub data BridgeError : Type 0 where
  not_found not_pending expired : BridgeError
  persisting updating : String → BridgeError

-- `DecisionResult`
pub record DecisionResult : Type 0 where
  pub approval_id : String
  pub session_id : String
  pub decision : Decision
  pub error : Option BridgeError
  pub already_final : Bool
  pub final_state : String

-- `Request`. The payload is nothing where the Go map is nil; else it is what `json.Marshal` gives for
-- it, a text or an error.
pub record Request : Type 0 where
  pub id : String
  pub session_id : String
  pub category : String
  pub action_kind : String
  pub human_readable_context : String
  pub structured_payload : Option (Option String)

-- `ApprovalBridge`. `store` is nothing where the Go field is nil, and else the store's state.
pub record Bridge (S : Type 0) : Type 0 where
  pub approvals : Dict Approval
  pub decision_ch : List DecisionResult
  pub subscribers : Dict (List Approval)
  pub store : Option S
  pub default_expiry : ℕ

abbrev pub decision_cap : ℕ
decision_cap = 100

abbrev pub subscriber_cap : ℕ
subscriber_cap = 10

-- `select { case ch <- x: default: }` on a channel that holds at most `cap` values.
unfoldable pub try_send : {A : Type 0} → ℕ → A → List A → List A
try_send cap x ch = if ltb (length ch) cap then ch ++ x ∷ [] else ch

-- `NewApprovalBridge`, whose default expiry is five minutes.
unfoldable pub new_bridge : {S : Type 0} → Option S → Bridge S
new_bridge store = record {
  approvals = [];
  decision_ch = [];
  subscribers = [];
  store = store;
  default_expiry = 300_000_000_000;
}

-- The text that `Request` stores: the error of `json.Marshal` is dropped, and leaves no bytes.
abbrev pub payload_text : Option (Option String) → String
payload_text none = ""
payload_text (some none) = ""
payload_text (some (some text)) = text

abbrev pub new_approval : ℕ → ℕ → Request → Approval
new_approval now default_expiry req = record {
  id = req.id;
  session_id = req.session_id;
  category = req.category;
  state = ApprovalState.pending;
  action_kind = req.action_kind;
  human_readable_context = req.human_readable_context;
  structured_payload = payload_text req.structured_payload;
  created_at = now;
  expires_at = now + default_expiry;
  decided_at = none;
  decision_reason = none;
}

-- `notifySubscribers`
unfoldable pub notify_subscribers : {S : Type 0} → String → Approval → Bridge S → Bridge S
notify_subscribers session_id approval b = elim (lookup session_id b.subscribers) [
  | none ↦ b
  | some ch ↦ record b {
    subscribers = insert session_id (try_send subscriber_cap approval ch) b.subscribers;
  }
]

-- `Subscribe`
unfoldable pub subscribe : {S : Type 0} → String → Bridge S → Bridge S
subscribe session_id b = record b { subscribers = insert session_id [] b.subscribers }

-- `Unsubscribe`
unfoldable pub unsubscribe : {S : Type 0} → String → Bridge S → Bridge S
unsubscribe session_id b = record b { subscribers = erase session_id b.subscribers }

-- `GetPendingBySession`
unfoldable pub get_pending_by_session : {S : Type 0} → String → Bridge S → List Approval
get_pending_by_session session_id b = pending_by_session session_id b.approvals

abbrev pub expire : ℕ → Approval → Approval
expire now a = record a { state = ApprovalState.expired; decided_at = some now }

-- The state and the marks that `Decide` writes.
abbrev pub decide_approval : ℕ → Decision → Approval → Approval
decide_approval now decision a = record a {
  state = if decision.approved then ApprovalState.approved else ApprovalState.denied;
  decided_at = some now;
  decision_reason = some decision.reason;
}

-- An approval that `Decide` has in hand: the map's own object, or a copy from the store.
pub record Loaded : Type 0 where
  pub approval : Approval
  pub shared : Bool

abbrev pub loaded_copy : Result String Approval → Result BridgeError Loaded
loaded_copy (ok a) = ok (record { approval = a; shared = false })
loaded_copy (err e) = err not_found

-- The result with which `Decide` starts.
abbrev pub new_result : String → Decision → DecisionResult
new_result id decision = record {
  approval_id = id;
  session_id = "";
  decision = decision;
  error = none;
  already_final = false;
  final_state = "";
}

-- What `Decide` returns on an approval that is not pending.
abbrev pub already_final_result : String → Decision → Approval → DecisionResult
already_final_result id decision a = record (new_result id decision) {
  session_id = a.session_id;
  already_final = true;
  final_state = a.state;
}

module _ {S : Type 0} (st : ApprovalStore S) where
  -- `if b.store != nil { ... b.store.Update(a) }`
  unfoldable pub update_store : Approval → Option S → Option S × Option String
  update_store a none = (none, none)
  update_store a (some s) = let (s', e) = st.update a s in (some s', e)

  unfoldable pub create_in_store : Approval → Option S → Option S × Option String
  create_in_store a none = (none, none)
  create_in_store a (some s) = let (s', e) = st.create a s in (some s', e)

  -- `Request`, from the store's answer on.
  abbrev pub request_reply :
      Approval → Option String → Bridge S → Bridge S × Result BridgeError Approval
  request_reply a (some e) b = (b, err (persisting e))
  request_reply a none b = (notify_subscribers a.session_id a b, ok a)

  -- `Request`
  unfoldable pub request : ℕ → Request → Bridge S → Bridge S × Result BridgeError Approval
  unfolding create_in_store
  request now req b =
      let a = new_approval now b.default_expiry req in
      let (store', e) = create_in_store a b.store in
      request_reply a e (record b { approvals = insert a.id a b.approvals; store = store' })

  -- `Decide` where the map has no such approval: the read of the store, with the lock given up.
  unfoldable pub load_from_store : String → Option S → Option S × Result BridgeError Loaded
  load_from_store id none = (none, err not_found)
  load_from_store id (some s) = let (s', r) = st.get_by_id id s in (some s', loaded_copy r)

  abbrev pub load_or : String → Option Approval → Bridge S → Bridge S × Result BridgeError Loaded
  load_or id (some a) b = (b, ok (record { approval = a; shared = true }))
  load_or id none b =
      let (store', r) = load_from_store id b.store in (record b { store = store' }, r)

  -- `Decide` up to the test of the state: the map's approval, or a copy from the store.
  unfoldable pub decide_load : String → Bridge S → Bridge S × Result BridgeError Loaded
  decide_load id b = load_or id (lookup id b.approvals) b

  -- The last part of `Decide`: persist, then send the result to the channel if it has room.
  abbrev pub finish_decision : Option String → DecisionResult → Bridge S → Bridge S × DecisionResult
  finish_decision (some e) result b = (b, record result { error = some (updating e) })
  finish_decision none result b =
      (record b { decision_ch = try_send decision_cap result b.decision_ch }, result)

  -- `Decide` on an approval that is pending and in time: the decision is written to the map.
  unfoldable pub accept_decision :
      ℕ → String → Decision → Approval → Bridge S → Bridge S × DecisionResult
  unfolding update_store
  accept_decision now id decision a b =
      let a' = decide_approval now decision a in
      let (store', e) = update_store a' b.store in
      finish_decision e (record (new_result id decision) { session_id = a.session_id })
        (record b { approvals = insert id a' b.approvals; store = store' })

  -- `Decide` on a pending approval whose time is over. The map sees the change only if the object is
  -- its own; the error of `Update` is dropped.
  unfoldable pub refuse_late : ℕ → String → Decision → Loaded → Bridge S → Bridge S × DecisionResult
  unfolding update_store
  refuse_late now id decision l b =
      let a' = expire now l.approval in
      (
        record b {
          approvals = if l.shared then insert id a' b.approvals else b.approvals;
          store = (update_store a' b.store).0;
        },
        record (new_result id decision) {
          session_id = l.approval.session_id;
          error = some expired;
        },
      )

  -- `Decide` from the test of the state on.
  unfoldable pub decide_apply :
      ℕ → String → Decision → Loaded → Bridge S → Bridge S × DecisionResult
  unfolding accept_decision refuse_late
  decide_apply now id decision l b =
      if not (l.approval.state == ApprovalState.pending)
      then (b, already_final_result id decision l.approval)
      else if ltb l.approval.expires_at now
      then refuse_late now id decision l b
      else accept_decision now id decision l.approval b

  abbrev pub decide_loaded :
      ℕ → String → Decision → Bridge S × Result BridgeError Loaded → Bridge S × DecisionResult
  decide_loaded now id decision (b, ok l) = decide_apply now id decision l b
  decide_loaded now id decision (b, err e) = (b, record (new_result id decision) { error = some e })

  -- `Decide`, with nothing between its two parts.
  unfoldable pub decide : ℕ → String → Decision → Bridge S → Bridge S × DecisionResult
  unfolding decide_load decide_apply
  decide now id decision b = decide_loaded now id decision (decide_load id b)
