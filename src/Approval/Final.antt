-- ===== src/Approval/Final.antt =====
-- The bridge over any sequence of calls: what has been decided stays decided.
use codeallremote.Prelude.Int.{ℤ}
use codeallremote.Prelude.{
  ℕ, String, false, Option, none, some, List, [], ◌∷◌, ◌≡◌, refl, ◌==◌, string_eq, str_iff,
  Bool-cases, Option-cases, inl, inr, ap, ◌∙◌, All,
}
use mathlib.Core.Option
use codeallremote.Prelude.Dict.{lookup, lookup-insert_ne, lookup-map_values}
use codeallremote.Domain.{Approval}
use codeallremote.Domain.ApprovalState
use codeallremote.Approval.Store.{ApprovalStore}
use codeallremote.Approval.Bridge.{
  Bridge, Decision, DecisionResult, Request, request, request_reply, subscribe, unsubscribe, decide,
  notify_subscribers, BridgeError,
}
use codeallremote.Approval.Upkeep.{
  get_by_id, get_or, check_expiry, cancel, extend_expiry, change_pending, expire_if_due,
}
use codeallremote.Approval.Decide.{decide_of_decided, decide_others}

-- A call of one of the bridge's methods, with what it reads of the clock.
pub data Call : Type 0 where
  request_call : ℕ → Request → Call
  decide_call : ℕ → String → Decision → Call
  expiry_call : ℕ → Call
  cancel_call : ℕ → String → Call
  extend_call : String → ℤ → Call
  get_call : String → Call
  subscribe_call unsubscribe_call : String → Call

-- The call asks for no new approval of this id.
abbrev pub Spares : String → Call → Type 0
Spares id (request_call now req) = (req.id == id) ≡ false
Spares id _ = Unit

module _ {S : Type 0} (st : ApprovalStore S) where
  unfoldable pub step : Call → Bridge S → Bridge S
  step (request_call now req) b = (request st now req b).0
  step (decide_call now id d) b = (decide st now id d b).0
  step (expiry_call now) b = check_expiry st now b
  step (cancel_call now id) b = (cancel st now id b).0
  step (extend_call id d) b = (extend_expiry st id d b).0
  step (get_call id) b = (get_by_id st id b).0
  step (subscribe_call sid) b = subscribe sid b
  step (unsubscribe_call sid) b = unsubscribe sid b

  unfoldable pub run : List Call → Bridge S → Bridge S
  run [] b = b
  run (c ∷ cs) b = run cs (step c b)

  notify_subscribers_approvals :
      (sid : String) (a : Approval) (b : Bridge S)
      → (notify_subscribers sid a b).approvals ≡ b.approvals
  unfolding notify_subscribers
  notify_subscribers_approvals sid a b = elim (Option-cases (lookup sid b.subscribers)) [
    | inl e ↦ rw (e, notify_subscribers) refl
    | inr (ch, e) ↦ rw (e, notify_subscribers) refl
  ]

  request_reply_approvals :
      (a : Approval) (e : Option String) (b : Bridge S)
      → (request_reply st a e b).0.approvals ≡ b.approvals
  request_reply_approvals a none b = notify_subscribers_approvals a.session_id a b
  request_reply_approvals a (some e) b = refl

  lookup-request :
      (now : ℕ) (req : Request) (id : String) (b : Bridge S)
      → (req.id == id) ≡ false
      → lookup id (request st now req b).0.approvals ≡ lookup id b.approvals
  unfolding request
  lookup-request now req id b ne =
      ap (lookup id) (request_reply_approvals _ _ _) ∙ lookup-insert_ne req.id id _ b.approvals ne

  get_or_approvals :
      (id : String) (o : Option Approval) (b : Bridge S)
      → (get_or st id o b).0.approvals ≡ b.approvals
  get_or_approvals id (some a) b = refl
  get_or_approvals id none b = elim (Option-cases b.store) [
    | inl e ↦ rw e refl
    | inr (s, e) ↦ rw e refl
  ]

  change_pending_decided :
      (f : Approval → Approval) (id : String) (a : Approval) (b : Bridge S)
      → (a.state == ApprovalState.pending) ≡ false
      → change_pending st f id (some a) b ≡ (b, some BridgeError.not_pending)
  change_pending_decided f id a b n = rw n refl

  change_pending_others :
      (f : Approval → Approval) (id j : String) (o : Option Approval) (b : Bridge S)
      → (id == j) ≡ false
      → lookup j (change_pending st f id o b).0.approvals ≡ lookup j b.approvals
  change_pending_others f id j none b ne = refl
  change_pending_others f id j (some a) b ne =
      elim (Bool-cases (a.state == ApprovalState.pending)) [
        | inl e ↦ rw e (lookup-insert_ne id j _ b.approvals ne)
        | inr n ↦ rw n refl
      ]

  change_pending_keeps :
      (f : Approval → Approval) (id j : String) (a : Approval) (b : Bridge S)
      → lookup j b.approvals ≡ some a
      → (a.state == ApprovalState.pending) ≡ false
      → lookup j (change_pending st f id (lookup id b.approvals) b).0.approvals ≡ some a
  change_pending_keeps f id j a b h n = elim (Bool-cases (id == j)) [
    | inl e ↦ rw ((str_iff id j).0 e) (rw h (rw n h))
    | inr ne ↦ change_pending_others f id j (lookup id b.approvals) b ne ∙ h
  ]

  -- One call leaves a decided approval as it is.
  step-decided :
      (c : Call) (id : String) (a : Approval) (b : Bridge S)
      → Spares id c
      → lookup id b.approvals ≡ some a
      → (a.state == ApprovalState.pending) ≡ false
      → lookup id (step c b).approvals ≡ some a
  unfolding step cancel extend_expiry subscribe unsubscribe get_by_id check_expiry
  step-decided (request_call now req) id a b sp h n = lookup-request now req id b sp ∙ h
  step-decided (decide_call now j d) id a b sp h n = elim (Bool-cases (j == id)) [
    | inl e ↦ rw ((str_iff j id).0 e) (
        ap (λ (r : Bridge S × DecisionResult). lookup id r.0.approvals)
          (decide_of_decided st now id d a b h n)
        ∙ h)
    | inr ne ↦ decide_others st now j id d b ne ∙ h
  ]
  step-decided (expiry_call now) id a b sp h n =
      lookup-map_values (expire_if_due now) id b.approvals
      ∙ ap (Option.map (expire_if_due now)) h
      ∙ rw n refl
  step-decided (cancel_call now j) id a b sp h n = change_pending_keeps _ j id a b h n
  step-decided (extend_call j d) id a b sp h n = change_pending_keeps _ j id a b h n
  step-decided (get_call j) id a b sp h n = ap (lookup id) (get_or_approvals j _ b) ∙ h
  step-decided (subscribe_call sid) id a b sp h n = h
  step-decided (unsubscribe_call sid) id a b sp h n = h

  -- An approval in the map that is no longer pending keeps its state, its time of decision and all its
  -- other fields through every sequence of calls that asks for no new approval under its id.
  pub run-decided :
      (cs : List Call) (id : String) (a : Approval) (b : Bridge S)
      → All (Spares id) cs
      → lookup id b.approvals ≡ some a
      → (a.state == ApprovalState.pending) ≡ false
      → lookup id (run cs b).approvals ≡ some a
  unfolding run
  run-decided [] id a b sp h n = h
  run-decided (c ∷ cs) id a b sp h n =
      run-decided cs id a (step c b) sp.1 (step-decided c id a b sp.0 h n) n
