-- ===== src/Approval/Decide.antt =====
-- What `Decide` does to an approval that the bridge holds, on every branch, and why a second decision
-- has no effect.
use codeallremote.Prelude.{
  ℕ, String, true, false, Option, none, some, ◌≡◌, refl, ltb, if◌then◌else◌, ◌==◌, string_eq, not,
  Bool-cases, inl, inr, ap, ◌∙◌,
}
use codeallremote.Prelude.Dict.{lookup, lookup-insert_self, lookup-insert_ne}
use codeallremote.Prelude.Result.{Result, ok, err}
use codeallremote.Domain.{Approval}
use codeallremote.Domain.ApprovalState
use codeallremote.Approval.Store.{ApprovalStore}
use codeallremote.Approval.Bridge.{
  Bridge, Decision, DecisionResult, Loaded, decide, decide_load, decide_apply, decide_loaded,
  load_or, finish_decision, BridgeError, decide_approval, expire, already_final_result,
  accept_decision, refuse_late,
}

-- The approval after one decision, as the documentation of `Decide` has it.
abbrev pub decided : ℕ → Decision → Approval → Approval
decided now d a =
    if not (a.state == ApprovalState.pending)
    then a
    else if ltb a.expires_at now
    then expire now a
    else decide_approval now d a

pub decided-ne-pending :
    (now : ℕ) (d : Decision) (a : Approval)
    → ((decided now d a).state == ApprovalState.pending) ≡ false
decided-ne-pending now d a = elim (Bool-cases (a.state == ApprovalState.pending)) [
  | inr n ↦ rw n n
  | inl e ↦ rw e (elim (Bool-cases (ltb a.expires_at now)) [
    | inl late ↦ rw late refl
    | inr t ↦ rw t (elim (Bool-cases d.approved) [ inl y ↦ rw y refl | inr n ↦ rw n refl ])
  ])
]

module _ {S : Type 0} (st : ApprovalStore S) where
  finish_decision_approvals :
      (e : Option String) (r : DecisionResult) (b : Bridge S)
      → (finish_decision st e r b).0.approvals ≡ b.approvals
  finish_decision_approvals none r b = refl
  finish_decision_approvals (some e) r b = refl

  pub lookup-accept_decision :
      (now : ℕ) (id : String) (d : Decision) (a : Approval) (b : Bridge S)
      → lookup id (accept_decision st now id d a b).0.approvals ≡ some (decide_approval now d a)
  unfolding accept_decision
  lookup-accept_decision now id d a b =
      ap (lookup id) (finish_decision_approvals _ _ _) ∙ lookup-insert_self id _ b.approvals

  lookup-decide_apply :
      (now : ℕ) (id : String) (d : Decision) (a : Approval) (b : Bridge S)
      → lookup id b.approvals ≡ some a
      → lookup id (decide_apply st now id d (record { approval = a; shared = true }) b).0.approvals
        ≡ some (decided now d a)
  unfolding decide_apply refuse_late
  lookup-decide_apply now id d a b h = elim (Bool-cases (a.state == ApprovalState.pending)) [
    | inr n ↦ rw n h
    | inl e ↦ rw e (elim (Bool-cases (ltb a.expires_at now)) [
      | inl late ↦ rw late (lookup-insert_self id _ b.approvals)
      | inr t ↦ rw t (lookup-accept_decision now id d a b)
    ])
  ]

  -- After a decision on an approval that the map holds, the map holds it unchanged if it was not pending,
  -- expired if its time was over, and else approved or denied as the decision says, with the time and
  -- the reason of the decision.
  pub lookup-decide :
      (now : ℕ) (id : String) (d : Decision) (a : Approval) (b : Bridge S)
      → lookup id b.approvals ≡ some a
      → lookup id (decide st now id d b).0.approvals ≡ some (decided now d a)
  unfolding decide
  lookup-decide now id d a b h = rw (h, decide_load) (lookup-decide_apply now id d a b h)

  pub decide_of_decided :
      (now : ℕ) (id : String) (d : Decision) (a : Approval) (b : Bridge S)
      → lookup id b.approvals ≡ some a
      → (a.state == ApprovalState.pending) ≡ false
      → decide st now id d b ≡ (b, already_final_result id d a)
  unfolding decide
  decide_of_decided now id d a b h n = rw (h, decide_load) (rw (n, decide_apply) refl)

  -- After a decision on an approval that the map holds, whatever its outcome, a second decision on it
  -- that follows at once changes nothing at all, and is told the state that the first one left.
  pub decide_twice :
      (now later : ℕ) (id : String) (d d' : Decision) (a : Approval) (b : Bridge S)
      → lookup id b.approvals ≡ some a
      → decide st later id d' (decide st now id d b).0
        ≡ ((decide st now id d b).0, already_final_result id d' (decided now d a))
  decide_twice now later id d d' a b h =
      decide_of_decided later id d' (decided now d a) (decide st now id d b).0
        (lookup-decide now id d a b h) (decided-ne-pending now d a)

  -- the entries of the other approvals
  decide_apply_others :
      (now : ℕ) (id j : String) (d : Decision) (l : Loaded) (b : Bridge S)
      → (id == j) ≡ false
      → lookup j (decide_apply st now id d l b).0.approvals ≡ lookup j b.approvals
  unfolding decide_apply refuse_late accept_decision
  decide_apply_others now id j d l b ne =
      elim (Bool-cases (l.approval.state == ApprovalState.pending)) [
        | inr n ↦ rw n refl
        | inl e ↦ rw e (elim (Bool-cases (ltb l.approval.expires_at now)) [
          | inl late ↦ rw late (elim (Bool-cases l.shared) [
            | inl y ↦ rw y (lookup-insert_ne id j _ b.approvals ne)
            | inr n ↦ rw n refl
          ])
          | inr t ↦ rw t (
              ap (lookup j) (finish_decision_approvals _ _ _)
              ∙ lookup-insert_ne id j _ b.approvals ne)
        ])
      ]

  decide_loaded_others :
      (now : ℕ) (id j : String) (d : Decision) (b : Bridge S) (r : Result BridgeError Loaded)
      → (id == j) ≡ false
      → lookup j (decide_loaded st now id d (b, r)).0.approvals ≡ lookup j b.approvals
  decide_loaded_others now id j d b (ok l) ne = decide_apply_others now id j d l b ne
  decide_loaded_others now id j d b (err e) ne = refl

  load_or_approvals :
      (id : String) (o : Option Approval) (b : Bridge S)
      → (load_or st id o b).0.approvals ≡ b.approvals
  load_or_approvals id none b = refl
  load_or_approvals id (some a) b = refl

  -- A decision on one approval leaves the map's entries of all other ids alone, whatever its outcome.
  pub decide_others :
      (now : ℕ) (id j : String) (d : Decision) (b : Bridge S)
      → (id == j) ≡ false
      → lookup j (decide st now id d b).0.approvals ≡ lookup j b.approvals
  unfolding decide decide_load
  decide_others now id j d b ne =
      let (b', r) = decide_load st id b in
      decide_loaded_others now id j d b' r ne
      ∙ ap (lookup j) (load_or_approvals id (lookup id b.approvals) b)
