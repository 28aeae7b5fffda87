-- ===== src/App/Late.antt =====
-- `ResolveApproval` on an approval that the bridge holds, called twice.
use codeallremote.Prelude.{String, true, false, some, ◌≡◌, refl, ◌||◌, ◌==◌, string_eq}
use codeallremote.Prelude.Dict.{lookup}
use codeallremote.Prelude.Result.{ok}
use codeallremote.Domain.{Approval}
use codeallremote.Domain.ApprovalState
use codeallremote.Approval.DbStore.{db_store}
use codeallremote.Approval.Decide.{decided, lookup-decide, decided-ne-pending}
use codeallremote.App.Held.{IsHeld, after_decide-held}
use codeallremote.Approval.Bridge.{Decision, decide, decide_load, decide_apply}
use codeallremote.Approval.Upkeep
use codeallremote.App.State.{App, Outside, Clock, ◌>>=◌, guard, on_bridge, pure}
use codeallremote.App.Resolve.{resolve_approval, check_decided, after_check}

-- A decision on an approval that the bridge holds and that is not pending any more returns the approval and
-- changes nothing: no event, no entry of the audit log, no call of the adapter, no row, whichever statements
-- would fail.
resolve_approval-final :
    (outside : Outside) (clock : Clock) (actor id decision reason : String) (app : App)
    {a : Approval}
    → lookup id app.approvals.approvals ≡ some a
    → (a.state == ApprovalState.pending) ≡ false
    → (decision == "approve" || decision == "deny") ≡ true
    → resolve_approval outside clock actor id decision reason app ≡ (ok (some a), app)
unfolding resolve_approval ◌>>=◌ guard on_bridge decide decide_load decide_apply check_decided
    after_check pure Upkeep.get_by_id
resolve_approval-final outside clock actor id decision reason app held final d =
    rw d (rw held (rw final (rw held refl)))

-- The decision that a valid text stands for.
abbrev pub decision_of : String → String → String → Decision
decision_of actor decision reason = record {
  approved = decision == "approve";
  reason = reason;
  actor_id = actor;
}

resolve_approval-held :
    (outside : Outside) (clock : Clock) (actor id decision reason : String) (app : App)
    {a : Approval}
    → lookup id app.approvals.approvals ≡ some a
    → (decision == "approve" || decision == "deny") ≡ true
    → IsHeld id
        (decided clock.now (decision_of actor decision reason) a)
        (resolve_approval outside clock actor id decision reason app).1
unfolding resolve_approval guard on_bridge ◌>>=◌
resolve_approval-held outside clock actor id decision reason app {a} held d =
    let dec = decision_of actor decision reason in
    let bridge = record app.approvals { store = some app.db } in
    let result = (decide (db_store outside.codec) clock.now id dec bridge).1 in
    rw d (
      (after_decide-held id (decided clock.now dec a) outside clock actor decision dec.approved
          reason result).held
        _ (lookup-decide (db_store outside.codec) clock.now id dec a bridge held))

-- After a valid decision on an approval that the bridge holds, however it ends and whichever statements fail,
-- a second valid decision that follows at once returns the final approval and changes nothing: no event, no
-- entry of the audit log, no call of the adapter, no row. The final approval is the given one if it was not
-- pending, else the expired one if the first decision came after the expiry, and else the one that the first
-- decision approved or denied.
pub resolve_approval-twice :
    (outside : Outside) (clock later : Clock) (id actor decision reason : String)
    (actor' decision' reason' : String) (app : App) {a : Approval}
    → lookup id app.approvals.approvals ≡ some a
    → (decision == "approve" || decision == "deny") ≡ true
    → (decision' == "approve" || decision' == "deny") ≡ true
    → resolve_approval outside later actor' id decision' reason'
        (resolve_approval outside clock actor id decision reason app).1
      ≡ (
        ok (some (decided clock.now (decision_of actor decision reason) a)),
        (resolve_approval outside clock actor id decision reason app).1,
      )
resolve_approval-twice outside clock later id actor decision reason actor' decision' reason' app {a}
      held d d' =
    resolve_approval-final outside later actor' id decision' reason'
      (resolve_approval outside clock actor id decision reason app).1
      (resolve_approval-held outside clock actor id decision reason app held d)
      (decided-ne-pending clock.now (decision_of actor decision reason) a) d'
