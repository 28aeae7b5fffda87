-- ===== src/Approval/Stats.antt =====
-- `Stats` of internal/approval/approval.go.
use codeallremote.Prelude.{ℕ, ◌+◌, String, [], ◌∷◌, if◌then◌else◌, ◌==◌, string_eq}
use codeallremote.Prelude.Dict.{Dict}
use codeallremote.Domain.{Approval}
use codeallremote.Domain.ApprovalState
use codeallremote.Approval.Bridge.{Bridge}

-- `ApprovalStats`
pub record ApprovalStats : Type 0 where
  pub pending : ℕ
  pub approved : ℕ
  pub denied : ℕ
  pub expired : ℕ
  pub cancelled : ℕ
  pub total : ℕ

-- The `switch` of the loop.
unfoldable pub count_state : String → ApprovalStats → ApprovalStats
count_state state s =
    if state == ApprovalState.pending
    then record s { pending = s.pending + 1 }
    else if state == ApprovalState.approved
    then record s { approved = s.approved + 1 }
    else if state == ApprovalState.denied
    then record s { denied = s.denied + 1 }
    else if state == ApprovalState.expired
    then record s { expired = s.expired + 1 }
    else if state == ApprovalState.cancelled
    then record s { cancelled = s.cancelled + 1 }
    else s

unfoldable pub stats_from : ApprovalStats → Dict Approval → ApprovalStats
stats_from s [] = s
stats_from s ((id, a) ∷ m) = stats_from (count_state a.state s) m

-- `Stats`
unfoldable pub stats : {S : Type 0} → Bridge S → ApprovalStats
unfolding stats_from count_state
stats b =
    stats_from
      (record { pending = 0; approved = 0; denied = 0; expired = 0; cancelled = 0; total = 0 })
      b.approvals
