-- ===== src/Approval/Tests.antt =====
-- The theorems of the approval package at concrete inputs, over the store in memory.
use codeallremote.Prelude.{true, false, none, some, List, [], ◌∷◌, ◌≡◌, refl}
use codeallremote.Prelude.Dict.{lookup, insert}
use codeallremote.Domain.{Approval}
use codeallremote.Approval.Store.{MemoryStore, memory_store, memory_update}
use codeallremote.Approval.Bridge.{Bridge, Decision, decide, decide_approval, already_final_result}
use codeallremote.Approval.Decide.{decided, decide_twice}
use codeallremote.Approval.Final.{Call, expiry_call, decide_call, cancel_call, run, run-decided}

abbrev pending_approval : Approval
pending_approval = record {
  id = "a1";
  session_id = "s1";
  category = "command";
  state = "pending";
  action_kind = "bash";
  human_readable_context = "run the tests";
  structured_payload = "";
  created_at = 10;
  expires_at = 310;
  decided_at = none;
  decision_reason = none;
}

abbrev approve : Decision
approve = record { approved = true; reason = "fine"; actor_id = "owner" }

abbrev deny : Decision
deny = record { approved = false; reason = "no"; actor_id = "owner" }

abbrev held : Bridge MemoryStore
held = record {
  approvals = ("a1", pending_approval) ∷ [];
  decision_ch = [];
  subscribers = [];
  store = some (("a1", pending_approval) ∷ []);
  default_expiry = 300;
}

-- The bridge after a restart: only the store has the approval.
abbrev restarted : Bridge MemoryStore
restarted = record held { approvals = [] }

approved_in_time :
    (lookup "a1" (decide memory_store 300 "a1" approve held).0.approvals)
    ≡ some (decide_approval 300 approve pending_approval)
unfolding decide lookup insert memory_update
approved_in_time = refl

decide_twice_example :
    decide memory_store 302 "a1" deny (decide memory_store 300 "a1" approve held).0 ≡ (
      (decide memory_store 300 "a1" approve held).0,
      already_final_result "a1" deny (decided 300 approve pending_approval),
    )
unfolding lookup
decide_twice_example =
    decide_twice memory_store 300 302 "a1" approve deny pending_approval held refl

abbrev approved_bridge : Bridge MemoryStore
approved_bridge = record held {
  approvals = ("a1", decide_approval 300 approve pending_approval) ∷ [];
}

abbrev later_calls : List Call
later_calls = expiry_call 900 ∷ decide_call 901 "a1" deny ∷ cancel_call 902 "a1" ∷ []

run-decided_example :
    lookup "a1" (run memory_store later_calls approved_bridge).approvals
    ≡ some (decide_approval 300 approve pending_approval)
unfolding lookup
run-decided_example =
    run-decided memory_store later_calls "a1" (decide_approval 300 approve pending_approval)
      approved_bridge (tt, (tt, (tt, tt))) refl refl
