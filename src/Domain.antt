-- ===== src/Domain.antt =====
-- internal/domain/session.go: the records that the components share; the constants are in the
-- children. A `time.Time` is the number of nanoseconds that it lies after the zero time, an optional
-- field (a pointer) is an `Option`, and an `int64` or `int` is an integer.
pub mod SessionState
pub mod RunState
pub mod ApprovalState
pub mod DeviceState
use codeallremote.Prelude.{ℕ, String, Bool, List, Option}
use codeallremote.Prelude.Int.{ℤ}

-- `Session`
pub record Session : Type 0 where
  pub id : String
  pub workspace_id : String
  pub adapter_id : String
  pub state : String
  pub title : String
  pub created_at : ℕ
  pub updated_at : ℕ
  pub last_activity_at : Option ℕ
  pub last_sequence : ℤ
  pub pending_approval : Option String
  pub owner_device_id : Option String
  pub recovery_state : Option String

-- `SessionSnapshot`
pub record SessionSnapshot : Type 0 where
  pub id : String
  pub workspace_id : String
  pub adapter_id : String
  pub state : String
  pub last_sequence : ℤ
  pub pending_approval_id : Option String

-- `Session.Snapshot`
unfoldable pub snapshot : Session → SessionSnapshot
snapshot s = record {
  id = s.id;
  workspace_id = s.workspace_id;
  adapter_id = s.adapter_id;
  state = s.state;
  last_sequence = s.last_sequence;
  pending_approval_id = s.pending_approval;
}

-- `Run`
pub record Run : Type 0 where
  pub id : String
  pub session_id : String
  pub state : String
  pub process_pid : Option ℤ
  pub process_args : Option String
  pub started_at : Option ℕ
  pub ended_at : Option ℕ
  pub exit_code : Option ℤ
  pub exit_error : Option String
  pub created_at : ℕ

-- `ExecutionPolicy`
pub record ExecutionPolicy : Type 0 where
  pub allow_network_access : Bool
  pub allow_writes : Bool
  pub allowed_commands : List String

-- `Workspace`
pub record Workspace : Type 0 where
  pub id : String
  pub display_name : String
  pub path : String
  pub allowed_adapters : List String
  pub execution_policy : ExecutionPolicy
  pub created_at : ℕ
  pub updated_at : ℕ

-- `AuditEntry`, which is also a row of the table `audit_log`.
pub record AuditEntry : Type 0 where
  pub id : ℕ
  pub actor_id : String
  pub actor_type : String
  pub action : String
  pub target_type : String
  pub target_id : String
  pub outcome : String
  pub context : Option String
  pub created_at : ℕ

-- `Approval`
pub record Approval : Type 0 where
  pub id : String
  pub session_id : String
  pub category : String
  pub state : String
  pub action_kind : String
  pub human_readable_context : String
  pub structured_payload : String
  pub created_at : ℕ
  pub expires_at : ℕ
  pub decided_at : Option ℕ
  pub decision_reason : Option String

-- `Event`. The payload is what `json.Marshal` gives for the Go value: its text, or nothing where it
-- returns an error.
pub record Event : Type 0 where
  pub id : ℤ
  pub session_id : String
  pub sequence : ℤ
  pub event_type : String
  pub message_id : String
  pub schema_version : ℤ
  pub payload : Option String
  pub occurred_at : ℕ

-- `Device`
pub record Device : Type 0 where
  pub id : String
  pub name : String
  pub public_key : String
  pub state : String
  pub paired_at : Option ℕ
  pub revoked_at : Option ℕ
  pub last_seen_at : Option ℕ
  pub created_at : ℕ
