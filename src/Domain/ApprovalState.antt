-- ===== src/Domain/ApprovalState.antt =====
-- internal/domain/session.go: the states of an approval.
use codeallremote.Prelude.{String}

abbrev pub pending : String
pending = "pending"

abbrev pub approved : String
approved = "approved"

abbrev pub denied : String
denied = "denied"

abbrev pub expired : String
expired = "expired"

abbrev pub cancelled : String
cancelled = "cancelled"
