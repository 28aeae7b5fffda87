-- ===== src/Domain/RunState.antt =====
-- internal/domain/session.go: the states of a run.
use codeallremote.Prelude.{String}

abbrev pub pending : String
pending = "pending"

abbrev pub starting : String
starting = "starting"

abbrev pub active : String
active = "active"

abbrev pub completed : String
completed = "completed"

abbrev pub failed : String
failed = "failed"

abbrev pub interrupted : String
interrupted = "interrupted"
