-- ===== src/Domain/SessionState.antt =====
-- internal/domain/session.go: the states of a session.
use codeallremote.Prelude.{String}

abbrev pub created : String
created = "created"

abbrev pub starting : String
starting = "starting"

abbrev pub active : String
active = "active"

abbrev pub waiting_approval : String
waiting_approval = "waiting_approval"

abbrev pub interrupted : String
interrupted = "interrupted"

abbrev pub completed : String
completed = "completed"

abbrev pub failed : String
failed = "failed"

abbrev pub resumable : String
resumable = "resumable"

abbrev pub recovering : String
recovering = "recovering"
