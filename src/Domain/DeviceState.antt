-- ===== src/Domain/DeviceState.antt =====
-- internal/domain/session.go: the states of a device.
use codeallremote.Prelude.{String}

abbrev pub pending : String
pending = "pending"

abbrev pub paired : String
paired = "paired"

abbrev pub revoked : String
revoked = "revoked"
