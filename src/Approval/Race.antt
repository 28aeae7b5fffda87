-- ===== src/Approval/Race.antt =====
-- Two decisions at once on an approval that only the store holds (after a restart of the server).
use codeallremote.Prelude.{false, string_eq}
use codeallremote.Domain.{Approval}
use codeallremote.Domain.ApprovalState
use codeallremote.Approval.Bridge.{Bridge, Loaded}

abbrev pub copy_of : Approval → Loaded
copy_of a = record { approval = a; shared = false }
