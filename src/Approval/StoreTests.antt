-- ===== src/Approval/StoreTests.antt =====
-- The theorems on `DBStore` at concrete inputs, with a codec that writes a text as it is.
use codeallremote.Prelude.{◌+◌, none, some, [], ◌∷◌, ◌≡◌, refl, any}
use codeallremote.Prelude.Dict.{lookup}
use codeallremote.Prelude.Result.{ok}
use codeallremote.Domain.{Approval, Session}
use codeallremote.Prelude.Int.{pos}
use codeallremote.Storage.Database.{Tables, Db, sound}
use codeallremote.Approval.Bridge.{Bridge, new_bridge}
use codeallremote.Approval.Upkeep.{extend_expiry, get_by_id}
use codeallremote.Approval.DbStore.{Codec, db_create, db_get_by_id, db_store}
use codeallremote.Approval.Persistence.{db_get_by_id-db_create, extend_expiry_lost}

abbrev plain : Codec
plain = record { marshal = λ s. s; unmarshal = λ s. ok s; describe = λ e. "error" }

abbrev waiting : Approval
waiting = record {
  id = "a1";
  session_id = "s1";
  category = "command";
  state = "pending";
  action_kind = "bash";
  human_readable_context = "run the tests";
  structured_payload = "{}";
  created_at = 10;
  expires_at = 310;
  decided_at = none;
  decision_reason = none;
}

abbrev owner : Session
owner = record {
  id = "s1";
  workspace_id = "w1";
  adapter_id = "claude-code";
  state = "waiting_approval";
  title = "";
  created_at = 1;
  updated_at = 2;
  last_activity_at = some 2;
  last_sequence = pos 0;
  pending_approval = none;
  owner_device_id = none;
  recovery_state = none;
}

abbrev empty : Tables
empty = record {
  sessions = owner ∷ [];
  runs = [];
  events = [];
  approvals = [];
  devices = [];
  access_tokens = [];
  next_event_id = 1;
  workspaces = [];
  audit_log = [];
  next_audit_id = 1;
}

abbrev filled : Tables
filled = record empty { approvals = waiting ∷ [] }

db_get_by_id-db_create_example :
    ((db_create plain waiting (sound empty)).1 ≡ none)
    × ((db_get_by_id plain "a1" (db_create plain waiting (sound empty)).0).1 ≡ ok waiting)
unfolding any
db_get_by_id-db_create_example = db_get_by_id-db_create plain waiting empty refl refl refl

abbrev approved : Approval
approved = record waiting { state = "approved"; decided_at = some 50; expires_at = 900 }

abbrev holding : Bridge Db
holding = record {
  approvals = ("a1", waiting) ∷ [];
  decision_ch = [];
  subscribers = [];
  store = some (sound filled);
  default_expiry = 300;
}

extend_expiry_lost_example :
    let b' = (extend_expiry (db_store plain) "a1" (pos 600) holding).0 in
    (lookup "a1" b'.approvals ≡ some (record waiting { expires_at = 310 + 600 }))
    × ((get_by_id (db_store plain) "a1" (new_bridge b'.store)).1 ≡ ok waiting)
unfolding lookup
extend_expiry_lost_example =
    extend_expiry_lost plain (pos 600) waiting "{}" [] holding filled refl refl refl refl refl
