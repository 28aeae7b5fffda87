-- ===== src/Identity/Tests.antt =====
-- The theorems of the identity package at concrete inputs.
use codeallremote.Prelude.{◌≤◌, false, none, some, [], ◌∷◌, ◌≡◌, ◌≢◌, refl, length, arith}
use codeallremote.Prelude.Dict.{lookup, insert, prune}
use codeallremote.Prelude.Result.{ok, err}
use codeallremote.Domain.{Device}
use codeallremote.Storage.Database.{sound, AccessToken, Tables}
use codeallremote.Identity.Service.{
  Service, Challenge, new_service, create_challenge, pair_device, challenge_expired, max_challenges,
  authorize_token, get_token, refresh_token, revoke_device, get_device_by_id, update_device, evict,
}
use codeallremote.Identity.Pairing.{pair_device_twice, create_challenge_bound}
use codeallremote.Identity.Tokens.{revoke_device_final}

abbrev phone : Device
phone = record {
  id = "d1";
  name = "phone";
  public_key = "key";
  state = "paired";
  paired_at = some 10;
  revoked_at = none;
  last_seen_at = none;
  created_at = 0;
}

abbrev token : AccessToken
token = record { value = "t1"; device_id = "d1"; issued_at = 10; expires_at = 900 }

abbrev tables : Tables
tables = record {
  sessions = [];
  runs = [];
  events = [];
  approvals = [];
  devices = phone ∷ [];
  access_tokens = token ∷ [];
  next_event_id = 1;
  workspaces = [];
  audit_log = [];
  next_audit_id = 1;
}

authorized_before : (authorize_token 20 "t1" (sound tables)).0 ≡ ok "d1"
unfolding authorize_token get_token get_device_by_id
authorized_before = refl

revoke_device_final_example :
    let t' = record (revoke_device 30 "d1" (sound tables)).1.tables {
      access_tokens = token ∷ [];
    } in
    ((authorize_token 40 "t1" (sound t')).0 ≢ ok "d1")
    × ((refresh_token "t2" 40 "key" new_service (sound t')).0 ≢ ok token)
unfolding revoke_device get_device_by_id update_device
revoke_device_final_example =
    revoke_device_final 30 40 "d1" "t1" "t2" "key" new_service token (token ∷ []) tables refl refl

abbrev offered : Challenge
offered = record { code = "c1"; expires_at = 105; used = false; created_at = 5 }

abbrev offering : Service
offering = (create_challenge 100 5 (some "c1") new_service).0

pair_device_twice_example :
    let s' = (pair_device "d2" "t2" 6 "c1" "tablet" "key2" offering (sound tables)).0 in
    pair_device "d3" "t3" 7 "c1" "laptop" "key3" s' (sound tables)
    ≡ (s', err challenge_expired, sound tables)
unfolding create_challenge lookup insert evict new_service prune
pair_device_twice_example =
    pair_device_twice "d2" "t2" 6 "c1" "tablet" "key2" offered offering (sound tables) "d3" "t3" 7
      "laptop" "key3" (sound tables) refl

create_challenge_bound_example :
    length (create_challenge 100 5 (some "c1") new_service).0.challenges ≤ max_challenges
unfolding new_service
create_challenge_bound_example = create_challenge_bound 100 5 (some "c1") new_service (omega arith)
