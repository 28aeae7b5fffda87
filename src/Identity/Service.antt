-- ===== src/Identity/Service.antt =====
-- `Service` of internal/identity/service.go. The random codes and identifiers, and the readings of the
-- clock, are arguments; a random code is nothing where the source of randomness fails. `PairDevice` is
-- one locked step on the challenges, `claim`, and then work on the database.
use codeallremote.Prelude.{
  ℕ, ◌+◌, String, Bool, true, false, Option, none, some, [], ◌∷◌, ◌++◌, ◌||◌, not, if◌then◌else◌,
  ◌==◌, string_eq, ltb, leb, length, select, any, map,
}
use codeallremote.Prelude.Dict.{Dict, lookup, insert, prune}
use codeallremote.Prelude.Result.{Result, ok, err}
use codeallremote.Domain.{Device}
use codeallremote.Domain.DeviceState
use codeallremote.Storage.Database.{
  AccessToken, Tables, SqlError, Db, Action, Does, pure, fail, ◌>>=◌, ◌>>◌, attempt, with_error,
  statement, exec,
}
use codeallremote.Storage.Sessions.{first_row}

-- The errors of the service; the last two carry one of the database and the missing randomness.
pub data IdentityError : Type 0 where
  challenge_expired challenge_not_found device_revoked device_not_found token_invalid :
      IdentityError
  name_required key_required no_random : IdentityError
  database : SqlError → IdentityError

-- `Challenge`
pub record Challenge : Type 0 where
  pub code : String
  pub expires_at : ℕ
  pub used : Bool
  pub created_at : ℕ

-- `Service`, without its lock, its database and its clock.
pub record Service : Type 0 where
  pub challenges : Dict Challenge
  pub access_expiry : ℕ

-- `NewService`, whose tokens live for 15 minutes.
unfoldable pub new_service : Service
new_service = record { challenges = []; access_expiry = 900_000_000_000 }

-- `SetAccessExpiry`
unfoldable pub set_access_expiry : ℕ → Service → Service
set_access_expiry d s = record s { access_expiry = d }

abbrev pub max_challenges : ℕ
max_challenges = 1024

-- `c.Used || now.After(c.ExpiresAt)`
abbrev pub is_spent : ℕ → Challenge → Bool
is_spent now c = c.used || ltb c.expires_at now

-- The eviction in `CreateChallenge`: the spent challenges go, and all of them if too many are left.
unfoldable pub evict : ℕ → Dict Challenge → Dict Challenge
evict now m =
    let fresh = prune (is_spent now) m in if leb max_challenges (length fresh) then [] else fresh

-- `CreateChallenge`
unfoldable pub create_challenge :
    ℕ → ℕ → Option String → Service → Service × Result IdentityError Challenge
create_challenge ttl now none s = (s, err no_random)
create_challenge ttl now (some code) s =
    let ch : Challenge = record {
      code = code;
      expires_at = now + ttl;
      used = false;
      created_at = now;
    } in
    (record s { challenges = insert code ch (evict now s.challenges) }, ok ch)

abbrev pub mark_used : String → Challenge → Service → Service
mark_used code ch s = record s { challenges = insert code (record ch { used = true }) s.challenges }

abbrev pub claim_found : ℕ → String → Option Challenge → Service → Service × Result IdentityError ℕ
claim_found now code none s = (s, err challenge_not_found)
claim_found now code (some ch) s =
    if ch.used
    then (s, err challenge_expired)
    else if ltb ch.expires_at now
    then (mark_used code ch s, err challenge_expired)
    else (mark_used code ch s, ok s.access_expiry)

-- The locked part of `PairDevice`: the code is used up, and the lifetime of the first token read.
unfoldable pub claim : ℕ → String → Service → Service × Result IdentityError ℕ
claim now code s = claim_found now code (lookup code s.challenges) s

-- `persistToken`, with the primary key and the reference to the device.
abbrev pub insert_token : AccessToken → Tables → Result SqlError (Unit {0} × Tables)
insert_token tok t =
    if any (λ x. x.value == tok.value) t.access_tokens
      || not (any (λ d. d.id == tok.device_id) t.devices)
    then err SqlError.constraint
    else ok (tt, record t { access_tokens = t.access_tokens ++ tok ∷ [] })

unfoldable pub persist_token : AccessToken → Action (Unit {0})
unfolding statement
persist_token tok = statement (insert_token tok)

-- `deleteExpiredTokens`
unfoldable pub delete_expired_tokens : ℕ → Action (Unit {0})
unfolding statement
delete_expired_tokens now =
    exec
      (λ t. record t { access_tokens = select (λ x. not (ltb x.expires_at now)) t.access_tokens })

abbrev pub new_token : String → String → ℕ → ℕ → AccessToken
new_token value device_id now ttl = record {
  value = value;
  device_id = device_id;
  issued_at = now;
  expires_at = now + ttl;
}

-- `issueToken`
unfoldable pub issue_token : String → String → ℕ → ℕ → Does IdentityError AccessToken
issue_token value device_id now ttl = do
  let tok = new_token value device_id now ttl
  attempt (delete_expired_tokens now)
  with_error database (persist_token tok)
  pure tok

-- `persistDevice`, with the primary key and the unique public key. Only the named columns are written.
abbrev pub insert_device : Device → Tables → Result SqlError (Unit {0} × Tables)
insert_device d t =
    if any (λ x. x.id == d.id || x.public_key == d.public_key) t.devices
    then err SqlError.constraint
    else ok (
      tt,
      record t { devices = t.devices ++ record d { revoked_at = none; last_seen_at = none } ∷ [] },
    )

unfoldable pub persist_device : Device → Action (Unit {0})
unfolding statement
persist_device d = statement (insert_device d)

-- The device that `PairDevice` stores; its `CreatedAt` is left at the zero time.
abbrev pub new_device : String → String → String → ℕ → Device
new_device id name public_key now = record {
  id = id;
  name = name;
  public_key = public_key;
  state = DeviceState.paired;
  paired_at = some now;
  revoked_at = none;
  last_seen_at = none;
  created_at = 0;
}

abbrev pub enroll_device :
    String → String → String → String → ℕ → ℕ → Does IdentityError AccessToken
enroll_device device_id token_value name public_key now ttl = do
  with_error database (persist_device (new_device device_id name public_key now))
  issue_token token_value device_id now ttl

-- `PairDevice` once the challenge is claimed.
unfoldable pub enroll : String → String → String → String → ℕ → ℕ → Does IdentityError AccessToken
enroll device_id token_value name public_key now ttl =
    if name == ""
    then fail name_required
    else if public_key == ""
    then fail key_required
    else enroll_device device_id token_value name public_key now ttl

abbrev pub pair_claimed :
    String
    → String
    → String
    → String
    → ℕ
    → Service × Result IdentityError ℕ
    → Db
    → Service × Result IdentityError AccessToken × Db
pair_claimed device_id token_value name public_key now (s, err e) db = (s, err e, db)
pair_claimed device_id token_value name public_key now (s, ok ttl) db =
    let (r, db') = enroll device_id token_value name public_key now ttl db in (s, r, db')

-- `PairDevice`
unfoldable pub pair_device :
    String
    → String
    → ℕ
    → String
    → String
    → String
    → Service
    → Db
    → Service × Result IdentityError AccessToken × Db
pair_device device_id token_value now code name public_key s db =
    pair_claimed device_id token_value name public_key now (claim now code s) db

-- `getDeviceByID`, `getDeviceByKey`: whatever goes wrong is `ErrDeviceNotFound`.
unfoldable pub get_device_by_id : String → Does IdentityError Device
unfolding statement
get_device_by_id id =
    with_error (λ e. device_not_found)
      (statement (λ t. first_row (select (λ d. d.id == id) t.devices) t))

unfoldable pub get_device_by_key : String → Does IdentityError Device
unfolding statement
get_device_by_key key =
    with_error (λ e. device_not_found)
      (statement (λ t. first_row (select (λ d. d.public_key == key) t.devices) t))

abbrev pub token_error : SqlError → IdentityError
token_error SqlError.no_rows = token_invalid
token_error e = database e

-- `getToken`
unfoldable pub get_token : String → Does IdentityError AccessToken
unfolding statement
get_token value =
    with_error token_error
      (statement (λ t. first_row (select (λ x. x.value == value) t.access_tokens) t))

abbrev pub refresh_for : String → ℕ → Service → Device → Does IdentityError AccessToken
refresh_for token_value now s dev =
    if dev.state == DeviceState.revoked
    then fail device_revoked
    else issue_token token_value dev.id now s.access_expiry

-- `RefreshToken`
unfoldable pub refresh_token : String → ℕ → String → Service → Does IdentityError AccessToken
refresh_token token_value now public_key s = do
  dev ← get_device_by_key public_key
  refresh_for token_value now s dev

-- `AuthorizeToken` from the device on.
abbrev pub authorize_device : AccessToken → Result IdentityError Device → Does IdentityError String
authorize_device tok (err e) = fail token_invalid
authorize_device tok (ok dev) =
    if dev.state == DeviceState.revoked then fail device_revoked else pure tok.device_id

abbrev pub authorize_found : ℕ → AccessToken → Does IdentityError String
authorize_found now tok =
    if ltb tok.expires_at now
    then fail token_invalid
    else do dev ← attempt (get_device_by_id tok.device_id); authorize_device tok dev

-- `AuthorizeToken`, and `AuthorizeWS`, which calls it.
unfoldable pub authorize_token : ℕ → String → Does IdentityError String
authorize_token now token = do tok ← get_token token; authorize_found now tok

-- `updateDevice`
unfoldable pub update_device : Device → Action (Unit {0})
unfolding statement
update_device d = exec (λ t. record t {
  devices =
      map (λ x. if x.id == d.id then record x { state = d.state; revoked_at = d.revoked_at } else x)
        t.devices;
})

-- `RevokeDevice`
unfoldable pub revoke_device : ℕ → String → Does IdentityError (Unit {0})
revoke_device now device_id = do
  dev ← get_device_by_id device_id
  with_error database
      (update_device (record dev { state = DeviceState.revoked; revoked_at = some now }))
