-- ===== src/Identity/Tokens.antt =====
-- Access tokens: what a successful authorization means, and that revocation ends it.
use codeallremote.Prelude.{
  ℕ, String, true, some, List, [], ◌∷◌, ◌≡◌, ◌≢◌, refl, sym, if◌then◌else◌, ◌==◌, string_eq, ltb,
  select, map, All, All-intro, Bool-cases, List-cases, first_of_select, inl, inr, str_iff, ap, ◌∙◌,
}
use codeallremote.Prelude.Result.{Result, ok, err}
use codeallremote.Domain.{Device}
use codeallremote.Domain.DeviceState
use codeallremote.Storage.Database.{
  sound, AccessToken, Tables, SqlError, Db, bind_rest, or_error, pure,
}
use codeallremote.Identity.Service.{
  Service, get_token, get_device_by_id, get_device_by_key, authorize_token, authorize_found,
  refresh_token, issue_token, revoke_device, update_device, persist_token, new_token,
  delete_expired_tokens, database,
}

-- Every device of this id is revoked.
abbrev pub AllRevoked : String → List Device → Type 0
AllRevoked id = All (λ d. (d.id == id) ≡ true → (d.state == DeviceState.revoked) ≡ true)

persisted :
    (tok tok' : AccessToken) (r : Result SqlError (Unit {0})) (db : Db)
    → (bind_rest (λ u. pure tok) (or_error database r, db)).0 ≡ ok tok'
    → tok' ≡ tok
persisted tok tok' (ok u) db h = cc
persisted tok tok' (err e) db h = cc

-- A token that is issued is bound to the device that it is issued for.
issue_token_device :
    (value device_id : String) (now ttl : ℕ) (db : Db) (tok : AccessToken)
    → (issue_token value device_id now ttl db).0 ≡ ok tok
    → tok.device_id ≡ device_id
unfolding issue_token
issue_token_device value device_id now ttl db tok h =
    let (r, db') =
      persist_token (new_token value device_id now ttl) (delete_expired_tokens now db).1 in
    ap (λ (x : AccessToken). x.device_id)
      (persisted (new_token value device_id now ttl) tok r db' h)

module _ (t : Tables) (id : String) (gone : AllRevoked id t.devices) where
  device_refused :
      (tok : AccessToken)
      → (tok.device_id == id) ≡ true
      → (d : Device) → (rest : List Device)
      → select (λ x. x.id == tok.device_id) t.devices ≡ d ∷ rest
      → (d.state == DeviceState.revoked) ≡ true
  device_refused tok own d rest e =
      let found =
        first_of_select (λ d. (d.id == id) ≡ true → (d.state == DeviceState.revoked) ≡ true)
          (λ x. x.id == tok.device_id) t.devices gone e in
      found.0 (rw ((str_iff d.id tok.device_id).0 found.1) own)

  authorize_found_refused :
      (later : ℕ) (tok : AccessToken) → (authorize_found later tok (sound t)).0 ≢ ok id
  unfolding get_device_by_id
  authorize_found_refused later tok = elim (Bool-cases (ltb tok.expires_at later)) [
    | inl late ↦ rw late (λ h. cc)
    | inr good ↦ rw good (elim (List-cases (select (λ x. x.id == tok.device_id) t.devices)) [
      | inl e ↦ rw e (λ h. cc)
      | inr (d, rest, e) ↦ rw e (elim (Bool-cases (d.state == DeviceState.revoked)) [
        | inl r ↦ rw r (λ h. cc)
        | inr n ↦ rw n (λ h.
            let own : tok.device_id ≡ id = cc in
            let r = device_refused tok ((str_iff tok.device_id id).1 own) d rest e in cc)
      ])
    ])
  ]

  -- no token of a revoked device
  authorize_token_refused :
      (later : ℕ) (token : String) → (authorize_token later token (sound t)).0 ≢ ok id
  unfolding authorize_token get_token
  authorize_token_refused later token =
      elim (List-cases (select (λ x. x.value == token) t.access_tokens)) [
        | inl e ↦ rw e (λ h. cc)
        | inr (tok, rest, e) ↦ rw e (authorize_found_refused later tok)
      ]

  refresh_token_refused :
      (value : String) (later : ℕ) (public_key : String) (s : Service) (tok : AccessToken)
      → tok.device_id ≡ id
      → (refresh_token value later public_key s (sound t)).0 ≢ ok tok
  unfolding refresh_token get_device_by_key
  refresh_token_refused value later public_key s tok own =
      elim (List-cases (select (λ x. x.public_key == public_key) t.devices)) [
        | inl e ↦ rw e (λ h. cc)
        | inr (d, rest, e) ↦
            let found =
              first_of_select (λ d. (d.id == id) ≡ true → (d.state == DeviceState.revoked) ≡ true)
                (λ x. x.public_key == public_key) t.devices gone e in
            rw e (elim (Bool-cases (d.state == DeviceState.revoked)) [
              | inl r ↦ rw r (λ h. cc)
              | inr n ↦ rw n (λ h.
                  let own' : d.id ≡ id =
                    sym (issue_token_device value d.id later s.access_expiry (sound t) tok h)
                    ∙ own in
                  let r = found.0 ((str_iff d.id id).1 own') in cc)
            ])
      ]

revoke : ℕ → String → Device → Device
revoke now id x =
    if x.id == id then record x { state = DeviceState.revoked; revoked_at = some now } else x

AllRevoked-revoke :
    (now : ℕ) (id : String) (ds : List Device) → AllRevoked id (map (revoke now id) ds)
unfolding revoke
AllRevoked-revoke now id [] = tt
AllRevoked-revoke now id (d ∷ ds) = (
  elim (Bool-cases (d.id == id)) [ inl e ↦ rw e (λ h. refl) | inr n ↦ rw n (λ h. cc) ],
  AllRevoked-revoke now id ds,
)

revoke_device_devices :
    (now : ℕ) (id : String) (t : Tables)
    → (revoke_device now id (sound t)).0 ≡ ok tt
    → (revoke_device now id (sound t)).1.tables.devices ≡ map (revoke now id) t.devices
unfolding revoke_device get_device_by_id update_device revoke
revoke_device_devices now id t = elim (List-cases (select (λ x. x.id == id) t.devices)) [
  | inl e ↦ rw e (λ h. cc)
  | inr (d, rest, e) ↦
      let found =
        first_of_select (λ d. Unit {0}) (λ x. x.id == id) t.devices
          (All-intro _ t.devices (λ d. tt)) e in
      rw e (rw ((str_iff d.id id).0 found.1) (λ h. refl))
]

-- Where the driver does not fail and a revocation has succeeded, in the tables that it leaves no token
-- authorizes the device and no refresh gives a token of the device, whatever tokens stand in table
-- `access_tokens` and whatever the clock says.
pub revoke_device_final :
    (now later : ℕ) (id token value public_key : String) (s : Service) (tok : AccessToken)
    (tokens : List AccessToken) (t : Tables)
    → (revoke_device now id (sound t)).0 ≡ ok tt
    → tok.device_id ≡ id
    → let t' = record (revoke_device now id (sound t)).1.tables { access_tokens = tokens } in
      ((authorize_token later token (sound t')).0 ≢ ok id)
      × ((refresh_token value later public_key s (sound t')).0 ≢ ok tok)
revoke_device_final now later id token value public_key s tok tokens t h own =
    let t' = record (revoke_device now id (sound t)).1.tables { access_tokens = tokens } in
    let gone : AllRevoked id t'.devices =
      rw (revoke_device_devices now id t h) (AllRevoked-revoke now id t.devices) in
    (
      authorize_token_refused t' id gone later token,
      refresh_token_refused t' id gone value later public_key s tok own,
    )
