-- ===== src/Identity/Pairing.antt =====
-- Pairing challenges: a code is good for one attempt, and the number of challenges is bounded.
use codeallremote.Prelude.{
  ℕ, ◌+◌, ◌≤◌, ◌<◌, String, true, false, Option, none, some, ◌≡◌, refl, string_eq, ltb, length,
  arith, Bool-cases, inl, inr,
}
use codeallremote.Prelude.Dict.{Dict, lookup, lookup-insert_self, length-insert-le}
use codeallremote.Prelude.Result.{Result, ok, err}
use codeallremote.Storage.Database.{Db}
use codeallremote.Identity.Service.{
  Service, Challenge, IdentityError, challenge_expired, create_challenge, evict, max_challenges,
  claim, mark_used, pair_device, pair_claimed,
}

claim_used :
    (now : ℕ) (code : String) (ch : Challenge) (s : Service)
    → lookup code s.challenges ≡ some ch
    → ch.used ≡ true
    → claim now code s ≡ (s, err challenge_expired)
unfolding claim
claim_used now code ch s h u = rw h (rw u refl)

claim-mark_used :
    (later : ℕ) (code : String) (ch : Challenge) (s : Service)
    → claim later code (mark_used code ch s) ≡ (mark_used code ch s, err challenge_expired)
claim-mark_used later code ch s =
    claim_used later code (record ch { used = true }) (mark_used code ch s)
      (lookup-insert_self code (record ch { used = true }) s.challenges) refl

claim_twice :
    (now later : ℕ) (code : String) (ch : Challenge) (s : Service)
    → lookup code s.challenges ≡ some ch
    → claim later code (claim now code s).0 ≡ ((claim now code s).0, err challenge_expired)
unfolding claim
claim_twice now later code ch s h = elim (Bool-cases ch.used) [
  | inl u ↦ rw (claim_used now code ch s h u) (claim_used later code ch s h u)
  | inr n ↦
      rw (h, claim)
        (rw n (elim (Bool-cases (ltb ch.expires_at now)) [
          | inl e ↦ rw e (claim-mark_used later code ch s)
          | inr f ↦ rw f (claim-mark_used later code ch s)
        ]))
]

pair_device_service :
    (device_id token_value : String) (now : ℕ) (code name public_key : String) (s : Service)
    (db : Db)
    → (pair_device device_id token_value now code name public_key s db).0 ≡ (claim now code s).0
unfolding pair_device
pair_device_service device_id token_value now code name public_key s db = go (claim now code s)
  where
    go :
        (c : Service × Result IdentityError ℕ)
        → (pair_claimed device_id token_value name public_key now c db).0 ≡ c.0
    go (s', err e) = refl
    go (s', ok ttl) = refl

-- A pairing code of a challenge that the service holds, once tried with whatever outcome, pairs no other
-- device: the next attempt with it is answered that the challenge is used up, and touches neither the
-- service nor the database.
pub pair_device_twice :
    (device_id token_value : String) (now : ℕ) (code name public_key : String) (ch : Challenge)
    (s : Service) (db : Db) (device_id' token_value' : String) (later : ℕ)
    (name' public_key' : String) (db' : Db)
    → lookup code s.challenges ≡ some ch
    → let s' = (pair_device device_id token_value now code name public_key s db).0 in
      pair_device device_id' token_value' later code name' public_key' s' db'
      ≡ (s', err challenge_expired, db')
unfolding pair_device
pair_device_twice device_id token_value now code name public_key ch s db device_id' token_value'
      later name' public_key' db' h =
    rw (pair_device_service device_id token_value now code name public_key s db)
      (rw (claim_twice now later code ch s h) refl)

evict_bound : (now : ℕ) (m : Dict Challenge) → length (evict now m) < max_challenges
unfolding evict
evict_bound now m = ground arith

-- Where there are at most 1024 challenges, there still are after `CreateChallenge`.
pub create_challenge_bound :
    (ttl now : ℕ) (code : Option String) (s : Service)
    → length s.challenges ≤ max_challenges
    → length (create_challenge ttl now code s).0.challenges ≤ max_challenges
unfolding create_challenge
create_challenge_bound ttl now none s h = h
create_challenge_bound ttl now (some code) s h = omega (
  arith,
  evict_bound now s.challenges,
  length-insert-le code
      (record { code = code; expires_at = now + ttl; used = false; created_at = now })
      (evict now s.challenges),
)
