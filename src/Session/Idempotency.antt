-- ===== src/Session/Idempotency.antt =====
-- `IdempotencyStore` and `RequestValidator` of internal/session/manager.go. Each method holds the
-- store's lock for its whole body, so it is one step; the time that it reads is an argument. The
-- goroutine of `cleanupLoop` calls `cleanup` at times of its own.
use Prim.Native.String.{len}
use codeallremote.Prelude.{
  ℕ, ◌+◌, String, Bool, false, Option, none, some, List, ltb, if◌then◌else◌, ◌==◌, string_eq,
}
use codeallremote.Prelude.Int.{ℤ}
use codeallremote.Prelude.Dict.{Dict, lookup, insert, erase, prune}
use codeallremote.Prelude.Result.{Result, ok, err}

-- `idempotencyEntry`
pub record Entry : Type 0 where
  pub response : List ℕ
  pub status : ℤ
  pub created_at : ℕ
  pub expires_at : ℕ

-- `IdempotencyStore`, without its lock and the channel that ends the clean-up loop.
pub record Store : Type 0 where
  pub keys : Dict Entry
  pub expiry : ℕ

-- `NewIdempotencyStore`
unfoldable pub new_store : ℕ → Store
new_store expiry = record { keys = List.[]; expiry = expiry }

-- `Add`
unfoldable pub add : ℕ → String → List ℕ → ℤ → Store → Store
add now key response status s = record s {
  keys =
      insert key
        (record {
          response = response;
          status = status;
          created_at = now;
          expires_at = now + s.expiry;
        })
        s.keys;
}

-- `now.After(entry.expiresAt)`
abbrev pub is_expired : ℕ → Entry → Bool
is_expired now entry = ltb entry.expires_at now

-- The rest of `Get` once the map has been read.
abbrev pub fresh : ℕ → Option Entry → Option (List ℕ × ℤ)
fresh now none = none
fresh now (some entry) = if is_expired now entry then none else some (entry.response, entry.status)

-- `Get`
unfoldable pub get : ℕ → String → Store → Option (List ℕ × ℤ)
get now key s = fresh now (lookup key s.keys)

-- The rest of `Exists`: `time.Now().Before(entry.expiresAt)`.
abbrev pub before_expiry : ℕ → Option Entry → Bool
before_expiry now none = false
before_expiry now (some entry) = ltb now entry.expires_at

-- `Exists`
unfoldable pub has_key : ℕ → String → Store → Bool
has_key now key s = before_expiry now (lookup key s.keys)

-- `Delete`
unfoldable pub delete : String → Store → Store
delete key s = record s { keys = erase key s.keys }

-- `cleanup`
unfoldable pub cleanup : ℕ → Store → Store
cleanup now s = record s { keys = prune (is_expired now) s.keys }

-- `RequestValidator.CheckIdempotency`
unfoldable pub check_idempotency : ℕ → String → Store → Option (List ℕ × ℤ)
unfolding get
check_idempotency now key s = get now key s

pub data KeyError : Type 0 where
  empty too_short too_long : KeyError

-- `RequestValidator.ValidateKey`; `len` counts the bytes of the text.
unfoldable pub validate_key : String → Result KeyError (Unit {0})
validate_key key =
    if key == ""
    then err empty
    else if ltb (len key) 8
    then err too_short
    else if ltb 200 (len key)
    then err too_long
    else ok tt
