-- ===== src/Session/Boundary.antt =====
-- The clean-up of the idempotency store is not observed.
use codeallremote.Prelude.{
  ℕ, ◌≤◌, String, Bool, false, Option, none, some, List, ◌≡◌, refl, ◌||◌, ◌==◌, string_eq, is_some,
  arith, nat_eq,
}
use codeallremote.Prelude.Int.{ℤ}
use codeallremote.Prelude.Dict.{
  IsMap, lookup, keep_unless, lookup-prune, insert-IsMap, prune-IsMap, erase-IsMap,
}
use codeallremote.Session.Idempotency.{
  Entry, Store, add, get, delete, cleanup, fresh, is_expired, before_expiry, new_store,
}

-- The keys of the store's map are distinct, as those of a Go map are.
pub IsValid : Store → Type 0
IsValid s = IsMap s.keys

fresh-keep_unless :
    (now later : ℕ) (o : Option Entry)
    → now ≤ later
    → fresh later (keep_unless (is_expired now) o) ≡ fresh later o
fresh-keep_unless now later none le = refl
fresh-keep_unless now later (some e) le = ground arith

-- In a store whose keys are distinct, cleaning up at one time changes no answer of `Get` at that time or
-- a later one.
get-cleanup :
    (now later : ℕ) (key : String) (s : Store)
    → IsValid s
    → now ≤ later
    → get later key (cleanup now s) ≡ get later key s
unfolding get cleanup IsValid
get-cleanup now later key s h le =
    rw (lookup-prune (is_expired now) key s.keys h)
      (fresh-keep_unless now later (lookup key s.keys) le)

-- Whether an entry was found that expires at this very instant.
abbrev pub expires_now : ℕ → Option Entry → Bool
expires_now now none = false
expires_now now (some e) = e.expires_at == now

found-or_expires_now :
    (now : ℕ) (o : Option Entry) → is_some (fresh now o) ≡ before_expiry now o || expires_now now o
found-or_expires_now now none = refl
found-or_expires_now now (some e) = ground arith

-- Every operation keeps the keys distinct.
pub new_store-IsValid : (expiry : ℕ) → IsValid (new_store expiry)
unfolding IsValid new_store
new_store-IsValid expiry = tt

pub add-IsValid :
    (now : ℕ) (key : String) (response : List ℕ) (status : ℤ) (s : Store)
    → IsValid s
    → IsValid (add now key response status s)
unfolding IsValid add
add-IsValid now key response status s h = insert-IsMap key _ s.keys h

pub delete-IsValid : (key : String) (s : Store) → IsValid s → IsValid (delete key s)
unfolding IsValid delete
delete-IsValid key s h = erase-IsMap key s.keys h

pub cleanup-IsValid : (now : ℕ) (s : Store) → IsValid s → IsValid (cleanup now s)
unfolding IsValid cleanup
cleanup-IsValid now s h = prune-IsMap (is_expired now) s.keys h
