-- ===== src/Prelude/Dict.antt =====
-- A Go map with text keys, as an association list. The order of the list stands for the order in
-- which a `range` loop visits the map, which Go leaves open.
use codeallremote.Prelude.Tests.{if◌then◌else◌, ◌==◌, string_eq, str_iff, str_refl, Bool-cases}
use codeallremote.Prelude.Lists.{length}
use Prim.Native.Nat.{◌≤◌, ◌+◌}
use Prim.Native.String.{String}
use mathlib.Core.Path.{◌≡◌, refl, sym, ◌∙◌}
use mathlib.Core.Logic.{◌⊎◌, inl, inr}
use mathlib.Core.Bool.{Bool, true, false, ◌&&◌}
use mathlib.Core.Option
use mathlib.Core.Option.{Option, none, some}
use mathlib.Core.List.{List, [], ◌∷◌}
use native.Mathlib.Omega.{arith}

abbrev pub Dict {ℓ} : Type ℓ → Type ℓ
Dict V = List (String × V)

module _ {ℓ} {V : Type ℓ} where
  -- `v, ok := m[k]`
  unfoldable pub lookup : String → Dict V → Option V
  lookup k [] = none
  lookup k ((j, v) ∷ m) = if j == k then some v else lookup k m

  -- `delete(m, k)`
  unfoldable pub erase : String → Dict V → Dict V
  erase k [] = []
  erase k ((j, v) ∷ m) = if j == k then erase k m else (j, v) ∷ erase k m

  -- `m[k] = v`
  unfoldable pub insert : String → V → Dict V → Dict V
  insert key value [] = (key, value) ∷ []
  insert key value ((other, old) ∷ rest) =
      if other == key then (key, value) ∷ rest else (other, old) ∷ insert key value rest

  -- `for _, v := range m` where the body updates the entry in place
  unfoldable pub map_values : (V → V) → Dict V → Dict V
  map_values f [] = []
  map_values f ((j, v) ∷ m) = (j, f v) ∷ map_values f m

  -- `for k, v := range m { if p(v) { delete(m, k) } }`
  unfoldable pub prune : (V → Bool) → Dict V → Dict V
  prune p [] = []
  prune p ((j, v) ∷ m) = if p v then prune p m else (j, v) ∷ prune p m

  -- No key stands twice.
  abbrev pub IsMap : Dict V → Type ℓ
  IsMap [] = Unit
  IsMap ((k, v) ∷ m) = (lookup k m ≡ none) × IsMap m

  pub lookup-erase :
      (k j : String) (m : Dict V) → lookup j (erase k m) ≡ (if k == j then none else lookup j m)
  unfolding lookup erase
  lookup-erase k j [] = ground arith
  lookup-erase k j ((i, w) ∷ m) =
      ground (arith, str_iff k j, str_iff i k, str_iff i j, lookup-erase k j m)

  pub lookup-insert :
      (key other : String) (value : V) (entries : Dict V)
      → lookup other (insert key value entries)
        ≡ (if key == other then some value else lookup other entries)
  unfolding lookup insert
  lookup-insert key other value [] = refl
  lookup-insert key other value ((i, old) ∷ rest) =
      ground (
        arith,
        lookup-insert key other value rest,
        str_iff i key,
        str_iff i other,
        str_iff key other,
      )

  pub lookup-map_values :
      (f : V → V) (k : String) (m : Dict V) → lookup k (map_values f m) ≡ Option.map f (lookup k m)
  unfolding lookup map_values
  lookup-map_values f k [] = refl
  lookup-map_values f k ((j, v) ∷ m) = ground (arith, lookup-map_values f k m)

  pub lookup-prune-none :
      (p : V → Bool) (k : String) (m : Dict V) → lookup k m ≡ none → lookup k (prune p m) ≡ none
  unfolding lookup prune
  lookup-prune-none p k [] h = refl
  lookup-prune-none p k ((j, v) ∷ m) h = ground (arith, lookup-prune-none p k m)

  -- What a lookup finds after a pruning loop.
  abbrev pub keep_unless : (V → Bool) → Option V → Option V
  keep_unless p none = none
  keep_unless p (some v) = if p v then none else some v

  pub lookup-prune :
      (p : V → Bool) (k : String) (m : Dict V)
      → IsMap m
      → lookup k (prune p m) ≡ keep_unless p (lookup k m)
  unfolding lookup prune
  lookup-prune p k [] h = refl
  lookup-prune p k ((j, v) ∷ m) h = ground (
    arith,
    str_iff j k,
    lookup-prune p k m h.1,
    lookup-prune-none p j m h.0,
    lookup-prune-none p k m,
  )

  pub insert-IsMap : (k : String) (v : V) (m : Dict V) → IsMap m → IsMap (insert k v m)
  unfolding insert lookup
  insert-IsMap k v [] h = (refl, tt)
  insert-IsMap k v ((j, w) ∷ m) h =
      ground (arith, str_iff j k, str_iff k j, insert-IsMap k v m h.1, lookup-insert k j v m)

  pub prune-IsMap : (p : V → Bool) (m : Dict V) → IsMap m → IsMap (prune p m)
  unfolding prune
  prune-IsMap p [] h = tt
  prune-IsMap p ((j, v) ∷ m) h = ground (arith, prune-IsMap p m h.1, lookup-prune-none p j m h.0)

  pub length-insert-le : (k : String) (v : V) (m : Dict V) → length (insert k v m) ≤ length m + 1
  unfolding insert
  length-insert-le k v [] = omega arith
  length-insert-le k v ((j, w) ∷ m) = ground (arith, length-insert-le k v m)

  -- A test that every entry of a map passes holds of what a lookup finds.
  unfoldable pub all_entries : (String → V → Bool) → Dict V → Bool
  all_entries p [] = true
  all_entries p ((j, v) ∷ m) = p j v && all_entries p m

  pub lookup-all_entries :
      (p : String → V → Bool) (k : String) {v : V} (m : Dict V)
      → all_entries p m ≡ true
      → lookup k m ≡ some v
      → p k v ≡ true
  unfolding lookup all_entries
  lookup-all_entries p k {v} [] h e = cc
  lookup-all_entries p k {v} ((j, w) ∷ m) h e =
      ground (arith, str_iff j k, lookup-all_entries p k {v = v} m)

  pub erase-IsMap : (k : String) (m : Dict V) → IsMap m → IsMap (erase k m)
  unfolding erase
  erase-IsMap k [] h = tt
  erase-IsMap k ((j, v) ∷ m) h = ground (arith, erase-IsMap k m h.1, lookup-erase k j m)

  pub map_values-IsMap : (f : V → V) (m : Dict V) → IsMap m → IsMap (map_values f m)
  unfolding map_values
  map_values-IsMap f [] h = tt
  map_values-IsMap f ((j, v) ∷ m) h = (rw (lookup-map_values f j m, h.0), map_values-IsMap f m h.1)

  pub lookup-insert_self : (k : String) (v : V) (m : Dict V) → lookup k (insert k v m) ≡ some v
  lookup-insert_self k v m = rw (lookup-insert k k v m) (rw (str_refl k) refl)

  pub lookup-insert_ne :
      (k j : String) (v : V) (m : Dict V) → (k == j) ≡ false → lookup j (insert k v m) ≡ lookup j m
  lookup-insert_ne k j v m ne = rw (lookup-insert k j v m) (rw ne refl)

  pub all_entries-insert :
      (p : String → V → Bool) (k : String) (v : V) (m : Dict V)
      → p k v ≡ true
      → all_entries p m ≡ true
      → all_entries p (insert k v m) ≡ true
  unfolding all_entries insert
  all_entries-insert p k v [] h hs = rw h refl
  all_entries-insert p k v ((j, w) ∷ m) h hs = ground (arith, all_entries-insert p k v m h)

  pub all_entries-map_values :
      (p : String → V → Bool) (f : V → V) (m : Dict V)
      → ((k : String) (v : V) → p k v ≡ true → p k (f v) ≡ true)
      → all_entries p m ≡ true
      → all_entries p (map_values f m) ≡ true
  unfolding all_entries map_values
  all_entries-map_values p f [] h hs = refl
  all_entries-map_values p f ((j, v) ∷ m) h hs =
      ground (arith, h j v, all_entries-map_values p f m h)

  -- An entry of a map after `insert` is the new one or an old one, and after `erase` an old one.
  pub insert_found :
      (k j : String) (v w : V) (m : Dict V)
      → lookup j (insert k v m) ≡ some w
      → ((k ≡ j) × (v ≡ w)) ⊎ (lookup j m ≡ some w)
  insert_found k j v w m e = elim (Bool-cases (k == j)) [
    | inl y ↦ inl (
      (str_iff k j).0 y,
      (let f : some v ≡ some w = rw y at (sym (lookup-insert k j v m) ∙ e) in cc),
    )
    | inr n ↦ inr (let f : lookup j m ≡ some w = rw n at (sym (lookup-insert k j v m) ∙ e) in f)
  ]

  pub erase_found :
      (k j : String) (w : V) (m : Dict V)
      → lookup j (erase k m) ≡ some w
      → ((k == j) ≡ false) × (lookup j m ≡ some w)
  erase_found k j w m e = elim (Bool-cases (k == j)) [
    | inl y ↦ absurd (let f : none ≡ some w = rw y at (sym (lookup-erase k j m) ∙ e) in cc)
    | inr n ↦ (n, (let f : lookup j m ≡ some w = rw n at (sym (lookup-erase k j m) ∙ e) in f))
  ]
