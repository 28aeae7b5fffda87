-- ===== src/Prelude/Lists.antt =====
-- Lists measured by native numbers, and Boolean tests over lists.
use Prim.Native.Nat.{ℕ, zero, suc, ◌-◌, ◌≤◌, min}
use mathlib.Core.Path.{◌≡◌, refl, subst, ap}
use mathlib.Core.List.{List, [], ◌∷◌, ◌++◌, map}
use mathlib.Core.Bool.{Bool, true, false, ◌||◌, ◌&&◌}
use native.Mathlib.Omega.{arith}
use codeallremote.Prelude.Tests.{if◌then◌else◌, Comparable, ◌==◌, string_eq, str_iff, Bool-cases}
use Prim.Native.String.{String}
use mathlib.Core.Logic.{◌⊎◌, inl, inr}

module _ {ℓ} {A : Type ℓ} where
  abbrev pub length : List A → ℕ
  length [] = 0
  length (x ∷ xs) = suc (length xs)

  abbrev pub take : ℕ → List A → List A
  take zero xs = []
  take (suc n) [] = []
  take (suc n) (x ∷ xs) = x ∷ take n xs

  abbrev pub drop : ℕ → List A → List A
  drop zero xs = xs
  drop (suc n) [] = []
  drop (suc n) (x ∷ xs) = drop n xs

  pub length-take : (n : ℕ) (xs : List A) → length (take n xs) ≡ min n (length xs)
  length-take zero xs = omega arith
  length-take (suc n) [] = omega arith
  length-take (suc n) (x ∷ xs) = omega (arith, length-take n xs)

  pub length-drop : (n : ℕ) (xs : List A) → length (drop n xs) ≡ length xs - n
  length-drop zero xs = omega arith
  length-drop (suc n) [] = omega arith
  length-drop (suc n) (x ∷ xs) = omega (arith, length-drop n xs)

  pub take-append-drop : (n : ℕ) (xs : List A) → take n xs ++ drop n xs ≡ xs
  take-append-drop zero xs = refl
  take-append-drop (suc n) [] = refl
  take-append-drop (suc n) (x ∷ xs) = rw (take-append-drop n xs)

  -- What the loops of the source keep: the elements that pass a test, in their order.
  abbrev pub select : (A → Bool) → List A → List A
  select p [] = []
  select p (x ∷ xs) = if p x then x ∷ select p xs else select p xs

  unfoldable pub any : (A → Bool) → List A → Bool
  any p [] = false
  any p (x ∷ xs) = p x || any p xs

  -- Every element of a list has a property.
  abbrev pub All {κ} : (A → Type κ) → List A → Type κ
  All P [] = Unit
  All P (x ∷ xs) = P x × All P xs

  pub length-select-le : (p : A → Bool) (xs : List A) → length (select p xs) ≤ length xs
  length-select-le p [] = omega arith
  length-select-le p (x ∷ xs) = ground (arith, length-select-le p xs)

module _ {ℓ} {A : Type ℓ} ⦃e : Comparable A⦄ where
  unfoldable pub contains : A → List A → Bool
  contains a [] = false
  contains a (x ∷ xs) = x == a || contains a xs

module _ {ℓ} {A : Type ℓ} where
  unfoldable pub all : (A → Bool) → List A → Bool
  all p [] = true
  all p (x ∷ xs) = p x && all p xs

-- A list whose elements all stand in another.
pub contains-all :
    (t : String) (xs ys : List String)
    → all (λ x. contains x ys) xs ≡ true
    → contains t xs ≡ true
    → contains t ys ≡ true
unfolding contains all
contains-all t [] ys h m = cc
contains-all t (x ∷ xs) ys h m = elim (Bool-cases (x == t)) [
  | inl e ↦ rw (← (str_iff x t).0 e) (ground arith)
  | inr n ↦ contains-all t xs ys (ground arith) (ground arith)
]

-- What holds of every listed text holds of one that the list contains.
pub contains-All {κ} :
    (P : String → Type κ) (s : String) (xs : List String) → All P xs → contains s xs ≡ true → P s
unfolding contains
contains-All P s [] h m = absurd (let e : false ≡ true = m in cc)
contains-All P s (x ∷ xs) h m = elim (Bool-cases (x == s)) [
  | inl e ↦ subst P ((str_iff x s).0 e) h.0
  | inr n ↦ contains-All P s xs h.1 (ground arith)
]

module _ {ℓ} {A : Type ℓ} where
  -- Two selections in a row.
  pub select-select :
      (p q : A → Bool) (xs : List A) → select (λ x. p x && q x) xs ≡ select q (select p xs)
  select-select p q [] = refl
  select-select p q (x ∷ xs) = ground (arith, select-select p q xs)

  pub All-select {κ} :
      (P : A → Type κ) (p : A → Bool) (xs : List A) → All P xs → All P (select p xs)
  All-select P p [] h = tt
  All-select P p (x ∷ xs) h = elim (Bool-cases (p x)) [
    | inl e ↦ rw e (h.0, All-select P p xs h.1)
    | inr n ↦ rw n (All-select P p xs h.1)
  ]

  -- What was selected passes the test.
  pub All-of_select {κ} :
      (P : A → Type κ) (p : A → Bool) (xs : List A)
      → ((x : A) → p x ≡ true → P x)
      → All P (select p xs)
  All-of_select P p [] h = tt
  All-of_select P p (x ∷ xs) h = elim (Bool-cases (p x)) [
    | inl e ↦ rw e (h x e, All-of_select P p xs h)
    | inr n ↦ rw n (All-of_select P p xs h)
  ]

  pub All-snoc {κ} : (P : A → Type κ) (xs : List A) (y : A) → All P xs → P y → All P (xs ++ y ∷ [])
  All-snoc P [] y h p = (p, tt)
  All-snoc P (x ∷ xs) y h p = (h.0, All-snoc P xs y h.1 p)

  pub select-snoc :
      (p : A → Bool) (xs : List A) (y : A)
      → p y ≡ true
      → select p (xs ++ y ∷ []) ≡ select p xs ++ y ∷ []
  select-snoc p [] y h = rw h refl
  select-snoc p (x ∷ xs) y h = ground (arith, select-snoc p xs y h)

  pub List-cases : (xs : List A) → (xs ≡ []) ⊎ ((x : A) × (rest : List A) × (xs ≡ x ∷ rest))
  List-cases [] = inl refl
  List-cases (x ∷ xs) = inr (x, xs, refl)

  pub All-intro {κ} : (P : A → Type κ) (xs : List A) → ((x : A) → P x) → All P xs
  All-intro P [] h = tt
  All-intro P (x ∷ xs) h = (h x, All-intro P xs h)

  -- The first of the selected elements has what all elements have, and passes the test.
  pub first_of_select {κ} :
      (P : A → Type κ) (p : A → Bool) (xs : List A) {x : A} {rest : List A}
      → All P xs
      → select p xs ≡ x ∷ rest
      → P x × (p x ≡ true)
  first_of_select P p [] h e = absurd (let f : [] ≡ _ ∷ _ = e in cc)
  first_of_select P p (y ∷ ys) {x} {rest} h e = elim (Bool-cases (p y)) [
    | inl t ↦
        let e' : y ∷ select p ys ≡ x ∷ rest = rw t at e in
        let s : y ≡ x = cc in (subst P s h.0, subst (λ z. p z ≡ true) s t)
    | inr n ↦ first_of_select P p ys h.1 (let e' : select p ys ≡ x ∷ rest = rw n at e in e')
  ]

  pub select-map :
      (p : A → Bool) (f : A → A) (xs : List A)
      → ((x : A) → p (f x) ≡ p x)
      → select p (map f xs) ≡ map f (select p xs)
  select-map p f [] h = refl
  select-map p f (x ∷ xs) h = elim (Bool-cases (p x)) [
    | inl e ↦ rw (h x) (rw e (ap (λ ys. f x ∷ ys) (select-map p f xs h)))
    | inr n ↦ rw (h x) (rw n (select-map p f xs h))
  ]

  pub select_none : (p : A → Bool) (xs : List A) → any p xs ≡ false → select p xs ≡ []
  unfolding any
  select_none p [] h = refl
  select_none p (x ∷ xs) h = ground (arith, select_none p xs)
