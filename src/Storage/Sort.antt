-- ===== src/Storage/Sort.antt =====
-- `ORDER BY`: insertion sort by a test on two rows.
use codeallremote.Prelude.{
  Bool, true, List, [], ◌∷◌, ◌≡◌, refl, if◌then◌else◌, select, All, Bool-cases, inl, inr, arith,
}

module _ {A : Type 0} where
  unfoldable pub insert_by : (A → A → Bool) → A → List A → List A
  insert_by le x [] = x ∷ []
  insert_by le x (y ∷ ys) = if le x y then x ∷ y ∷ ys else y ∷ insert_by le x ys

  unfoldable pub sort_by : (A → A → Bool) → List A → List A
  unfolding insert_by
  sort_by le [] = []
  sort_by le (x ∷ xs) = insert_by le x (sort_by le xs)

  -- `WHERE` and `ORDER BY` commute for a test that passes whatever comes after a row that passes.
  insert_by-select :
      (le : A → A → Bool) (p : A → Bool) (x : A) (ys : List A)
      → ((a b : A) → le a b ≡ true → p a ≡ true → p b ≡ true)
      → select p (insert_by le x ys) ≡ (if p x then insert_by le x (select p ys) else select p ys)
  unfolding insert_by
  insert_by-select le p x [] up = refl
  insert_by-select le p x (y ∷ ys) up = ground (arith, insert_by-select le p x ys up, up x y)

  pub sort_by-select :
      (le : A → A → Bool) (p : A → Bool) (xs : List A)
      → ((a b : A) → le a b ≡ true → p a ≡ true → p b ≡ true)
      → select p (sort_by le xs) ≡ sort_by le (select p xs)
  unfolding sort_by
  sort_by-select le p [] up = refl
  sort_by-select le p (x ∷ xs) up = rw (insert_by-select le p x (sort_by le xs) up) (
      rw (sort_by-select le p xs up)
        (elim (Bool-cases (p x)) [ inl e ↦ rw e refl | inr n ↦ rw n refl ]))

  All-insert_by :
      (P : A → Type 0) (le : A → A → Bool) (x : A) (ys : List A)
      → P x
      → All P ys
      → All P (insert_by le x ys)
  unfolding insert_by
  All-insert_by P le x [] h hs = (h, tt)
  All-insert_by P le x (y ∷ ys) h hs = elim (Bool-cases (le x y)) [
    | inl e ↦ rw e (h, hs)
    | inr n ↦ rw n (hs.0, All-insert_by P le x ys h hs.1)
  ]

  pub All-sort_by :
      (P : A → Type 0) (le : A → A → Bool) (xs : List A) → All P xs → All P (sort_by le xs)
  unfolding sort_by
  All-sort_by P le [] h = tt
  All-sort_by P le (x ∷ xs) h = All-insert_by P le x (sort_by le xs) h.0 (All-sort_by P le xs h.1)
