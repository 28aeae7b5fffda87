-- ===== src/Storage/States.antt =====
-- The state that table `sessions` gives for an id, under the statements that change it.
use codeallremote.Prelude.{
  ℕ, String, Bool, true, false, Option, none, some, List, [], ◌∷◌, ◌≡◌, refl, arith, ◌&&◌,
  if◌then◌else◌, ◌==◌, string_eq, str_iff, Bool-cases, inl, inr, ◌∙◌, ap,
}
use mathlib.Core.Option
use codeallremote.Domain.{Session}
use codeallremote.Storage.Sort.{sort_by, insert_by}
use codeallremote.Storage.Sessions.{has_id, matches, set_state, update_sessions}

-- The row of an id.
unfoldable pub find : String → List Session → Option Session
find id [] = none
find id (s ∷ rest) = if has_id id s then some s else find id rest

-- `PRIMARY KEY`: no two rows have one id.
unfoldable pub HasDistinctIds : List Session → Type 0
HasDistinctIds [] = Unit
HasDistinctIds (s ∷ rest) = (find s.id rest ≡ none) × HasDistinctIds rest

unfoldable pub state_of : String → List Session → Option String
unfolding find
state_of id [] = none
state_of id (s ∷ rest) = if has_id id s then some s.state else state_of id rest

pub state_of-find :
    (id : String) (rows : List Session)
    → state_of id rows ≡ Option.map (λ s. s.state) (find id rows)
unfolding state_of find
state_of-find id [] = refl
state_of-find id (s ∷ rest) = elim (Bool-cases (has_id id s)) [
  | inl e ↦ rw e refl
  | inr n ↦ rw n (state_of-find id rest)
]

-- Whether `UpdateState` accepts a row in this state.
abbrev pub accepts : Option String → String → Bool
accepts none q = true
accepts (some expected) q = q == expected

pub state_of-update :
    (now : ℕ) (id new_state : String) (expected : Option String) (j : String) (rows : List Session)
    → state_of j (update_sessions (matches id expected) (set_state now new_state) rows)
      ≡ Option.map (λ q. if id == j && accepts expected q then new_state else q) (state_of j rows)
unfolding state_of update_sessions
state_of-update now id new_state expected j [] = refl
state_of-update now id new_state none j (s ∷ rest) = ground (
  arith,
  str_iff s.id id,
  str_iff s.id j,
  str_iff id j,
  state_of-update now id new_state none j rest,
)
state_of-update now id new_state (some x) j (s ∷ rest) = ground (
  arith,
  str_iff s.id id,
  str_iff s.id j,
  str_iff id j,
  state_of-update now id new_state (some x) j rest,
)

find-insert_by :
    (le : Session → Session → Bool) (s : Session) (j : String) (rows : List Session)
    → find s.id rows ≡ none
    → find j (insert_by le s rows) ≡ find j (s ∷ rows)
unfolding find insert_by
find-insert_by le s j [] h = refl
find-insert_by le s j (r ∷ rest) h =
    ground (arith, str_iff r.id s.id, str_iff r.id j, str_iff s.id j, find-insert_by le s j rest)

-- Sorting the rows changes no look-up by id.
pub find-sort_by :
    (le : Session → Session → Bool) (j : String) (rows : List Session)
    → HasDistinctIds rows
    → find j (sort_by le rows) ≡ find j rows
unfolding sort_by find HasDistinctIds
find-sort_by le j [] h = refl
find-sort_by le j (s ∷ rest) h =
    find-insert_by le s j (sort_by le rest) (find-sort_by le s.id rest h.1 ∙ h.0)
    ∙ ap (λ o. if has_id j s then some s else o) (find-sort_by le j rest h.1)

find_missing :
    (s r : Session) (rest : List Session)
    → find s.id (r ∷ rest) ≡ none
    → ((r.id == s.id) ≡ false) × (find s.id rest ≡ none)
unfolding find
find_missing s r rest h = ground arith

HasDistinctIds-insert_by :
    (le : Session → Session → Bool) (s : Session) (rows : List Session)
    → find s.id rows ≡ none
    → HasDistinctIds rows
    → HasDistinctIds (insert_by le s rows)
unfolding insert_by HasDistinctIds find
HasDistinctIds-insert_by le s [] h d = (refl, tt)
HasDistinctIds-insert_by le s (r ∷ rest) h d =
    let (other, missing) = find_missing s r rest h in
    elim (Bool-cases (le s r)) [
      | inl e ↦ rw e (h, d)
      | inr n ↦ rw n (
        find-insert_by le s r.id rest missing
            ∙ ground (arith, str_iff s.id r.id, str_iff r.id s.id, d.0),
        HasDistinctIds-insert_by le s rest missing d.1,
      )
    ]

pub HasDistinctIds-sort_by :
    (le : Session → Session → Bool) (rows : List Session)
    → HasDistinctIds rows
    → HasDistinctIds (sort_by le rows)
unfolding sort_by HasDistinctIds
HasDistinctIds-sort_by le [] h = tt
HasDistinctIds-sort_by le (s ∷ rest) h =
    HasDistinctIds-insert_by le s (sort_by le rest) (find-sort_by le s.id rest h.1 ∙ h.0)
      (HasDistinctIds-sort_by le rest h.1)
