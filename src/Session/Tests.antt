-- ===== src/Session/Tests.antt =====
-- The theorems of the session package at concrete inputs.
use codeallremote.Prelude.{String, some, [], ◌∷◌, ◌≡◌, refl, string_eq}
use codeallremote.Prelude.Int.{pos}
use codeallremote.Prelude.Dict.{lookup, insert}
use codeallremote.Session.Idempotency.{Store, new_store, add, get}

abbrev sample_key : String
sample_key = "create-session-1"

abbrev ten_seconds : Store
ten_seconds = new_store 10

abbrev one_answer : Store
one_answer = add 5 sample_key (1 ∷ 2 ∷ []) (pos 201) ten_seconds

answer_at_expiry : get 15 sample_key one_answer ≡ some (1 ∷ 2 ∷ [], pos 201)
unfolding get add new_store lookup insert
answer_at_expiry = refl
