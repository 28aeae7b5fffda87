-- ===== src/Prelude/Text.antt =====
-- The functions of Go's `strings` that the modelled code calls, on native texts.
use Prim.Native.Char.{Char, code}
use Prim.Native.String.{String, ◌++◌}
use codeallremote.Prelude.Tests.{
  if◌then◌else◌, ◌==◌, nat_eq, string_eq, nat_beq, nat_beq_iff, Bool-cases,
}
use mathlib.Core.Logic.{inl, inr}
use mathlib.Core.Path.{◌≡◌}
use mathlib.Core.Bool.{Bool, true, false, ◌||◌}
use mathlib.Core.Option.{Option, none, some}
use text.Mathlib.TextEquality.{Char-path}
use text.Mathlib.TextLemmas.{nil-append, cons-append}

abbrev same_char : Char → Char → Bool
same_char c d = nat_beq (code c) (code d)

-- What is left of a text after a prefix, if it has it.
unfoldable pub after_prefix : String → String → Option String
after_prefix String.[] s = some s
after_prefix (String.◌∷◌ c p) String.[] = none
after_prefix (String.◌∷◌ c p) (String.◌∷◌ d s) =
    let rest = after_prefix p s in if same_char c d then rest else none

abbrev has_some : {A : Type 0} → Option A → Bool
has_some none = false
has_some (some a) = true

abbrev or_text : String → Option String → String
or_text s none = s
or_text s (some r) = r

-- `strings.HasPrefix(s, prefix)`
unfoldable pub has_prefix : String → String → Bool
has_prefix s prefix = has_some (after_prefix prefix s)

-- `strings.TrimPrefix(s, prefix)`
unfoldable pub trim_prefix : String → String → String
trim_prefix s prefix = or_text s (after_prefix prefix s)

-- `strings.Contains(s, part)`
unfoldable pub contains_text : String → String → Bool
contains_text String.[] part = has_some (after_prefix part String.[])
contains_text (String.◌∷◌ c s) part =
    has_some (after_prefix part (String.◌∷◌ c s)) || contains_text s part

-- `strings.HasSuffix(s, suffix)`
unfoldable pub has_suffix : String → String → Bool
has_suffix String.[] suffix = String.[] == suffix
has_suffix (String.◌∷◌ c s) suffix = String.◌∷◌ c s == suffix || has_suffix s suffix

same_char-path : (c d : Char) → same_char c d ≡ true → c ≡ d
same_char-path c d e = Char-path c d ((nat_beq_iff (code c) (code d)).0 e)

pub append-after_prefix : (p s : String) {r : String} → after_prefix p s ≡ some r → s ≡ p ++ r
unfolding after_prefix
append-after_prefix String.[] s {r} e = cc (nil-append r)
append-after_prefix (String.◌∷◌ c p) String.[] e = absurd cc
append-after_prefix (String.◌∷◌ c p) (String.◌∷◌ d s) {r} e = elim (Bool-cases (same_char c d)) [
  | inl y ↦
      let f : after_prefix p s ≡ some r = rw y at e in
      cc (same_char-path c d y, append-after_prefix p s f, cons-append c p r)
  | inr n ↦ absurd (let f : none ≡ some r = rw n at e in cc)
]
