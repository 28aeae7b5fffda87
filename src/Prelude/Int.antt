-- ===== src/Prelude/Int.antt =====
-- Signed integers over the native numbers, with the 64-bit ones of the source.
use Prim.Native.Nat.{ℕ, suc, ◌+◌, ◌-◌, ◌≤◌, ◌<◌}
use mathlib.Core.Path.{◌≡◌}
use mathlib.Core.Logic.{◌≢◌}
use native.Mathlib.Decide.{dec_lt}
use mathlib.Core.Bool.{Bool, true}
use native.Mathlib.Omega.{arith}
use codeallremote.Prelude.Tests.{ltb, leb, nat_beq, if◌then◌else◌}

-- `negsuc n` is -(n + 1).
pub data ℤ : Type 0 where
  pos : ℕ → ℤ
  negsuc : ℕ → ℤ

abbrev pub pos_part : ℤ → ℕ
pos_part (pos n) = n
pos_part (negsuc n) = 0

abbrev pub neg_part : ℤ → ℕ
neg_part (pos n) = 0
neg_part (negsuc n) = suc n

infix 50 ◌≤ℤ◌ ◌<ℤ◌
abbrev pub ◌≤ℤ◌ : ℤ → ℤ → Type 0
a ≤ℤ b = pos_part a + neg_part b ≤ pos_part b + neg_part a

abbrev pub ◌<ℤ◌ : ℤ → ℤ → Type 0
a <ℤ b = pos_part a + neg_part b < pos_part b + neg_part a

abbrev pub ltb_ℤ : ℤ → ℤ → Bool
ltb_ℤ a b = ltb (pos_part a + neg_part b) (pos_part b + neg_part a)

abbrev pub leb_ℤ : ℤ → ℤ → Bool
leb_ℤ a b = leb (pos_part a + neg_part b) (pos_part b + neg_part a)

abbrev pub eqb_ℤ : ℤ → ℤ → Bool
eqb_ℤ a b = nat_beq (pos_part a + neg_part b) (pos_part b + neg_part a)

pub eq_of_parts : (a b : ℤ) → pos_part a + neg_part b ≡ pos_part b + neg_part a → a ≡ b
eq_of_parts a b h = ground arith

abbrev pub max_int64 : ℕ
max_int64 = 9223372036854775807

-- `x + 1` on an `int64`: the largest value wraps to the smallest.
unfoldable pub inc64 : ℤ → ℤ
inc64 (pos n) = if nat_beq n max_int64 then negsuc max_int64 else pos (suc n)
inc64 (negsuc n) = if nat_beq n 0 then pos 0 else negsuc (n - 1)

pub inc64-lt : (a : ℤ) → a <ℤ pos max_int64 → a <ℤ inc64 a
unfolding inc64
inc64-lt a h = ground arith

pub inc64-le_of_lt : (a b : ℤ) → a <ℤ b → b ≤ℤ pos max_int64 → inc64 a ≤ℤ b
unfolding inc64
inc64-le_of_lt a b h k = ground arith

pub lt-of_leb_ne : (a b : ℤ) → leb_ℤ a b ≡ true → b ≢ a → a <ℤ b
lt-of_leb_ne a b h ne = elim (dec_lt (pos_part a + neg_part b) (pos_part b + neg_part a)) [
  | yes lt ↦ lt
  | no nlt ↦ absurd (ne (eq_of_parts b a (ground arith)))
]

-- `a - b` on `int64`: what is above the largest value, or below the smallest, wraps around.
abbrev pub of_parts : ℕ → ℕ → ℤ
of_parts p n = if leb n p then pos (p - n) else negsuc (n - p - 1)

abbrev pub wrap64 : ℤ → ℤ
wrap64 (pos n) = if leb n max_int64 then pos n else negsuc (18446744073709551615 - n)
wrap64 (negsuc n) = if leb n max_int64 then negsuc n else pos (18446744073709551615 - n)

unfoldable pub sub64 : ℤ → ℤ → ℤ
sub64 a b = wrap64 (of_parts (pos_part a + neg_part b) (pos_part b + neg_part a))
