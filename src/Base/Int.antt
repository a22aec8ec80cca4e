-- ===== src/Base/Int.antt =====
-- Signed integers over the native numbers: the `int` values of the C code.
use Prim.Native.Nat.{ℕ, suc, ◌+◌, ◌-◌, ◌^◌, ◌%◌, ◌<◌}
use mathlib.Core.Path.{◌≡◌, refl}
use native.Mathlib.Omega.{arith}
use mathlib.Core.Bool.{true}
use libzio.Base.Tests.{leb, ltb, if◌then◌else◌}

-- `negsuc n` is -(n + 1).
pub data ℤ : Type 0 where
  pos : ℕ → ℤ
  negsuc : ℕ → ℤ

abbrev pub pos_part : ℤ → ℕ
pos_part (pos n) = n
pos_part (negsuc n) = 0

abbrev pub neg_part : ℤ → ℕ
neg_part (pos n) = 0
neg_part (negsuc n) = suc n

-- The integer that is `a` less `b`.
abbrev pub sub_ℕ : ℕ → ℕ → ℤ
sub_ℕ a b = if leb b a then pos (a - b) else negsuc (b - a - 1)

infixl 65 ◌+ℤ◌
unfoldable pub ◌+ℤ◌ : ℤ → ℤ → ℤ
a +ℤ b = sub_ℕ (pos_part a + pos_part b) (neg_part a + neg_part b)

-- `int n = a;` for a `size_t`: the low 32 bits, in two's complement.
abbrev pub as_int : ℕ → ℤ
as_int a = let low = a % 2 ^ 32 in if ltb low (2 ^ 31) then pos low else negsuc (2 ^ 32 - 1 - low)

-- An `int` that is given as an integer: the low 32 bits of it.
abbrev pub int_result : ℤ → ℤ
int_result (pos n) = as_int n
int_result (negsuc n) = as_int (2 ^ 32 - 1 - n % 2 ^ 32)

pub as_int_small : (a : ℕ) → a < 2 ^ 31 → as_int a ≡ pos a
as_int_small a h =
    let low : a % 2 ^ 32 ≡ a = omega arith in
    let small : ltb a (2 ^ 31) ≡ true = ground arith in rw (low, small) refl

-- `a++` and `a--`
abbrev pub incr : ℤ → ℤ
incr a = a +ℤ pos 1

abbrev pub decr : ℤ → ℤ
decr a = a +ℤ negsuc 0

-- `omega` reads a sum through its parts.
pub +ℤ_parts :
    (a b : ℤ)
    → pos_part (a +ℤ b) + neg_part a + neg_part b ≡ neg_part (a +ℤ b) + pos_part a + pos_part b
unfolding ◌+ℤ◌
+ℤ_parts a b = ground arith

pub eq_of_parts : (a b : ℤ) → pos_part a + neg_part b ≡ pos_part b + neg_part a → a ≡ b
eq_of_parts a b h = ground arith

pub ruleset int_laws = (arith, +ℤ_parts, eq_of_parts)

pub incr-pos : (n : ℕ) → incr (pos n) ≡ pos (suc n)
unfolding ◌+ℤ◌
incr-pos n = ground arith

pub decr-pos : (n : ℕ) → decr (pos (suc n)) ≡ pos n
unfolding ◌+ℤ◌
decr-pos n = ground arith
