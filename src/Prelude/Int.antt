-- ===== src/Prelude/Int.antt =====
-- Go's `int` and `int64`: integers with the wrap-around of 64 bits written out.
use Prim.Native.Nat.{ℕ, suc, ◌+◌, ◌-◌, ◌*◌, ◌%◌, ◌^◌, ◌≤◌, ◌<◌}
use mathlib.Core.Path.{◌≡◌}
use mathlib.Core.Bool.{Bool}
use native.Mathlib.Omega.{arith}
use high_performance_llm_gat.Prelude.Tests.{ltb, leb, if◌then◌else◌}

-- `negsuc n` is -(n + 1).
pub data ℤ : Type 0 where
  pos : ℕ → ℤ
  negsuc : ℕ → ℤ

abbrev pub pos_part : ℤ → ℕ
pos_part (pos n) = n
pos_part (negsuc n) = 0

abbrev pub neg_part : ℤ → ℕ
neg_part (pos n) = 0
neg_part (negsuc n) = suc n

-- a - b, as an integer.
abbrev pub sub_ℕ : ℕ → ℕ → ℤ
sub_ℕ a b = if leb b a then pos (a - b) else negsuc (b - a - 1)

abbrev pub ltb_ℤ : ℤ → ℤ → Bool
ltb_ℤ a b = ltb (pos_part a + neg_part b) (pos_part b + neg_part a)

abbrev pub leb_ℤ : ℤ → ℤ → Bool
leb_ℤ a b = leb (pos_part a + neg_part b) (pos_part b + neg_part a)

abbrev pub int_mod : ℕ
int_mod = 2 ^ 64

abbrev pub int_half : ℕ
int_half = 2 ^ 63

-- The value that 64 bits keep of an integer.
unfoldable pub wrap : ℤ → ℤ
wrap (pos n) =
    if ltb (n % int_mod) int_half then pos (n % int_mod) else negsuc (int_mod - 1 - n % int_mod)
wrap (negsuc n) =
    if ltb (n % int_mod) int_half then negsuc (n % int_mod) else pos (int_mod - 1 - n % int_mod)

infixl 65 ◌+ℤ◌
-- Addition of Go's integers.
unfoldable pub ◌+ℤ◌ : ℤ → ℤ → ℤ
unfolding wrap
a +ℤ b = wrap (sub_ℕ (pos_part a + pos_part b) (neg_part a + neg_part b))

-- Adding numbers whose sum is in range is exact.
pub +ℤ-pos : (a b : ℕ) → a + b < int_half → pos a +ℤ pos b ≡ pos (a + b)
unfolding ◌+ℤ◌
+ℤ-pos a b h = ground arith

-- Sums stay in the range of 64 bits.
pub +ℤ_range : (a b : ℤ) → neg_part (a +ℤ b) ≤ int_half
unfolding ◌+ℤ◌
+ℤ_range a b = ground arith

-- The successor of an integer in range, wrapped or not, exceeds it by one at most.
pub pos_part-+ℤ_one : (a : ℤ) → neg_part a ≤ int_half → pos_part (a +ℤ pos 1) ≤ pos_part a + 1
unfolding ◌+ℤ◌
pos_part-+ℤ_one a h = ground arith

-- Sums and multiples with no wrap-around, for values that Go keeps in floating point.
unfoldable pub add_exact : ℤ → ℤ → ℤ
add_exact a b = sub_ℕ (pos_part a + pos_part b) (neg_part a + neg_part b)

unfoldable pub scale : ℕ → ℤ → ℤ
scale n a = sub_ℕ (n * pos_part a) (n * neg_part a)
