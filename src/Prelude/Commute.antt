-- ===== src/Prelude/Commute.antt =====
-- The order in which Go's integers are added up.
use Prim.Native.Nat.{ℕ, ◌+◌, ◌-◌, ◌%◌, ◌<◌}
use mathlib.Core.Path.{◌≡◌, refl, ap, ◌∙◌, sym}
use native.Mathlib.Omega.{arith}
use high_performance_llm_gat.Prelude.Tests.{ltb, if◌then◌else◌}
use high_performance_llm_gat.Prelude.Int.{
  ℤ, pos, negsuc, ◌+ℤ◌, wrap, sub_ℕ, pos_part, neg_part, int_mod, int_half,
}

-- The number modulo 2^64, and the value that 64 bits make of it.
abbrev residue : ℤ → ℕ
residue (pos n) = n % int_mod
residue (negsuc n) = int_mod - 1 - n % int_mod

abbrev back : ℕ → ℤ
back k = if ltb k int_half then pos k else negsuc (int_mod - 1 - k)

wrap-back : (a : ℤ) → wrap a ≡ back (residue a)
unfolding wrap
wrap-back (pos n) = refl
wrap-back (negsuc n) = ground arith

residue-back : (k : ℕ) → k < int_mod → residue (back k) ≡ k
residue-back k h = ground (arith, h)

residue-sub_ℕ : (p n : ℕ) → (residue (sub_ℕ p n) + n) % int_mod ≡ p % int_mod
residue-sub_ℕ p n = ground arith

residue_parts : (a : ℤ) → (residue a + neg_part a) % int_mod ≡ pos_part a % int_mod
residue_parts (pos n) = omega arith
residue_parts (negsuc n) = omega arith

residue_bound : (a : ℤ) → residue a < int_mod
residue_bound (pos n) = omega arith
residue_bound (negsuc n) = omega arith

-- Numbers below the modulus that agree after a shift are equal.
shift_injective :
    (r s n p : ℕ)
    → r < int_mod
    → s < int_mod
    → (r + n) % int_mod ≡ p % int_mod
    → (s + n) % int_mod ≡ p % int_mod
    → r ≡ s
shift_injective r s n p hr hs h k = omega (arith, hr, hs, h, k)

sum_parts :
    (ra rb na nb pa pb : ℕ)
    → (ra + na) % int_mod ≡ pa % int_mod
    → (rb + nb) % int_mod ≡ pb % int_mod
    → ((ra + rb) % int_mod + (na + nb)) % int_mod ≡ (pa + pb) % int_mod
sum_parts ra rb na nb pa pb h k = omega (arith, h, k)

mod_bound : (n : ℕ) → n % int_mod < int_mod
mod_bound n = omega arith

difference : ℤ → ℤ → ℤ
difference a b = sub_ℕ (pos_part a + pos_part b) (neg_part a + neg_part b)

residue-difference : (a b : ℤ) → residue (difference a b) ≡ (residue a + residue b) % int_mod
unfolding difference
residue-difference a b =
    shift_injective (residue (difference a b)) ((residue a + residue b) % int_mod)
      (neg_part a + neg_part b) (pos_part a + pos_part b) (residue_bound (difference a b))
      (mod_bound (residue a + residue b))
      (residue-sub_ℕ (pos_part a + pos_part b) (neg_part a + neg_part b))
      (sum_parts (residue a) (residue b) (neg_part a) (neg_part b) (pos_part a) (pos_part b)
        (residue_parts a) (residue_parts b))

-- The sum is the value of the sum of the residues.
+ℤ-back : (a b : ℤ) → a +ℤ b ≡ back ((residue a + residue b) % int_mod)
unfolding ◌+ℤ◌ difference
+ℤ-back a b = wrap-back (difference a b) ∙ ap back (residue-difference a b)

residue-+ℤ : (a b : ℤ) → residue (a +ℤ b) ≡ (residue a + residue b) % int_mod
residue-+ℤ a b = ap residue (+ℤ-back a b) ∙ residue-back _ (mod_bound (residue a + residue b))

mod_swap : (a b c : ℕ) → ((a + b) % int_mod + c) % int_mod ≡ ((a + c) % int_mod + b) % int_mod
mod_swap a b c = omega arith

-- Two numbers may be added in either order.
pub +ℤ_swap : (a b c : ℤ) → a +ℤ b +ℤ c ≡ a +ℤ c +ℤ b
+ℤ_swap a b c =
    +ℤ-back (a +ℤ b) c
    ∙ ap (λ r. back ((r + residue c) % int_mod)) (residue-+ℤ a b)
    ∙ ap back (mod_swap (residue a) (residue b) (residue c))
    ∙ sym (ap (λ r. back ((r + residue b) % int_mod)) (residue-+ℤ a c))
    ∙ sym (+ℤ-back (a +ℤ c) b)
