-- ===== src/Prelude/Tally.antt =====
-- Sums over the elements of a list that pass a test, in 64 bits.
use Prim.Native.Nat.{◌<◌}
use mathlib.Core.Path.{◌≡◌, refl, ap, ◌∙◌, sym}
use mathlib.Core.Bool.{Bool, true, false, ◌&&◌}
use mathlib.Core.List.{List, [], ◌∷◌, Perm, foldr}
use mathlib.Core.List.Perm
use mathlib.Core.Logic.{inl, inr}
use native.Mathlib.Omega.{arith}
use high_performance_llm_gat.Prelude.Tests.{if◌then◌else◌, Bool-cases}
use high_performance_llm_gat.Prelude.Lists.{length}
use high_performance_llm_gat.Prelude.Commute.{+ℤ_swap}
use high_performance_llm_gat.Prelude.Int.{ℤ, pos, ◌+ℤ◌, +ℤ-pos, int_half}

-- `if test { total += n }`
abbrev pub add_if : Bool → ℤ → ℤ → ℤ
add_if test n total = if test then total +ℤ n else total

module _ {ℓ} {A : Type ℓ} where
  -- The elements that pass a test.
  abbrev pub only : (A → Bool) → List A → List A
  only p [] = []
  only p (x ∷ xs) = if p x then x ∷ only p xs else only p xs

  -- The sum of a number of each element that passes a test, in 64 bits. The last element is the
  -- first that was added.
  abbrev pub tally : (A → Bool) → (A → ℤ) → List A → ℤ
  tally p f [] = pos 0
  tally p f (x ∷ xs) = add_if (p x) (f x) (tally p f xs)

  abbrev pub every : A → Bool
  every x = true

  -- The number of elements, in 64 bits.
  abbrev pub count : List A → ℤ
  count xs = tally every (λ x. pos 1) xs

  -- The count is the length as long as that is in range.
  pub count_exact : (xs : List A) → length xs < int_half → count xs ≡ pos (length xs)
  count_exact [] h = refl
  count_exact (x ∷ xs) h =
      ap (λ (n : ℤ). n +ℤ pos 1) (count_exact xs (omega arith))
      ∙ +ℤ-pos (length xs) 1 (omega arith)
      ∙ ap pos (omega arith)

add_if_swap : (p q : Bool) (a b n : ℤ) → add_if p a (add_if q b n) ≡ add_if q b (add_if p a n)
add_if_swap true true a b n = +ℤ_swap n b a
add_if_swap true false a b n = refl
add_if_swap false true a b n = refl
add_if_swap false false a b n = refl

ℤ-IsSet : IsSet ℤ
ℤ-IsSet = hlevel

module _ {ℓ} {A : Type ℓ} where
  tally-foldr :
      (p : A → Bool) (f : A → ℤ) (xs : List A)
      → tally p f xs ≡ foldr (λ x n. add_if (p x) (f x) n) (pos 0) xs
  tally-foldr p f [] = refl
  tally-foldr p f (x ∷ xs) = ap (add_if (p x) (f x)) (tally-foldr p f xs)

  -- A sum does not depend on the order of the elements.
  pub tally-perm :
      (p : A → Bool) (f : A → ℤ) {xs ys : List A} → Perm xs ys → tally p f xs ≡ tally p f ys
  tally-perm p f {xs} {ys} h =
      tally-foldr p f xs
      ∙ Perm.foldr-eq ℤ-IsSet (λ x n. add_if (p x) (f x) n)
          (λ x y n. add_if_swap (p x) (p y) (f x) (f y) n) h (pos 0)
      ∙ sym (tally-foldr p f ys)

  -- A sum over the elements that pass a test, as one sum.
  tally-only :
      (p q : A → Bool) (f : A → ℤ) (xs : List A)
      → tally p f (only q xs) ≡ tally (λ x. q x && p x) f xs
  tally-only p q f [] = refl
  tally-only p q f (x ∷ xs) = elim (Bool-cases (q x)) [
    | inl good ↦ rw good (ap (add_if (p x) (f x)) (tally-only p q f xs))
    | inr bad ↦ rw bad (tally-only p q f xs)
  ]

  pub tally-only-perm :
      (p q : A → Bool) (f : A → ℤ) {xs ys : List A}
      → Perm xs ys
      → tally p f (only q xs) ≡ tally p f (only q ys)
  tally-only-perm p q f {xs} {ys} h =
      tally-only p q f xs ∙ tally-perm (λ x. q x && p x) f h ∙ sym (tally-only p q f ys)
