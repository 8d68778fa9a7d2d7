-- ===== src/Prelude/Sorting.antt =====
-- Go's sort.Slice as insertion sort. `first x y` says that `x` may stand in front of `y`; among
-- elements that may stand both ways Go may choose any order.
use mathlib.Core.Path.{◌≡◌, refl, ap, ◌∙◌}
use mathlib.Core.Bool.{Bool, true, false}
use mathlib.Core.List.{List, [], ◌∷◌, Perm}
use mathlib.Core.List.Perm
use Prim.Native.Nat.{ℕ, zero, suc}
use mathlib.Core.Logic.{inl, inr}
use high_performance_llm_gat.Prelude.Tests.{if◌then◌else◌, Bool-cases}
use high_performance_llm_gat.Prelude.Lists.{length, take, drop, All}

module _ {ℓ} {A : Type ℓ} (first : A → A → Bool) where
  unfoldable pub insert_by : A → List A → List A
  insert_by x [] = x ∷ []
  insert_by x (y ∷ ys) = let rest = insert_by x ys in if first x y then x ∷ (y ∷ ys) else y ∷ rest

  unfoldable pub sort_by : List A → List A
  unfolding insert_by
  sort_by [] = []
  sort_by (x ∷ xs) = insert_by x (sort_by xs)

  insert_by-perm : (x : A) (ys : List A) → Perm (insert_by x ys) (x ∷ ys)
  unfolding insert_by
  insert_by-perm x [] = Perm.refl (x ∷ [])
  insert_by-perm x (y ∷ ys) = elim (Bool-cases (first x y)) [
    | inl here ↦ rw here (Perm.refl (x ∷ (y ∷ ys)))
    | inr later ↦ rw later (Perm.trans (Perm.cons y (insert_by-perm x ys)) (Perm.swap x y ys))
  ]

  -- Sorting loses nothing and adds nothing.
  pub sort_by-perm : (xs : List A) → Perm (sort_by xs) xs
  unfolding sort_by
  sort_by-perm [] = Perm.refl []
  sort_by-perm (x ∷ xs) = Perm.trans (insert_by-perm x (sort_by xs)) (Perm.cons x (sort_by-perm xs))

  length-insert_by : (x : A) (ys : List A) → length (insert_by x ys) ≡ suc (length ys)
  unfolding insert_by
  length-insert_by x [] = refl
  length-insert_by x (y ∷ ys) = elim (Bool-cases (first x y)) [
    | inl here ↦ rw here refl
    | inr later ↦ rw later (ap suc (length-insert_by x ys))
  ]

  pub length-sort_by : (xs : List A) → length (sort_by xs) ≡ length xs
  unfolding sort_by
  length-sort_by [] = refl
  length-sort_by (x ∷ xs) = length-insert_by x (sort_by xs) ∙ ap suc (length-sort_by xs)

  abbrev pub Before : A → A → Type 0
  Before x y = first x y ≡ true

  -- The test orders all elements.
  pub record IsOrder : Type ℓ where
    pub total : (x y : A) → first x y ≡ false → first y x ≡ true
    pub trans : (x y z : A) → first x y ≡ true → first y z ≡ true → first x z ≡ true

  abbrev pub IsSorted : List A → Type 0
  IsSorted [] = Unit
  IsSorted (x ∷ xs) = All (Before x) xs × IsSorted xs

  module _ (o : IsOrder) where
    All-Before-trans : (x y : A) (ys : List A) → Before x y → All (Before y) ys → All (Before x) ys
    All-Before-trans x y [] h a = tt
    All-Before-trans x y (z ∷ zs) h a = (o.trans x y z h a.0, All-Before-trans x y zs h a.1)

    insert_by-Before :
        (x y : A) (ys : List A) → Before y x → All (Before y) ys → All (Before y) (insert_by x ys)
    unfolding insert_by
    insert_by-Before x y [] h a = (h, tt)
    insert_by-Before x y (z ∷ zs) h a = elim (Bool-cases (first x z)) [
      | inl here ↦ rw here (h, a)
      | inr later ↦ rw later (a.0, insert_by-Before x y zs h a.1)
    ]

    insert_by-IsSorted : (x : A) (ys : List A) → IsSorted ys → IsSorted (insert_by x ys)
    unfolding insert_by
    insert_by-IsSorted x [] s = (tt, tt)
    insert_by-IsSorted x (y ∷ ys) s = elim (Bool-cases (first x y)) [
      | inl here ↦ rw here ((here, All-Before-trans x y ys here s.0), s)
      | inr later ↦
          rw later (insert_by-Before x y ys (o.total x y later) s.0, insert_by-IsSorted x ys s.1)
    ]

    sort_by-IsSorted : (xs : List A) → IsSorted (sort_by xs)
    unfolding sort_by
    sort_by-IsSorted [] = tt
    sort_by-IsSorted (x ∷ xs) = insert_by-IsSorted x (sort_by xs) (sort_by-IsSorted xs)

    split-IsSorted :
        (n : ℕ) (xs : List A) → IsSorted xs → All (λ x. All (Before x) (drop n xs)) (take n xs)
    split-IsSorted zero xs s = tt
    split-IsSorted (suc n) [] s = tt
    split-IsSorted (suc n) (x ∷ xs) s = (All-drop n xs s.0, split-IsSorted n xs s.1)
      where
        All-drop : (n : ℕ) (ys : List A) → All (Before x) ys → All (Before x) (drop n ys)
        All-drop zero ys a = a
        All-drop (suc n) [] a = tt
        All-drop (suc n) (y ∷ ys) a = All-drop n ys a.1

    -- Of a sorted list, each of the first elements may stand in front of all those behind them.
    pub split-sort_by :
        (n : ℕ) (xs : List A)
        → All (λ x. All (Before x) (drop n (sort_by xs))) (take n (sort_by xs))
    split-sort_by n xs = split-IsSorted n (sort_by xs) (sort_by-IsSorted xs)

    -- So does each element in front of the later ones among the first.
    pub take-IsSorted : (n : ℕ) (xs : List A) → IsSorted (take n (sort_by xs))
    take-IsSorted n xs = first_ones n (sort_by xs) (sort_by-IsSorted xs)
      where
        All-take : (n : ℕ) (x : A) (ys : List A) → All (Before x) ys → All (Before x) (take n ys)
        All-take zero x ys a = tt
        All-take (suc n) x [] a = tt
        All-take (suc n) x (y ∷ ys) a = (a.0, All-take n x ys a.1)

        first_ones : (n : ℕ) (ys : List A) → IsSorted ys → IsSorted (take n ys)
        first_ones zero ys s = tt
        first_ones (suc n) [] s = tt
        first_ones (suc n) (y ∷ ys) s = (All-take n y ys s.0, first_ones n ys s.1)
