-- ===== src/Prelude/Dict.antt =====
-- Go's maps with text keys, as association lists, and sets of texts.
use Prim.Native.String.{String}
use mathlib.Core.Path.{◌≡◌, refl}
use mathlib.Core.Bool.{Bool, false, ◌||◌}
use mathlib.Core.Option.{Option, none, some}
use mathlib.Core.List.{List, [], ◌∷◌}
use native.Mathlib.Omega.{arith}
use text.Mathlib.Text.{◌==◌}
use text.Mathlib.TextEquality.{eq_iff}
use text.Mathlib.TextPositions.{eq_refl}
use high_performance_llm_gat.Prelude.Tests.{if◌then◌else◌}

module _ {ℓ} {V : Type ℓ} where
  -- `m[key]`, none for a key that is missing
  unfoldable pub lookup : String → List (String × V) → Option V
  lookup key [] = none
  lookup key ((name, value) ∷ table) = if name == key then some value else lookup key table

  -- `delete(m, key)`
  unfoldable pub erase : String → List (String × V) → List (String × V)
  erase key [] = []
  erase key ((name, value) ∷ table) =
      let rest = erase key table in if name == key then rest else (name, value) ∷ rest

  -- `m[key] = value`
  unfoldable pub insert : String → V → List (String × V) → List (String × V)
  insert key value [] = (key, value) ∷ []
  insert key value ((name, old) ∷ table) =
      let rest = insert key value table in
      if name == key then (key, value) ∷ table else (name, old) ∷ rest

  pub lookup-erase :
      (key other : String) (table : List (String × V))
      → lookup other (erase key table) ≡ (if key == other then none else lookup other table)
  unfolding lookup erase
  lookup-erase key other [] = ground arith
  lookup-erase key other ((name, value) ∷ table) =
      let ih = lookup-erase key other table in
      ground (arith, ih, eq_iff name key, eq_iff name other, eq_iff key other)

  pub lookup-insert :
      (key other : String) (value : V) (table : List (String × V))
      → lookup other (insert key value table)
        ≡ (if key == other then some value else lookup other table)
  unfolding lookup insert
  lookup-insert key other value [] = refl
  lookup-insert key other value ((name, old) ∷ table) =
      let ih = lookup-insert key other value table in
      ground (arith, ih, eq_iff name key, eq_iff name other, eq_iff key other)

  pub lookup-insert_self :
      (key : String) (value : V) (table : List (String × V))
      → lookup key (insert key value table) ≡ some value
  lookup-insert_self key value table = simp (lookup-insert, eq_refl)

-- Membership in a set of texts (`map[string]struct{}`).
unfoldable pub contains : List String → String → Bool
contains [] k = false
contains (j ∷ s) k = j == k || contains s k
