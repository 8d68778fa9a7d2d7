-- ===== src/Registry/Chain.antt =====
-- The chain of fallback models: `resolveModelChain` ends, and what it returns.
use text.Mathlib.Text.{◌==◌ as str_eq}
use text.Mathlib.TextEquality.{eq_iff}
use high_performance_llm_gat.Prelude.{
  ℕ, zero, suc, ◌+◌, ◌≤◌, ◌<◌, ◌≡◌, ◌≢◌, refl, inl, inr, String, List, [], ◌∷◌, none, some, true,
  false, ◌||◌, arith, if◌then◌else◌, length, Bool-cases, Option-cases,
}
use high_performance_llm_gat.Prelude.Text.{trim_space}
use high_performance_llm_gat.Prelude.Dict.{lookup, contains}
use high_performance_llm_gat.Registry.{Registry}
use high_performance_llm_gat.Registry.Order.{
  next_model, chain_from, chain_fuel, chain_or, resolve_model_chain,
}

-- The fallback entries whose model has not been seen.
unseen : List String → List (String × String) → ℕ
unseen seen [] = 0
unseen seen ((k, v) ∷ m) = if contains seen k then unseen seen m else suc (unseen seen m)

unseen-le-length : (seen : List String) (m : List (String × String)) → unseen seen m ≤ length m
unfolding unseen
unseen-le-length seen [] = omega arith
unseen-le-length seen ((k, v) ∷ m) = ground (arith, unseen-le-length seen m)

unseen-cons-le :
    (k : String) (seen : List String) (m : List (String × String))
    → unseen (k ∷ seen) m ≤ unseen seen m
unfolding unseen contains
unseen-cons-le k seen [] = omega arith
unseen-cons-le k seen ((j, v) ∷ m) = ground (arith, unseen-cons-le k seen m)

-- To see a model that has a fallback leaves fewer entries unseen.
unseen-cons-lt :
    (k : String) (seen : List String) (m : List (String × String)) (v : String)
    → lookup k m ≡ some v
    → contains seen k ≡ false
    → unseen (k ∷ seen) m < unseen seen m
unfolding unseen contains lookup
unseen-cons-lt k seen [] v h fresh = cc
unseen-cons-lt k seen ((j, u) ∷ m) v h fresh =
    ground (arith, eq_iff j k, eq_iff k j, unseen-cons-lt k seen m v, unseen-cons-le k seen m)

-- A model with no entry has no fallback.
next_model_missing :
    (m : List (String × String)) (k : String)
    → lookup k m ≡ none
    → str_eq (next_model m k) "" ≡ true
unfolding next_model trim_space
next_model_missing m k h = rw h

-- `y` comes after `x` in the chain; the chain ends at `x` if its fallback is empty or has been seen.
abbrev pub Follows : List (String × String) → List String → String → List String → Type 0
Follows m seen x [] = (str_eq (next_model m x) "" || contains (x ∷ seen) (next_model m x)) ≡ true
Follows m seen x (y ∷ ys) = y ≡ next_model m x

-- A chain of models that are named, new, and each the fallback of the one before.
abbrev pub IsChain : List (String × String) → List String → List String → Type 0
IsChain m seen [] = Unit
IsChain m seen (x ∷ xs) =
    (x ≢ "") × (contains seen x ≡ false) × Follows m seen x xs × IsChain m (x ∷ seen) xs

-- The chain starts at `x`, unless the loop stops there.
abbrev Starts : List String → String → List String → Type 0
Starts seen x [] = (str_eq x "" || contains seen x) ≡ true
Starts seen x (y ∷ ys) = y ≡ x

not-Starts-nil : (x : String) → x ≢ "" → ¬ Starts [] x []
unfolding contains
not-Starts-nil x h s = ground (arith, eq_iff x "")

Starts-Follows :
    (m : List (String × String)) (seen : List String) (x : String) (c : List String)
    → Starts (x ∷ seen) (next_model m x) c
    → Follows m seen x c
Starts-Follows m seen x [] h = h
Starts-Follows m seen x (y ∷ ys) h = h

Option-lookup :
    (m : List (String × String)) (k : String)
    → str_eq (next_model m k) "" ≡ false
    → (v : String) × (lookup k m ≡ some v)
Option-lookup m k h = elim (Option-cases (lookup k m)) [
  | inl e ↦ absurd (ground (arith, next_model_missing m k e))
  | inr found ↦ found
]

-- Enough fuel: the loop ends by one of its breaks, with a chain.
chain_from_lem :
    (fuel : ℕ) (m : List (String × String)) (seen : List String) (current : String)
    → unseen seen m + 1 < fuel
    → (c : List String) × (chain_from fuel m seen current ≡ some c)
      × IsChain m seen c
      × Starts seen current c
unfolding chain_from
chain_from_lem zero m seen current h = absurd (omega arith)
chain_from_lem (suc fuel) m seen current h =
    elim (Bool-cases (str_eq current "" || contains seen current)) [
      | inl stop ↦ ([], rw stop, tt, stop)
      | inr go ↦ elim (Bool-cases (str_eq (next_model m current) "")) [
        | inl last ↦ (
          current ∷ [],
          rw (go, last),
          (ground (arith, eq_iff current ""), ground arith, rw last, tt),
          refl,
        )
        | inr more ↦
            let (v, found) = Option-lookup m current more in
            let (c, e, chain, start) =
              chain_from_lem fuel m (current ∷ seen) (next_model m current)
                (ground (arith, unseen-cons-lt current seen m v)) in
            (
              current ∷ c,
              rw (go, more, e),
              (
                ground (arith, eq_iff current ""),
                ground arith,
                Starts-Follows m seen current c start,
                chain,
              ),
              refl,
            )
      ]
    ]

-- For a model that is not blank, the chain of models that the registry tries is computed within
-- the fuel; it starts at the trimmed model, each later model is the fallback configured for the
-- one before it, no model stands in it twice, and it ends only at a model whose fallback is empty
-- or stands in the chain already.
pub resolve_model_chain-IsChain :
    {F W : Type 0} (r : Registry F W) (model : String)
    → trim_space model ≢ ""
    → (rest : List String) × (resolve_model_chain r model ≡ trim_space model ∷ rest)
      × IsChain r.model_fallbacks [] (trim_space model ∷ rest)
unfolding resolve_model_chain
resolve_model_chain-IsChain r model h =
    let (c, e, chain, start) =
      chain_from_lem (chain_fuel r.model_fallbacks) r.model_fallbacks [] (trim_space model)
        (omega (arith, unseen-le-length [] r.model_fallbacks)) in
    rw e (headed c chain start)
  where
    headed :
        (c : List String)
        → IsChain r.model_fallbacks [] c
        → Starts [] (trim_space model) c
        → (rest : List String) × (chain_or model (some c) ≡ trim_space model ∷ rest)
          × IsChain r.model_fallbacks [] (trim_space model ∷ rest)
    headed [] chain start = absurd (not-Starts-nil (trim_space model) h start)
    headed (x ∷ xs) chain start = (xs, rw start, rw (← start) chain)
