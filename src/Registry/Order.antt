-- ===== src/Registry/Order.antt =====
-- registry.go: the chain of fallback models, and the order in which the routes are tried.
use text.Mathlib.Text.{◌==◌ as str_eq}
use mathlib.Core.Bool.{◌||◌}
use mathlib.Core.Option
use high_performance_llm_gat.Prelude.{
  ℕ, zero, suc, ◌+◌, ◌-◌, String, List, [], ◌∷◌, ◌++◌, Option, none, some, ltb, leb, ◌==◌,
  if◌then◌else◌, length,
}
use high_performance_llm_gat.Prelude.Int.{ℤ, pos, pos_part, ◌+ℤ◌, ltb_ℤ, leb_ℤ}
use high_performance_llm_gat.Prelude.Text.{trim_space}
use high_performance_llm_gat.Prelude.Dict.{lookup, contains}
use high_performance_llm_gat.Registry.{
  RouteCandidate, Registry, System, text_of, circuit_key, routes_for_model, rand,
}

-- The fallback of a model: `strings.TrimSpace(r.modelFallbacks[current])`.
unfoldable pub next_model : List (String × String) → String → String
next_model fallbacks current = trim_space (text_of (lookup current fallbacks))

-- The loop of `resolveModelChain`, on fuel; `none` means that the fuel ran out.
unfoldable pub chain_from : ℕ → List (String × String) → List String → String → Option (List String)
chain_from zero fallbacks seen current = none
chain_from (suc fuel) fallbacks seen current =
    let rest = chain_from fuel fallbacks (current ∷ seen) (next_model fallbacks current) in
    if str_eq current "" || contains seen current
    then some []
    else if str_eq (next_model fallbacks current) ""
    then some (current ∷ [])
    else Option.map (◌∷◌ current) rest

-- One round for each model that has a fallback, one for a model that has none and one to see the
-- end of the loop.
abbrev pub chain_fuel : List (String × String) → ℕ
chain_fuel fallbacks = length fallbacks + 2

abbrev pub chain_or : String → Option (List String) → List String
chain_or model none = []
chain_or model (some []) = if str_eq model "" then [] else model ∷ []
chain_or model (some (m ∷ ms)) = m ∷ ms

unfoldable pub resolve_model_chain : {F W : Type 0} → Registry F W → String → List String
unfolding chain_from
resolve_model_chain r model =
    chain_or model
      (chain_from (chain_fuel r.model_fallbacks) r.model_fallbacks [] (trim_space model))

-- The sum of the positive weights.
unfoldable pub total_weight : ℤ → List RouteCandidate → ℤ
total_weight total [] = total
total_weight total (c ∷ cs) =
    total_weight (if ltb_ℤ (pos 0) c.weight then total +ℤ c.weight else total) cs

-- The loop of `weightedPickIndex` after the draw, from index `i`; `none` if it finds no index.
-- A weight that is not positive is passed over.
unfoldable pub scan : ℕ → ℕ → List RouteCandidate → Option ℕ
scan i pick [] = none
scan i pick (c ∷ cs) =
    let w = pos_part c.weight in
    let over = scan (i + 1) pick cs in
    let rest = scan (i + 1) (pick - w) cs in
    if w == 0 then over else if ltb pick w then some i else rest

abbrev pub or_last : Option ℕ → List RouteCandidate → ℕ
or_last none cs = length cs - 1
or_last (some i) cs = i

unfoldable pub weighted_pick_index :
    {F W : Type 0} → System W → Registry F W → List RouteCandidate → W → ℕ × W
unfolding total_weight scan
weighted_pick_index sys r cs w =
    let total = total_weight (pos 0) cs in
    if leb_ℤ total (pos 0)
    then (0, w)
    else let (pick, w') = rand sys r (pos_part total) w in (or_last (scan 0 pick cs) cs, w')

-- `pool[idx]` and the pool without it; `none` is an index out of range.
unfoldable pub pick_at {ℓ} : {A : Type ℓ} → ℕ → List A → Option (A × List A)
pick_at i [] = none
pick_at zero (x ∷ xs) = some (x, xs)
pick_at (suc i) (x ∷ xs) = Option.map (λ p. (p.0, x ∷ p.1)) (pick_at i xs)

-- The loop of `weightedOrder`, one round for each element of the pool.
unfoldable pub order_from :
    {F W : Type 0} → System W → Registry F W → ℕ → List RouteCandidate → W → List RouteCandidate × W
order_from sys r zero pool w = ([], w)
order_from sys r (suc n) pool w =
    let (i, w') = weighted_pick_index sys r pool w in
    elim (pick_at i pool) [
      | none ↦ ([], w')
      | some (c, rest) ↦ let (ordered, w'') = order_from sys r n rest w' in (c ∷ ordered, w'')
    ]

unfoldable pub weighted_order :
    {F W : Type 0} → System W → Registry F W → List RouteCandidate → W → List RouteCandidate × W
unfolding order_from
weighted_order sys r cs w = if leb (length cs) 1 then (cs, w) else order_from sys r (length cs) cs w

-- The inner loop of `buildRouteQueue`: the candidates whose key is new, and the keys seen.
unfoldable pub fresh_routes : List String → List RouteCandidate → List RouteCandidate × List String
fresh_routes seen [] = ([], seen)
fresh_routes seen (c ∷ cs) =
    let key = circuit_key c in
    let skip = fresh_routes seen cs in
    let take = fresh_routes (key ∷ seen) cs in
    if contains seen key then skip else (c ∷ take.0, take.1)

-- Its outer loop, over the models of the chain.
unfoldable pub queue_from :
    {F W : Type 0}
    → System W
    → Registry F W
    → List String
    → List String
    → W
    → List RouteCandidate × W
queue_from sys r seen [] w = ([], w)
queue_from sys r seen (m ∷ ms) w =
    let (ordered, w') = weighted_order sys r (routes_for_model r m) w in
    let (fresh, seen') = fresh_routes seen ordered in
    let (rest, w'') = queue_from sys r seen' ms w' in (fresh ++ rest, w'')

unfoldable pub build_route_queue :
    {F W : Type 0} → System W → Registry F W → String → W → List RouteCandidate × W
unfolding queue_from
build_route_queue sys r model w = queue_from sys r [] (resolve_model_chain r model) w
