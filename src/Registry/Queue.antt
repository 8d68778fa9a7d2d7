-- ===== src/Registry/Queue.antt =====
-- The queue of routes: what `buildRouteQueue` returns.
use text.Mathlib.TextEquality.{eq_iff}
use mathlib.Core.List.{Mem, not-mem-nil, mem-cons}
use mathlib.Core.List.Perm
use mathlib.Core.Logic.Or
use mathlib.Core.Bool.{Bool-set}
use mathlib.Core.Path.{subst}
use high_performance_llm_gat.Prelude.{
  ◌≡◌, refl, String, List, [], ◌∷◌, ◌++◌, true, false, ◌||◌, arith, Bool-cases, inl, inr, map,
}
use high_performance_llm_gat.Prelude.Dict.{contains}
use high_performance_llm_gat.Registry.{
  RouteCandidate, Registry, System, circuit_key, routes_for_model,
}
use high_performance_llm_gat.Registry.Order.{
  weighted_order, fresh_routes, queue_from, build_route_queue, resolve_model_chain,
}
use high_performance_llm_gat.Registry.Weights.{weighted_order-perm}

-- No two of the routes share a breaker, and none shares one with the keys in front.
abbrev pub NewKeys : List String → List RouteCandidate → Type 0
NewKeys seen [] = Unit
NewKeys seen (c ∷ cs) = (contains seen (circuit_key c) ≡ false) × NewKeys (circuit_key c ∷ seen) cs

-- The keys seen once the routes have been added.
abbrev with_keys : List String → List RouteCandidate → List String
with_keys seen [] = seen
with_keys seen (c ∷ cs) = with_keys (circuit_key c ∷ seen) cs

fresh_routes-NewKeys :
    (seen : List String) (cs : List RouteCandidate)
    → NewKeys seen (fresh_routes seen cs).0
      × ((fresh_routes seen cs).1 ≡ with_keys seen (fresh_routes seen cs).0)
unfolding fresh_routes
fresh_routes-NewKeys seen [] = (tt, refl)
fresh_routes-NewKeys seen (c ∷ cs) = elim (Bool-cases (contains seen (circuit_key c))) [
  | inl old ↦ rw old (fresh_routes-NewKeys seen cs)
  | inr new ↦ let (h, e) = fresh_routes-NewKeys (circuit_key c ∷ seen) cs in rw new ((new, h), e)
]

NewKeys-append :
    (seen : List String) (xs ys : List RouteCandidate)
    → NewKeys seen xs
    → NewKeys (with_keys seen xs) ys
    → NewKeys seen (xs ++ ys)
NewKeys-append seen [] ys h k = k
NewKeys-append seen (x ∷ xs) ys h k = (h.0, NewKeys-append (circuit_key x ∷ seen) xs ys h.1 k)

module _ (k : String) where
  contains-cons_self : (seen : List String) → contains (k ∷ seen) k ≡ true
  unfolding contains
  contains-cons_self seen = ground (arith, eq_iff k k)

  fresh_routes-keeps :
      (seen : List String) (cs : List RouteCandidate)
      → contains seen k ≡ true
      → contains (fresh_routes seen cs).1 k ≡ true
  unfolding fresh_routes contains
  fresh_routes-keeps seen [] h = h
  fresh_routes-keeps seen (c ∷ cs) h =
      ground (arith, fresh_routes-keeps seen cs, fresh_routes-keeps (circuit_key c ∷ seen) cs)

  with_keys-split :
      (seen : List String) (cs : List RouteCandidate)
      → contains (with_keys seen cs) k ≡ (contains (map circuit_key cs) k || contains seen k)
  unfolding contains
  with_keys-split seen [] = refl
  with_keys-split seen (c ∷ cs) = ground (arith, with_keys-split (circuit_key c ∷ seen) cs)

  contains-append :
      (xs ys : List RouteCandidate)
      → contains (map circuit_key (xs ++ ys)) k
        ≡ (contains (map circuit_key xs) k || contains (map circuit_key ys) k)
  unfolding contains
  contains-append [] ys = refl
  contains-append (x ∷ xs) ys = ground (arith, contains-append xs ys)

-- A route that is offered ends up among the keys seen.
fresh_routes-covers :
    (seen : List String) (cs : List RouteCandidate) (c : RouteCandidate)
    → Mem c cs
    → contains (fresh_routes seen cs).1 (circuit_key c) ≡ true
unfolding fresh_routes
fresh_routes-covers seen [] c m = absurd (not-mem-nil m)
fresh_routes-covers seen (d ∷ cs) c m = elim (Bool-cases (contains seen (circuit_key d))) [
  | inl old ↦ rw old (
      Or.elim (Bool-set _ _) (mem-cons.0 m)
        (λ e. fresh_routes-keeps (circuit_key c) seen cs (rw e old))
        (fresh_routes-covers seen cs c))
  | inr new ↦ rw new (
      Or.elim (Bool-set _ _) (mem-cons.0 m)
        (λ e.
          fresh_routes-keeps (circuit_key c) (circuit_key d ∷ seen) cs
            (rw e (contains-cons_self (circuit_key d) seen)))
        (fresh_routes-covers (circuit_key d ∷ seen) cs c))
]

module _ {F W : Type 0} (sys : System W) (r : Registry F W) where
  queue_from-NewKeys : (seen ms : List String) (w : W) → NewKeys seen (queue_from sys r seen ms w).0
  unfolding queue_from
  queue_from-NewKeys seen [] w = tt
  queue_from-NewKeys seen (m ∷ ms) w =
      let (ordered, w') = weighted_order sys r (routes_for_model r m) w in
      let (h, e) = fresh_routes-NewKeys seen ordered in
      NewKeys-append seen _ _ h (rw (← e) (queue_from-NewKeys (fresh_routes seen ordered).1 ms w'))

  -- No two routes of the queue share a circuit breaker.
  pub build_route_queue-NewKeys :
      (model : String) (w : W) → NewKeys [] (build_route_queue sys r model w).0
  unfolding build_route_queue
  build_route_queue-NewKeys model w = queue_from-NewKeys [] (resolve_model_chain r model) w

  queue_from-covers :
      (seen ms : List String) (w : W) (m : String) (c : RouteCandidate)
      → Mem m ms
      → Mem c (routes_for_model r m)
      → (contains (map circuit_key (queue_from sys r seen ms w).0) (circuit_key c)
          || contains seen (circuit_key c))
        ≡ true
  unfolding queue_from
  queue_from-covers seen [] w m c hm hc = absurd (not-mem-nil hm)
  queue_from-covers seen (m' ∷ ms) w m c hm hc =
      let (ordered, w') = weighted_order sys r (routes_for_model r m') w in
      let (h, e) = fresh_routes-NewKeys seen ordered in
      let fresh = (fresh_routes seen ordered).0 in
      let seen' = (fresh_routes seen ordered).1 in
      let rest = (queue_from sys r seen' ms w').0 in
      let split = with_keys-split (circuit_key c) seen fresh in
      let joined = contains-append (circuit_key c) fresh rest in
      Or.elim (Bool-set _ _) (mem-cons.0 hm)
        (λ same.
          let covered = fresh_routes-covers seen ordered c (
            (Perm.mem_iff (weighted_order-perm sys r (routes_for_model r m') w)).1
              (subst (λ x. Mem c (routes_for_model r x)) same hc)) in
          ground (arith, split, joined, covered, e))
        (λ later.
          let ih = queue_from-covers seen' ms w' m c later hc in
          ground (arith, split, joined, ih, e))

  -- Every route of every model of the fallback chain is tried: the queue has a route with its
  -- breaker.
  pub build_route_queue-covers :
      (model m : String) (c : RouteCandidate) (w : W)
      → Mem m (resolve_model_chain r model)
      → Mem c (routes_for_model r m)
      → contains (map circuit_key (build_route_queue sys r model w).0) (circuit_key c) ≡ true
  unfolding build_route_queue contains
  build_route_queue-covers model m c w hm hc =
      ground (arith, queue_from-covers [] (resolve_model_chain r model) w m c hm hc)
