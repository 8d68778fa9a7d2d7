-- ===== src/Registry/Calls.antt =====
-- registry.go: how many calls of the providers a request makes.
use high_performance_llm_gat.Prelude.{
  ℕ, zero, suc, ◌+◌, ◌≤◌, ◌≡◌, refl, is_empty, String, List, [], ◌∷◌, Option, none, some, arith,
  length, if_both, Option-cases, inl, inr, leb,
}
use high_performance_llm_gat.Prelude.Int.{pos, pos_part, leb_ℤ}
use high_performance_llm_gat.Prelude.Dict.{lookup, insert}
use high_performance_llm_gat.Breaker.{CircuitBreaker, allow}
use high_performance_llm_gat.Provider.{ChatCompletionRequest, Outcome, answer, failure}
use high_performance_llm_gat.Registry.{
  RouteCandidate, Registry, System, Client, ensure_circuit, now, rand, circuit_key,
  routes_for_model,
}
use high_performance_llm_gat.Registry.Order.{
  total_weight, weighted_pick_index, pick_at, order_from, weighted_order, fresh_routes, queue_from,
  resolve_model_chain, build_route_queue,
}
use high_performance_llm_gat.Registry.Route.{
  Progress, after_call, try_client, try_route, try_routes, chat_completion, model_or_default,
}

-- `calls` counts the calls that the world has seen: a client adds one at most, and the clock and the
-- random source add none.
pub record IsMetered {F W : Type 0} (sys : System W) (r : Registry F W) (calls : W → ℕ)
    : Type 0 where
  pub clock : (w : W) → calls (now sys r w).1 ≤ calls w
  pub draw : (n : ℕ) (w : W) → calls (rand sys r n w).1 ≤ calls w
  pub client :
      (name : String) (client : Client F W) (req : ChatCompletionRequest F) (w : W)
      → lookup name r.providers ≡ some client
      → calls (client req w).1 ≤ calls w + 1

module _ {F W : Type 0} (sys : System W) (r : Registry F W) (calls : W → ℕ)
    (h : IsMetered sys r calls) where
  weighted_pick_index_calls :
      (cs : List RouteCandidate) (w : W) → calls (weighted_pick_index sys r cs w).1 ≤ calls w
  unfolding weighted_pick_index
  weighted_pick_index_calls cs w =
      let drawn = h.draw (pos_part (total_weight (pos 0) cs)) w in
      if_both (λ (o : ℕ × W). calls o.1 ≤ calls w) (leb_ℤ (total_weight (pos 0) cs) (pos 0))
        (omega arith) drawn

  order_from_calls :
      (n : ℕ) (pool : List RouteCandidate) (w : W) → calls (order_from sys r n pool w).1 ≤ calls w
  unfolding order_from
  order_from_calls zero pool w = omega arith
  order_from_calls (suc n) pool w =
      let (i, w') = weighted_pick_index sys r pool w in
      let picked = weighted_pick_index_calls pool w in
      elim (Option-cases (pick_at i pool)) [
        | inl out ↦ rw (order_from, out) picked
        | inr ((c, rest), e) ↦
            let more = order_from_calls n rest w' in rw (order_from, e) (omega arith)
      ]

  weighted_order_calls :
      (cs : List RouteCandidate) (w : W) → calls (weighted_order sys r cs w).1 ≤ calls w
  unfolding weighted_order
  weighted_order_calls cs w =
      if_both (λ (o : List RouteCandidate × W). calls o.1 ≤ calls w) (leb (length cs) 1)
        (omega arith) (order_from_calls (length cs) cs w)

  queue_from_calls :
      (seen ms : List String) (w : W) → calls (queue_from sys r seen ms w).1 ≤ calls w
  unfolding queue_from
  queue_from_calls seen [] w = omega arith
  queue_from_calls seen (m ∷ ms) w =
      let (ordered, w') = weighted_order sys r (routes_for_model r m) w in
      let first = weighted_order_calls (routes_for_model r m) w in
      let more = queue_from_calls (fresh_routes seen ordered).1 ms w' in omega (arith, first, more)

  build_route_queue_calls :
      (model : String) (w : W) → calls (build_route_queue sys r model w).1 ≤ calls w
  unfolding build_route_queue
  build_route_queue_calls model w = queue_from_calls [] (resolve_model_chain r model) w

module _ {F W : Type 0} (sys : System W) (r : Registry F W) (calls : W → ℕ)
    (h : IsMetered sys r calls) (req : ChatCompletionRequest F) where
  after_call-world :
      (c : RouteCandidate) (b : CircuitBreaker) (t : ℕ) (p : Progress W) (o : Outcome × W)
      → (after_call c b t p o).1.world ≡ o.1
  unfolding after_call
  after_call-world c b t p (answer resp, w) = refl
  after_call-world c b t p (failure e, w) = refl

  try_client_calls :
      (c : RouteCandidate) (client : Client F W) (p : Progress W)
      → lookup c.provider_name r.providers ≡ some client
      → calls (try_client sys r req c client p).1.world ≤ calls p.world + 1
  unfolding try_client
  try_client_calls c client p e =
      let (breaker, circuits) = ensure_circuit p.circuits c in
      let (t, w) = now sys r p.world in
      let read = h.clock p.world in
      let p' : Progress W = record p {
        circuits = insert (circuit_key c) (allow breaker t).0 circuits;
        world = w;
      } in
      let o = client (record req { model = c.model_name }) w in
      let called = h.client c.provider_name client (record req { model = c.model_name }) w e in
      if_both (λ (q : Option Outcome × Progress W). calls q.1.world ≤ calls p.world + 1)
        (allow breaker t).1
        (rw (after_call-world c (allow breaker t).0 t p' o) (omega (arith, read, called)))
        (omega (arith, read))

  try_route_calls :
      (c : RouteCandidate) (p : Progress W)
      → calls (try_route sys r req c p).1.world ≤ calls p.world + 1
  unfolding try_route
  try_route_calls c p = elim (Option-cases (lookup c.provider_name r.providers)) [
    | inl e ↦ rw (try_route, e) (omega arith)
    | inr (client, e) ↦ rw (try_route, e) (try_client_calls c client p e)
  ]

  try_routes_calls :
      (cs : List RouteCandidate) (p : Progress W)
      → calls (try_routes sys r req cs p).1.world ≤ calls p.world + length cs
  unfolding try_routes
  try_routes_calls [] p = omega arith
  try_routes_calls (c ∷ cs) p =
      let first = try_route_calls c p in
      elim (Option-cases (try_route sys r req c p).0) [
        | inr (o, e) ↦ rw (try_routes, e) (omega (arith, first))
        | inl e ↦
            let more = try_routes_calls cs (try_route sys r req c p).1 in
            rw (try_routes, e) (omega (arith, first, more))
      ]

  -- A request calls providers at most as often as its queue has routes.
  pub chat_completion_calls :
      (w : W)
      → calls (chat_completion sys r req w).2
        ≤ calls w + length (build_route_queue sys r (model_or_default req.model) w).0
  unfolding chat_completion
  chat_completion_calls w =
      let model = model_or_default req.model in
      let (queue, w') = build_route_queue sys r model w in
      let start : Progress W = record {
        circuits = r.circuits;
        last_err = none;
        skipped = 0;
        world = w';
      } in
      let queued = build_route_queue_calls sys r calls h model w in
      let tried = try_routes_calls queue start in
      if_both (λ (o : Outcome × Registry F W × W). calls o.2 ≤ calls w + length queue)
        (is_empty queue) (omega (arith, queued)) (omega (arith, queued, tried))
