-- ===== src/Registry/Refusal.antt =====
-- Routes that are refused by their breakers, and routes that decide the request at once.
use text.Mathlib.TextEquality.{eq_iff}
use high_performance_llm_gat.Prelude.{
  ℕ, zero, suc, ◌+◌, ◌≡◌, refl, String, List, [], ◌∷◌, Option, none, some, true, false, arith,
  length, Option-cases, inl, inr, ap, sym, ◌∙◌,
}
use high_performance_llm_gat.Prelude.Text.{to_lower, contains_text}
use high_performance_llm_gat.Prelude.Dict.{lookup, insert, lookup-insert}
use high_performance_llm_gat.Breaker.{CircuitBreaker, allow}
use high_performance_llm_gat.Errors.{circuit_open}
use high_performance_llm_gat.Errors.Mapping.{map_upstream_error}
use high_performance_llm_gat.Provider.{
  ChatCompletionRequest, ChatCompletionResponse, Outcome, UpstreamError, answer, failure,
}
use high_performance_llm_gat.Registry.{
  RouteCandidate, Registry, System, Client, ensure_circuit, now, circuit_key, default_breaker,
  should_fallback,
}
use high_performance_llm_gat.Registry.Order.{build_route_queue}
use high_performance_llm_gat.Registry.Route.{
  Progress, unavailable, after_call, try_client, try_route, try_routes, conclude, chat_completion,
  model_or_default,
}

-- The breaker that a route finds.
abbrev pub breaker_of : List (String × CircuitBreaker) → RouteCandidate → CircuitBreaker
breaker_of m c = (ensure_circuit m c).0

-- To put the breaker of a route back changes no route's breaker.
breaker_of-same :
    (m : List (String × CircuitBreaker)) (c d : RouteCandidate)
    → breaker_of (insert (circuit_key c) (breaker_of m c) (ensure_circuit m c).1) d ≡ breaker_of m d
unfolding ensure_circuit
breaker_of-same m c d =
    let kc = circuit_key c in
    let kd = circuit_key d in
    let fresh = insert kc default_breaker m in
    elim (Option-cases (lookup kc m)) [
      | inl e ↦
          rw (e, ensure_circuit)
            (ground (
              arith,
              e,
              eq_iff kc kd,
              lookup-insert kc kd default_breaker fresh,
              lookup-insert kc kd default_breaker m,
            ))
      | inr (b, e) ↦
          rw (e, ensure_circuit) (ground (arith, e, eq_iff kc kd, lookup-insert kc kd b m))
    ]

module _ {F W : Type 0} (sys : System W) (r : Registry F W) (req : ChatCompletionRequest F) where
  -- The world after the clock has been read a number of times.
  unfoldable pub clock_reads : ℕ → W → W
  clock_reads zero w = w
  clock_reads (suc n) w = clock_reads n (now sys r w).1

  -- The provider of the route has a client, and the breaker refuses at the time that the clock shows.
  abbrev pub Refused : List (String × CircuitBreaker) → RouteCandidate → W → Type 0
  Refused m c w =
      ((client : Client F W) × (lookup c.provider_name r.providers ≡ some client))
      × (allow (breaker_of m c) (now sys r w).0 ≡ (breaker_of m c, false))

  -- The breakers of the routes refuse, each at the time of its own reading of the clock.
  abbrev pub AllRefused : List (String × CircuitBreaker) → List RouteCandidate → W → Type 0
  AllRefused m [] w = Unit
  AllRefused m (c ∷ cs) w = Refused m c w × AllRefused m cs (now sys r w).1

  -- The progress after a refusal.
  abbrev refuse : RouteCandidate → Progress W → Progress W
  refuse c p = record p {
    circuits = insert (circuit_key c) (breaker_of p.circuits c) (ensure_circuit p.circuits c).1;
    world = (now sys r p.world).1;
    skipped = p.skipped + 1;
  }

  try_route-Refused :
      (c : RouteCandidate) (p : Progress W)
      → Refused p.circuits c p.world
      → try_route sys r req c p ≡ (none, refuse c p)
  unfolding try_route try_client
  try_route-Refused c p h =
      let e = h.0.1 in let refusal = h.1 in rw (e, try_route) (rw refusal refl)

  AllRefused-refuse :
      (c : RouteCandidate) (p : Progress W) (cs : List RouteCandidate) (w : W)
      → AllRefused p.circuits cs w
      → AllRefused (refuse c p).circuits cs w
  AllRefused-refuse c p [] w h = tt
  AllRefused-refuse c p (d ∷ cs) w h = (
    (h.0.0, rw (breaker_of-same p.circuits c d) h.0.1),
    AllRefused-refuse c p cs (now sys r w).1 h.1,
  )

  -- A route that does not decide the request hands it to the next.
  try_routes-more :
      (c : RouteCandidate) (cs : List RouteCandidate) (p q : Progress W)
      → try_route sys r req c p ≡ (none, q)
      → try_routes sys r req (c ∷ cs) p ≡ try_routes sys r req cs q
  unfolding try_routes
  try_routes-more c cs p q e =
      ap
        (λ (x : Option Outcome × Progress W). elim x.0 [
          | some o ↦ (some o, x.1)
          | none ↦ try_routes sys r req cs x.1
        ])
        e

  try_routes-done :
      (c : RouteCandidate) (cs : List RouteCandidate) (p q : Progress W) (o : Outcome)
      → try_route sys r req c p ≡ (some o, q)
      → try_routes sys r req (c ∷ cs) p ≡ (some o, q)
  unfolding try_routes
  try_routes-done c cs p q o e =
      ap
        (λ (x : Option Outcome × Progress W). elim x.0 [
          | some o ↦ (some o, x.1)
          | none ↦ try_routes sys r req cs x.1
        ])
        e

  try_routes-Refused :
      (cs : List RouteCandidate) (p : Progress W)
      → AllRefused p.circuits cs p.world
      → ((try_routes sys r req cs p).0 ≡ none)
        × ((try_routes sys r req cs p).1.skipped ≡ p.skipped + length cs)
        × ((try_routes sys r req cs p).1.world ≡ clock_reads (length cs) p.world)
  unfolding try_routes clock_reads
  try_routes-Refused [] p h = (refl, omega arith, refl)
  try_routes-Refused (c ∷ cs) p h =
      let (a, b, d) = try_routes-Refused cs (refuse c p) (AllRefused-refuse c p cs _ h.1) in
      rw (try_routes-more c cs p (refuse c p) (try_route-Refused c p h.0)) (a, omega (arith, b), d)

  abbrev start_at : W → Progress W
  start_at w = record { circuits = r.circuits; last_err = none; skipped = 0; world = w }

  chat_completion-run :
      (w w' : W) (c : RouteCandidate) (cs : List RouteCandidate) (result : Option Outcome)
      (q : Progress W)
      → build_route_queue sys r (model_or_default req.model) w ≡ (c ∷ cs, w')
      → try_routes sys r req (c ∷ cs) (start_at w') ≡ (result, q)
      → chat_completion sys r req w ≡ (
        conclude (model_or_default req.model) (length (c ∷ cs)) result q,
        record r { circuits = q.circuits },
        q.world,
      )
  unfolding chat_completion
  chat_completion-run w w' c cs result q built tried =
      rw (built, chat_completion) (rw (tried, chat_completion) refl)

  -- If the queue has a route, every route in it has a client, and the breaker of each refuses at the
  -- time of its reading of the clock, then the request fails with the error that the chat handler
  -- reports as `circuit_open`, and no provider is called: the world changes by the readings of the
  -- clock alone, one for each route.
  pub chat_completion-Refused :
      (w w' : W) (c : RouteCandidate) (cs : List RouteCandidate)
      → build_route_queue sys r (model_or_default req.model) w ≡ (c ∷ cs, w')
      → AllRefused r.circuits (c ∷ cs) w'
      → (e : UpstreamError) × ((chat_completion sys r req w).0 ≡ failure e)
        × ((map_upstream_error (some e)).code ≡ circuit_open)
        × ((chat_completion sys r req w).2 ≡ clock_reads (length (c ∷ cs)) w')
  unfolding conclude
  chat_completion-Refused w w' c cs built h =
      let (a, b, d) = try_routes-Refused (c ∷ cs) (start_at w') h in
      let tried = try_routes sys r req (c ∷ cs) (start_at w') in
      let run = chat_completion-run w w' c cs none tried.1 built (λ i. (a i, tried.1)) in
      (
        unavailable "all candidate routes are circuit-open",
        ap (λ (x : Outcome × Registry F W × W). x.0) run ∙ ground (arith, b),
        unfold map_upstream_error contains_text to_lower in refl,
        ap (λ (x : Outcome × Registry F W × W). x.2) run ∙ d,
      )

  -- A route with a client whose breaker admits the call is decided by the client's result.
  try_route-admitted :
      (c : RouteCandidate) (client : Client F W) (p : Progress W) (result : Outcome) (w : W)
      → lookup c.provider_name r.providers ≡ some client
      → (allow (breaker_of p.circuits c) (now sys r p.world).0).1 ≡ true
      → client (record req { model = c.model_name }) (now sys r p.world).1 ≡ (result, w)
      → (b : CircuitBreaker) × (q : Progress W) × (try_route sys r req c p
          ≡ after_call c b (now sys r p.world).0 q (result, w))
  unfolding try_route try_client
  try_route-admitted c client p result w found admitted called =
      let (b, circuits) = ensure_circuit p.circuits c in
      let (t, w') = now sys r p.world in
      let b' = (allow b t).0 in
      (
        b',
        record p { circuits = insert (circuit_key c) b' circuits; world = w' },
        rw (found, try_route) (rw (admitted, called) refl),
      )

  decided-answer :
      (c : RouteCandidate) (client : Client F W) (p : Progress W) (resp : ChatCompletionResponse)
      (w : W)
      → lookup c.provider_name r.providers ≡ some client
      → (allow (breaker_of p.circuits c) (now sys r p.world).0).1 ≡ true
      → client (record req { model = c.model_name }) (now sys r p.world).1 ≡ (answer resp, w)
      → (q : Progress W) × (try_route sys r req c p ≡ (some (answer resp), q)) × (q.world ≡ w)
  unfolding after_call
  decided-answer c client p resp w found admitted called =
      let (b, q, e) = try_route-admitted c client p (answer resp) w found admitted called in
      ((after_call c b (now sys r p.world).0 q (answer resp, w)).1, e, refl)

  decided-failure :
      (c : RouteCandidate) (client : Client F W) (p : Progress W) (e : UpstreamError) (w : W)
      → lookup c.provider_name r.providers ≡ some client
      → (allow (breaker_of p.circuits c) (now sys r p.world).0).1 ≡ true
      → client (record req { model = c.model_name }) (now sys r p.world).1 ≡ (failure e, w)
      → e.status_code ≡ 400
      → (q : Progress W) × (try_route sys r req c p
          ≡ (some (failure (record e { provider = c.provider_name; model = c.model_name })), q))
        × (q.world ≡ w)
  unfolding after_call should_fallback
  decided-failure c client p e w found admitted called bad =
      let (b, q, eq) = try_route-admitted c client p (failure e) w found admitted called in
      ((after_call c b (now sys r p.world).0 q (failure e, w)).1, eq ∙ (rw bad refl), refl)

  -- The result of a call that ends the request: an answer, or a 400 with the names of the route.
  abbrev pub Final : RouteCandidate → Outcome → Outcome → Type 0
  Final c (answer resp) o = o ≡ answer resp
  Final c (failure e) o =
      (e.status_code ≡ 400)
      × (o ≡ failure (record e { provider = c.provider_name; model = c.model_name }))

  -- If the breaker of the first route admits the call and its client answers, or refuses the
  -- request with a 400, then that decides the request: the outcome is the client's, under the names
  -- of the route, and no other provider is called.
  pub chat_completion-first :
      (w w' w'' : W) (c : RouteCandidate) (cs : List RouteCandidate) (client : Client F W)
      (result o : Outcome)
      → build_route_queue sys r (model_or_default req.model) w ≡ (c ∷ cs, w')
      → lookup c.provider_name r.providers ≡ some client
      → (allow (breaker_of r.circuits c) (now sys r w').0).1 ≡ true
      → client (record req { model = c.model_name }) (now sys r w').1 ≡ (result, w'')
      → Final c result o
      → ((chat_completion sys r req w).0 ≡ o) × ((chat_completion sys r req w).2 ≡ w'')
  unfolding conclude
  chat_completion-first w w' w'' c cs client (answer resp) o built found admitted called final =
      let (q, tried, world) =
        decided-answer c client (start_at w') resp w'' found admitted called in
      let run =
        chat_completion-run w w' c cs (some (answer resp)) q built
          (try_routes-done c cs (start_at w') q (answer resp) tried) in
      (
        ap (λ (x : Outcome × Registry F W × W). x.0) run ∙ sym final,
        ap (λ (x : Outcome × Registry F W × W). x.2) run ∙ world,
      )
  chat_completion-first w w' w'' c cs client (failure e) o built found admitted called final =
      let e' = record e { provider = c.provider_name; model = c.model_name } in
      let (q, tried, world) =
        decided-failure c client (start_at w') e w'' found admitted called final.0 in
      let run =
        chat_completion-run w w' c cs (some (failure e')) q built
          (try_routes-done c cs (start_at w') q (failure e') tried) in
      (
        ap (λ (x : Outcome × Registry F W × W). x.0) run ∙ sym final.1,
        ap (λ (x : Outcome × Registry F W × W). x.2) run ∙ world,
      )
