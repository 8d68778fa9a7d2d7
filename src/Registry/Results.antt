-- ===== src/Registry/Results.antt =====
-- The results of `ChatCompletion`.
use high_performance_llm_gat.Prelude.{
  ℕ, ◌≡◌, refl, ◌⊎◌, inl, inr, List, [], ◌∷◌, none, some, arith, Option-cases, ◌∙◌,
}
use high_performance_llm_gat.Prelude.Dict.{lookup, insert}
use high_performance_llm_gat.Breaker.{CircuitBreaker, allow}
use high_performance_llm_gat.Provider.{
  ChatCompletionRequest, ChatCompletionResponse, Outcome, answer, failure,
}
use high_performance_llm_gat.Registry.{
  RouteCandidate, Registry, System, Client, ensure_circuit, now, circuit_key, should_fallback,
}
use high_performance_llm_gat.Registry.Order.{build_route_queue}
use high_performance_llm_gat.Registry.Route.{
  Progress, after_call, try_client, try_route, try_routes, chat_completion, model_or_default,
}

module _ {F W : Type 0} (sys : System W) (r : Registry F W) (req : ChatCompletionRequest F) where
  -- The outcome of one call that a route of the list can make: its client is asked for the route's
  -- model, and everything else of the request is passed on.
  abbrev pub Called : List RouteCandidate → Outcome → Type 0
  Called [] o = ⊥
  Called (c ∷ cs) o =
      ((client : Client F W) × (w : W) × (lookup c.provider_name r.providers ≡ some client)
        × ((client (record req { model = c.model_name }) w).0 ≡ o))
      ⊎ Called cs o

  -- What a loop result tells: an answer is the answer of a call, and an error that ends the loop is
  -- a 400 of a call, under the names of its route.
  abbrev pub Ended : List RouteCandidate → Outcome → Type 0
  Ended cs (answer resp) = Called cs (answer resp)
  Ended cs (failure e) = e.status_code ≡ 400

  after_call-Ended :
      (c : RouteCandidate) (cs : List RouteCandidate) (b : CircuitBreaker) (t : ℕ) (p : Progress W)
      (client : Client F W) (w : W) (o : Outcome)
      → lookup c.provider_name r.providers ≡ some client
      → (after_call c b t p (client (record req { model = c.model_name }) w)).0 ≡ some o
      → Ended (c ∷ cs) o
  after_call-Ended c cs b t p client w o e h =
      go (client (record req { model = c.model_name }) w).0
        (client (record req { model = c.model_name }) w).1 o refl h
    where
      go :
          (result : Outcome) (w' : W) (o : Outcome)
          → (client (record req { model = c.model_name }) w).0 ≡ result
          → (after_call c b t p (result, w')).0 ≡ some o
          → Ended (c ∷ cs) o
      go (answer resp) w' (answer resp') called k =
          inl (client, w, e, called ∙ (unfold after_call in cc))
      go (answer resp) w' (failure e') called k = absurd (unfold after_call in cc)
      go (failure x) w' (answer resp') called k =
          absurd (unfold after_call should_fallback in ground arith)
      go (failure x) w' (failure e') called k = unfold after_call should_fallback in ground arith

  try_client-Ended :
      (c : RouteCandidate) (cs : List RouteCandidate) (client : Client F W) (p : Progress W)
      (o : Outcome)
      → lookup c.provider_name r.providers ≡ some client
      → (try_client sys r req c client p).0 ≡ some o
      → Ended (c ∷ cs) o
  unfolding try_client
  try_client-Ended c cs client p o e h =
      let (b, circuits) = ensure_circuit p.circuits c in
      let (t, w) = now sys r p.world in
      let p' : Progress W = record p {
        circuits = insert (circuit_key c) (allow b t).0 circuits;
        world = w;
      } in
      after_call-Ended c cs (allow b t).0 t p' client w o e (ground arith)

  try_route-Ended :
      (c : RouteCandidate) (cs : List RouteCandidate) (p : Progress W) (o : Outcome)
      → (try_route sys r req c p).0 ≡ some o
      → Ended (c ∷ cs) o
  unfolding try_route
  try_route-Ended c cs p o h = elim (Option-cases (lookup c.provider_name r.providers)) [
    | inl e ↦ absurd (ground arith)
    | inr (client, e) ↦ try_client-Ended c cs client p o e (ground arith)
  ]

  Ended-cons :
      (c : RouteCandidate) (cs : List RouteCandidate) (o : Outcome) → Ended cs o → Ended (c ∷ cs) o
  Ended-cons c cs (answer resp) h = inr h
  Ended-cons c cs (failure e) h = h

  try_routes-Ended :
      (cs : List RouteCandidate) (p : Progress W) (o : Outcome)
      → (try_routes sys r req cs p).0 ≡ some o
      → Ended cs o
  unfolding try_routes
  try_routes-Ended [] p o h = cc
  try_routes-Ended (c ∷ cs) p o h = elim (Option-cases (try_route sys r req c p).0) [
    | inl more ↦
        Ended-cons c cs o (try_routes-Ended cs (try_route sys r req c p).1 o (ground arith))
    | inr (o', done) ↦ try_route-Ended c cs p o (ground arith)
  ]

  -- An answer of the gateway is the answer that the client of one of the routes in the queue gave
  -- to the request with that route's model in place.
  pub chat_completion-Called :
      (w : W) (resp : ChatCompletionResponse)
      → (chat_completion sys r req w).0 ≡ answer resp
      → Called (build_route_queue sys r (model_or_default req.model) w).0 (answer resp)
  unfolding chat_completion
  chat_completion-Called w resp h =
      let model = model_or_default req.model in
      let (queue, w') = build_route_queue sys r model w in
      let start : Progress W = record {
        circuits = r.circuits;
        last_err = none;
        skipped = 0;
        world = w';
      } in
      elim (Option-cases (try_routes sys r req queue start).0) [
        | inl e ↦ absurd (ground arith)
        | inr (o, e) ↦ try_routes-Ended queue start (answer resp) (ground arith)
      ]
