-- ===== src/Registry/Circuits.antt =====
-- The map of breakers: every breaker of a registry stays valid.
use text.Mathlib.Text.{◌==◌ as str_eq}
use mathlib.Core.Path.{subst}
use mathlib.Core.Bool.{not}
use high_performance_llm_gat.Prelude.{
  ℕ, ◌≡◌, ◌≢◌, String, List, [], ◌∷◌, Option, none, some, arith, All, if_both, Bool-cases,
  Option-cases, inl, inr, is_empty,
}
use high_performance_llm_gat.Prelude.Text.{is_blank}
use high_performance_llm_gat.Prelude.Dict.{lookup, insert}
use high_performance_llm_gat.Breaker.{CircuitBreaker, allow}
use high_performance_llm_gat.Breaker.Laws.{
  IsValid, new_circuit_breaker-IsValid, allow-IsValid, record_success-IsValid,
  record_failure-IsValid,
}
use high_performance_llm_gat.Config.{ModelConfig}
use high_performance_llm_gat.Provider.{ChatCompletionRequest, Outcome, answer, failure}
use high_performance_llm_gat.Registry.{
  RouteCandidate, Registry, System, Client, add_model, add_models, ensure_circuit, now, circuit_key,
  default_breaker, candidate_of,
}
use high_performance_llm_gat.Registry.Order.{build_route_queue}
use high_performance_llm_gat.Registry.Route.{
  Progress, after_call, try_client, try_route, try_routes, chat_completion, model_or_default,
}

abbrev pub AllValid : List (String × CircuitBreaker) → Type 0
AllValid = All (λ kv. IsValid kv.1)

insert-AllValid :
    (k : String) (b : CircuitBreaker) (m : List (String × CircuitBreaker))
    → IsValid b
    → AllValid m
    → AllValid (insert k b m)
unfolding insert
insert-AllValid k b [] v h = (v, tt)
insert-AllValid k b ((j, d) ∷ m) v h = elim (Bool-cases (str_eq j k)) [
  | inl e ↦ rw e (v, h.1)
  | inr e ↦ rw e (h.0, insert-AllValid k b m v h.1)
]

lookup-IsValid :
    (k : String) (m : List (String × CircuitBreaker)) (b : CircuitBreaker)
    → lookup k m ≡ some b
    → AllValid m
    → IsValid b
unfolding lookup
lookup-IsValid k [] b e h = cc
lookup-IsValid k ((j, d) ∷ m) b e h = elim (Bool-cases (str_eq j k)) [
  | inl same ↦ subst IsValid (ground arith) h.0
  | inr other ↦ lookup-IsValid k m b (ground arith) h.1
]

ensure_circuit-AllValid :
    (m : List (String × CircuitBreaker)) (c : RouteCandidate)
    → AllValid m
    → IsValid (ensure_circuit m c).0 × AllValid (ensure_circuit m c).1
unfolding ensure_circuit
ensure_circuit-AllValid m c h = elim (Option-cases (lookup (circuit_key c) m)) [
  | inl e ↦
      let v = new_circuit_breaker-IsValid _ _ in
      rw (e, ensure_circuit) (v, insert-AllValid (circuit_key c) default_breaker m v h)
  | inr (b, e) ↦ rw (e, ensure_circuit) (lookup-IsValid (circuit_key c) m b e h, h)
]

module _ {F W : Type 0} where
  add_model-AllValid :
      (r : Registry F W) (m : ModelConfig) → AllValid r.circuits → AllValid (add_model r m).circuits
  unfolding add_model
  add_model-AllValid r m h =
      let Safe : Registry F W → Type 0 = λ x. AllValid x.circuits in
      if_both Safe (is_blank m.name) h (
        if_both Safe (not m.is_active) h (
          insert-AllValid (circuit_key (candidate_of m)) default_breaker r.circuits
            (new_circuit_breaker-IsValid _ _) h))

  pub add_models-AllValid :
      (r : Registry F W) (ms : List ModelConfig)
      → AllValid r.circuits
      → AllValid (add_models r ms).circuits
  unfolding add_models
  add_models-AllValid r [] h = h
  add_models-AllValid r (m ∷ ms) h =
      add_models-AllValid (add_model r m) ms (add_model-AllValid r m h)

module _ {W : Type 0} where
  after_call-AllValid :
      (c : RouteCandidate) (b : CircuitBreaker) (t : ℕ) (p : Progress W) (o : Outcome) (w : W)
      → t ≢ 0
      → IsValid b
      → AllValid p.circuits
      → AllValid (after_call c b t p (o, w)).1.circuits
  unfolding after_call
  after_call-AllValid c b t p (answer resp) w ht v h =
      insert-AllValid (circuit_key c) _ p.circuits (record_success-IsValid b v) h
  after_call-AllValid c b t p (failure e) w ht v h =
      insert-AllValid (circuit_key c) _ p.circuits
        (if_both IsValid _ (record_failure-IsValid b t ht v) (record_success-IsValid b v)) h

-- The clock of the registry never shows Go's zero time.
abbrev pub Ticks : {F W : Type 0} → System W → Registry F W → Type 0
Ticks {W} sys r = (w : W) → (now sys r w).0 ≢ 0

module _ {F W : Type 0} (sys : System W) (r : Registry F W) (ticks : Ticks sys r) where
  try_client-AllValid :
      (req : ChatCompletionRequest F) (c : RouteCandidate) (client : Client F W) (p : Progress W)
      → AllValid p.circuits
      → AllValid (try_client sys r req c client p).1.circuits
  unfolding try_client
  try_client-AllValid req c client p h =
      let (b, circuits) = ensure_circuit p.circuits c in
      let (v, hs) = ensure_circuit-AllValid p.circuits c h in
      let (t, w) = now sys r p.world in
      let v' = allow-IsValid b t v in
      let hs' = insert-AllValid (circuit_key c) (allow b t).0 circuits v' hs in
      let p' : Progress W = record p {
        circuits = insert (circuit_key c) (allow b t).0 circuits;
        world = w;
      } in
      let called = client (record req { model = c.model_name }) w in
      let Safe : Option Outcome × Progress W → Type 0 = λ x. AllValid x.1.circuits in
      if_both Safe (allow b t).1
        (after_call-AllValid c (allow b t).0 t p' called.0 called.1 (ticks p.world) v' hs') hs'

  try_route-AllValid :
      (req : ChatCompletionRequest F) (c : RouteCandidate) (p : Progress W)
      → AllValid p.circuits
      → AllValid (try_route sys r req c p).1.circuits
  unfolding try_route
  try_route-AllValid req c p h = elim (Option-cases (lookup c.provider_name r.providers)) [
    | inl e ↦ rw (e, try_route) h
    | inr (client, e) ↦ rw (e, try_route) (try_client-AllValid req c client p h)
  ]

  try_routes-AllValid :
      (req : ChatCompletionRequest F) (cs : List RouteCandidate) (p : Progress W)
      → AllValid p.circuits
      → AllValid (try_routes sys r req cs p).1.circuits
  unfolding try_routes
  try_routes-AllValid req [] p h = h
  try_routes-AllValid req (c ∷ cs) p h =
      let h' = try_route-AllValid req c p h in
      elim (Option-cases (try_route sys r req c p).0) [
        | inl more ↦ rw (more, try_routes) (try_routes-AllValid req cs _ h')
        | inr (o, done) ↦ rw (done, try_routes) h'
      ]

  -- A chat request leaves every breaker valid, whatever its route queue and whatever the providers
  -- answer, if every breaker was valid and the clock never shows Go's zero time.
  pub chat_completion-AllValid :
      (req : ChatCompletionRequest F) (w : W)
      → AllValid r.circuits
      → AllValid (chat_completion sys r req w).1.circuits
  unfolding chat_completion
  chat_completion-AllValid req w h =
      let model = model_or_default req.model in
      let (queue, w') = build_route_queue sys r model w in
      let start : Progress W = record {
        circuits = r.circuits;
        last_err = none;
        skipped = 0;
        world = w';
      } in
      let Safe : Outcome × Registry F W × W → Type 0 = λ x. AllValid x.1.circuits in
      if_both Safe (is_empty queue) h (try_routes-AllValid req queue start h)
