-- ===== src/Registry/Route.antt =====
-- registry.go: `ChatCompletion`, the loop over the queue of routes.
use text.Mathlib.Text.{◌==◌ as str_eq}
use high_performance_llm_gat.Prelude.{
  ℕ, ◌+◌, String, List, [], ◌∷◌, Option, none, some, ◌==◌, if◌then◌else◌, is_empty, length,
}
use high_performance_llm_gat.Prelude.Text.{trim_space, ◌++ₛ◌}
use high_performance_llm_gat.Prelude.Dict.{lookup, insert}
use high_performance_llm_gat.Breaker.{CircuitBreaker, allow, record_success, record_failure}
use high_performance_llm_gat.Provider.{
  ChatCompletionRequest, Outcome, UpstreamError, answer, failure,
}
use high_performance_llm_gat.Registry.{
  RouteCandidate, Registry, Client, System, circuit_key, ensure_circuit, now, should_trip_circuit,
  should_fallback,
}
use high_performance_llm_gat.Registry.Order.{build_route_queue}

-- The variables of the loop, the map of breakers and the world.
pub record Progress (W : Type 0) : Type 0 where
  pub circuits : List (String × CircuitBreaker)
  pub last_err : Option UpstreamError
  pub skipped : ℕ
  pub world : W

-- An error that the registry itself reports: 503, with no cause.
abbrev pub unavailable : String → UpstreamError
unavailable message = record {
  provider = "";
  model = "";
  status_code = 503;
  message = message;
  body = "";
  err = none;
}

-- What follows an upstream call that was made at time `t`.
unfoldable pub after_call :
    {W : Type 0}
    → RouteCandidate
    → CircuitBreaker
    → ℕ
    → Progress W
    → Outcome × W
    → Option Outcome × Progress W
after_call c breaker t p (answer resp, w) = (
  some (answer resp),
  record p { circuits = insert (circuit_key c) (record_success breaker) p.circuits; world = w },
)
after_call c breaker t p (failure e, w) =
    let e' = record e { provider = c.provider_name; model = c.model_name } in
    let breaker' =
      if should_trip_circuit e' then record_failure breaker t else record_success breaker in
    (
      if should_fallback e' then none else some (failure e'),
      record p {
        circuits = insert (circuit_key c) breaker' p.circuits;
        last_err = some e';
        world = w;
      },
    )

-- A route whose provider has a client.
unfoldable pub try_client :
    {F W : Type 0}
    → System W
    → Registry F W
    → ChatCompletionRequest F
    → RouteCandidate
    → Client F W
    → Progress W
    → Option Outcome × Progress W
unfolding after_call
try_client sys r req c client p =
    let (breaker, circuits) = ensure_circuit p.circuits c in
    let (t, w) = now sys r p.world in
    let (breaker', admitted) = allow breaker t in
    let p' = record p { circuits = insert (circuit_key c) breaker' circuits; world = w } in
    if admitted
    then after_call c breaker' t p' (client (record req { model = c.model_name }) w)
    else (none, record p' { skipped = p.skipped + 1 })

-- The body of the loop; a result ends it.
unfoldable pub try_route :
    {F W : Type 0}
    → System W
    → Registry F W
    → ChatCompletionRequest F
    → RouteCandidate
    → Progress W
    → Option Outcome × Progress W
unfolding try_client
try_route sys r req c p = elim (lookup c.provider_name r.providers) [
  | none ↦ (
    none,
    record p {
      last_err = some (record (unavailable "provider client is not configured") {
        provider = c.provider_name;
        model = c.model_name;
      });
    },
  )
  | some client ↦ try_client sys r req c client p
]

unfoldable pub try_routes :
    {F W : Type 0}
    → System W
    → Registry F W
    → ChatCompletionRequest F
    → List RouteCandidate
    → Progress W
    → Option Outcome × Progress W
try_routes sys r req [] p = (none, p)
try_routes sys r req (c ∷ cs) p =
    let (result, p') = try_route sys r req c p in
    elim result [ some o ↦ (some o, p') | none ↦ try_routes sys r req cs p' ]

abbrev or_failed : String → Option UpstreamError → UpstreamError
or_failed model none = unavailable ("all routes failed for model " ++ₛ model)
or_failed model (some e) = e

-- The result once the loop is over.
unfoldable pub conclude : {W : Type 0} → String → ℕ → Option Outcome → Progress W → Outcome
conclude model n (some o) p = o
conclude model n none p =
    if p.skipped == n
    then failure (unavailable "all candidate routes are circuit-open")
    else failure (or_failed model p.last_err)

abbrev pub model_or_default : String → String
model_or_default model = let m = trim_space model in if str_eq m "" then "gpt-4" else m

-- `ChatCompletion`: the outcome, the registry with its breakers, and the world.
unfoldable pub chat_completion :
    {F W : Type 0}
    → System W
    → Registry F W
    → ChatCompletionRequest F
    → W
    → Outcome × Registry F W × W
unfolding try_routes conclude
chat_completion {W} sys r req w =
    let model = model_or_default req.model in
    let (queue, w') = build_route_queue sys r model w in
    let start : Progress W = record {
      circuits = r.circuits;
      last_err = none;
      skipped = 0;
      world = w';
    } in
    let (result, p) = try_routes sys r req queue start in
    if is_empty queue
    then (failure (unavailable ("no provider route available for model " ++ₛ model)), r, w')
    else (conclude model (length queue) result p, record r { circuits = p.circuits }, p.world)

-- The call on a registry that may be nil.
unfoldable pub chat_completion_nil :
    {F W : Type 0}
    → System W
    → Option (Registry F W)
    → ChatCompletionRequest F
    → W
    → Outcome × Option (Registry F W) × W
unfolding chat_completion
chat_completion_nil sys none req w =
    (failure (unavailable "provider registry is not initialized"), none, w)
chat_completion_nil sys (some r) req w =
    let (o, r', w') = chat_completion sys r req w in (o, some r', w')
