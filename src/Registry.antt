-- ===== src/Registry.antt =====
-- internal/service/provider/registry.go: the routing of a chat request to the providers.
-- `W` is the state of the world outside the gateway: what the clients, the clock and the random
-- source read and change. One request runs at a time.
pub mod Order
pub mod Route
pub mod Chain
pub mod Weights
pub mod Queue
pub mod Results
pub mod Circuits
pub mod Refusal
pub mod Calls
use text.Mathlib.Text.{◌==◌ as str_eq}
use mathlib.Core.Bool.{not, ◌||◌}
use high_performance_llm_gat.Prelude.{
  ℕ, suc, ◌+◌, ◌-◌, ◌*◌, String, List, [], ◌∷◌, ◌++◌, Option, none, some, Bool, true, false, ltb,
  leb, ◌==◌, if◌then◌else◌, length,
}
use high_performance_llm_gat.Prelude.Int.{ℤ, pos, negsuc, ltb_ℤ, leb_ℤ, ◌+ℤ◌}
use high_performance_llm_gat.Prelude.Text.{trim_space, to_lower, has_prefix, is_blank, ◌++ₛ◌}
use high_performance_llm_gat.Prelude.Dict.{lookup, insert}
use high_performance_llm_gat.Breaker.{CircuitBreaker, new_circuit_breaker, second}
use high_performance_llm_gat.Provider.{ChatCompletionRequest, Outcome, UpstreamError}
use high_performance_llm_gat.Config.{ModelConfig}

pub record RouteCandidate : Type 0 where
  pub model_name : String
  pub provider_name : String
  pub weight : ℤ
  pub fallback : String

-- The interface `Client`; its method `Name` is not used by the registry.
abbrev pub Client : Type 0 → Type 0 → Type 0
Client F W = ChatCompletionRequest F → W → Outcome × W

-- `time.Now` and `rand.Intn`.
pub record System (W : Type 0) : Type 0 where
  pub now : W → ℕ × W
  pub rand_intn : ℕ → W → ℕ × W

-- `none` stands for a nil function.
pub record Registry (F W : Type 0) : Type 0 where
  pub providers : List (String × Client F W)
  pub model_routes : List (String × List RouteCandidate)
  pub model_fallbacks : List (String × String)
  pub circuits : List (String × CircuitBreaker)
  pub now_func : Option (W → ℕ × W)
  pub rand_intn : Option (ℕ → W → ℕ × W)

-- The value of a map at a key, Go's zero value if it is missing.
abbrev pub routes_of : Option (List RouteCandidate) → List RouteCandidate
routes_of none = []
routes_of (some cs) = cs

abbrev pub text_of : Option String → String
text_of none = ""
text_of (some s) = s

unfoldable pub detect_provider : String → String
detect_provider model =
    let name = to_lower model in
    if has_prefix name "claude"
    then "anthropic"
    else if has_prefix name "abab"
    then "minimax"
    else "openai"

unfoldable pub circuit_key : RouteCandidate → String
circuit_key c = c.provider_name ++ₛ (":" ++ₛ c.model_name)

-- service.NewCircuitBreaker(defaultFailureThreshold, defaultOpenTimeout)
abbrev pub default_breaker : CircuitBreaker
default_breaker = new_circuit_breaker (pos 3) (pos (30 * second))

unfoldable pub candidate_of : ModelConfig → RouteCandidate
unfolding detect_provider
candidate_of m =
    let given = to_lower (trim_space m.provider) in
    record {
      model_name = m.name;
      provider_name = if str_eq given "" then detect_provider m.name else given;
      weight = if leb_ℤ m.weight (pos 0) then pos 1 else m.weight;
      fallback = trim_space m.fallback;
    }

-- `if candidate.fallback != "" { if _, exists := …; !exists { … } }`
abbrev pub add_fallback : String → String → List (String × String) → List (String × String)
add_fallback name fallback m =
    if str_eq fallback ""
    then m
    else elim (lookup name m) [ none ↦ insert name fallback m | some _ ↦ m ]

-- The body of the loop over `cfg.Models`.
unfoldable pub add_model : {F W : Type 0} → Registry F W → ModelConfig → Registry F W
unfolding candidate_of circuit_key
add_model r m =
    if is_blank m.name
    then r
    else if not m.is_active
    then r
    else let c = candidate_of m in
      record r {
        model_routes =
            insert m.name (routes_of (lookup m.name r.model_routes) ++ c ∷ []) r.model_routes;
        model_fallbacks = add_fallback m.name c.fallback r.model_fallbacks;
        circuits = insert (circuit_key c) default_breaker r.circuits;
      }

unfoldable pub add_models : {F W : Type 0} → Registry F W → List ModelConfig → Registry F W
unfolding add_model
add_models r [] = r
add_models r (m ∷ ms) = add_models (add_model r m) ms

-- `NewRegistry`, given the clients that newOpenAIProvider, newAnthropicProvider and
-- newMiniMaxProvider build.
unfoldable pub new_registry :
    {F W : Type 0}
    → System W
    → Client F W
    → Client F W
    → Client F W
    → List ModelConfig
    → Registry F W
unfolding add_models
new_registry sys openai anthropic minimax models =
    add_models
      (record {
        providers = ("openai", openai) ∷ ("anthropic", anthropic) ∷ ("minimax", minimax) ∷ [];
        model_routes = [];
        model_fallbacks = [];
        circuits = [];
        now_func = some sys.now;
        rand_intn = some sys.rand_intn;
      })
      models

abbrev pub or_else {ℓ} : {A : Type ℓ} → Option A → A → A
or_else none d = d
or_else (some a) d = a

unfoldable pub now : {F W : Type 0} → System W → Registry F W → W → ℕ × W
now sys r = or_else r.now_func sys.now

unfoldable pub rand : {F W : Type 0} → System W → Registry F W → ℕ → W → ℕ × W
rand sys r n w = if leb n 1 then (0, w) else or_else r.rand_intn sys.rand_intn n w

unfoldable pub routes_for_model : {F W : Type 0} → Registry F W → String → List RouteCandidate
unfolding detect_provider
routes_for_model r model = elim (routes_of (lookup model r.model_routes)) [
  | [] ↦
      record {
        model_name = model;
        provider_name = detect_provider model;
        weight = pos 1;
        fallback = "";
      }
      ∷ []
  | c ∷ cs ↦ c ∷ cs
]

-- The breaker of a candidate, and the map with it in place.
unfoldable pub ensure_circuit :
    List (String × CircuitBreaker)
    → RouteCandidate
    → CircuitBreaker × List (String × CircuitBreaker)
unfolding circuit_key
ensure_circuit circuits c = elim (lookup (circuit_key c) circuits) [
  | some breaker ↦ (breaker, circuits)
  | none ↦ (default_breaker, insert (circuit_key c) default_breaker circuits)
]

abbrev tripping_status : ℕ → Bool
tripping_status s = s == 429 || s == 500 || s == 502 || s == 503 || s == 504

abbrev is_some {ℓ} : {A : Type ℓ} → Option A → Bool
is_some none = false
is_some (some _) = true

unfoldable pub should_trip_circuit : UpstreamError → Bool
should_trip_circuit e = is_some e.err || tripping_status e.status_code

unfoldable pub should_fallback : UpstreamError → Bool
should_fallback e = not (e.status_code == 400)
