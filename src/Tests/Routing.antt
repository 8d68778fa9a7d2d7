-- ===== src/Tests/Routing.antt =====
-- The registry with two models: the fallback chain, the order of the routes and the calls of the
-- providers at concrete inputs.
use mathlib.Core.List.{Perm, mem-cons_self, mem-cons_of_mem}
use text.Mathlib.TextEquality.{eq_iff}
use high_performance_llm_gat.Prelude.{
  ℕ, zero, suc, ◌+◌, ◌*◌, ◌≤◌, ◌<◌, ◌≡◌, ◌≢◌, refl, String, List, [], ◌∷◌, Option, none, some, Bool,
  true, false, not, arith, ◌==◌, ltb, leb, All, length, map, inl, inr,
}
use high_performance_llm_gat.Prelude.Int.{ℤ, pos}
use high_performance_llm_gat.Prelude.Text.{trim_space}
use high_performance_llm_gat.Prelude.Dict.{contains, lookup, insert}
use high_performance_llm_gat.Config.{ModelConfig}
use high_performance_llm_gat.Tests.{counting, answering, failing, model_of, reply}
use high_performance_llm_gat.Provider.{ChatCompletionRequest, answer, failure, UpstreamError}
use high_performance_llm_gat.Registry.{
  Registry, RouteCandidate, new_registry, routes_for_model, circuit_key, default_breaker, rand, now,
  add_models, add_model, candidate_of, detect_provider, ensure_circuit,
}
use high_performance_llm_gat.Breaker.{allow, new_circuit_breaker, CircuitBreaker}
use high_performance_llm_gat.Registry.Route.{chat_completion, model_or_default}
use high_performance_llm_gat.Registry.Circuits.{
  AllValid, add_models-AllValid, chat_completion-AllValid,
}
use high_performance_llm_gat.Registry.Results.{Called, chat_completion-Called}
use high_performance_llm_gat.Registry.Refusal.{
  clock_reads, breaker_of, chat_completion-Refused, chat_completion-first,
}
use high_performance_llm_gat.Errors.{circuit_open}
use high_performance_llm_gat.Errors.Mapping.{map_upstream_error}
use high_performance_llm_gat.Registry.Order.{
  resolve_model_chain, weighted_pick_index, weighted_order, build_route_queue,
}
use high_performance_llm_gat.Registry.Chain.{IsChain, resolve_model_chain-IsChain}
use high_performance_llm_gat.Registry.Weights.{weighted_order-perm, weighted_pick_index-share}
use high_performance_llm_gat.Registry.Queue.{
  NewKeys, build_route_queue-NewKeys, build_route_queue-covers,
}

abbrev models : List ModelConfig
models =
    model_of "gpt-4o" "openai" "claude-3" 3
    ∷ model_of "gpt-4o" "minimax" "" 1
    ∷ model_of "claude-3" "anthropic" "gpt-4o" 1
    ∷ []

-- `gpt-4o` is served by two providers and falls back to `claude-3`, and that to `gpt-4o`.
abbrev two_models : Registry ℕ ℕ
two_models = new_registry counting answering failing answering models

resolve_model_chain-IsChain_example :
    (rest : List String) × (resolve_model_chain two_models " gpt-4o" ≡ trim_space " gpt-4o" ∷ rest)
    × IsChain two_models.model_fallbacks [] (trim_space " gpt-4o" ∷ rest)
unfolding trim_space
resolve_model_chain-IsChain_example =
    resolve_model_chain-IsChain two_models " gpt-4o" (λ e. ground (arith, (eq_iff "gpt-4o" "").1 e))

abbrev first_route : RouteCandidate
first_route = record {
  model_name = "gpt-4o";
  provider_name = "openai";
  weight = pos 3;
  fallback = "claude-3";
}

abbrev second_route : RouteCandidate
second_route = record {
  model_name = "gpt-4o";
  provider_name = "minimax";
  weight = pos 1;
  fallback = "";
}

weighted_order-perm_example :
    Perm
      (weighted_order counting two_models (first_route ∷ second_route ∷ []) 0).0
      (first_route ∷ second_route ∷ [])
weighted_order-perm_example =
    weighted_order-perm counting two_models (first_route ∷ second_route ∷ []) 0

-- The random source draws 3, which lies in the share of the second route.
abbrev drawing_three : Registry ℕ ℕ
drawing_three = record two_models { rand_intn = some (λ n w. (3, w)) }

weighted_pick_index-share_example :
    weighted_pick_index counting drawing_three (first_route ∷ second_route ∷ []) 7 ≡ (1, 7)
weighted_pick_index-share_example =
    weighted_pick_index-share counting drawing_three (first_route ∷ second_route ∷ []) second_route
      1 0 7 7 (omega arith) refl (omega arith) (unfold rand in refl)

build_route_queue-NewKeys_example : NewKeys [] (build_route_queue counting two_models "gpt-4o" 0).0
build_route_queue-NewKeys_example = build_route_queue-NewKeys counting two_models "gpt-4o" 0

chain : resolve_model_chain two_models "gpt-4o" ≡ "gpt-4o" ∷ "claude-3" ∷ []
unfolding resolve_model_chain new_registry trim_space lookup insert contains
    high_performance_llm_gat.Registry.Order.next_model
chain = refl

routes : routes_for_model two_models "gpt-4o" ≡ first_route ∷ second_route ∷ []
unfolding routes_for_model lookup new_registry trim_space insert
    high_performance_llm_gat.Prelude.Text.to_lower
routes = refl

abbrev later_routes : List RouteCandidate
later_routes =
    second_route
    ∷ record {
      model_name = "claude-3";
      provider_name = "anthropic";
      weight = pos 1;
      fallback = "gpt-4o";
    }
    ∷ []

queue : build_route_queue counting two_models "gpt-4o" 0 ≡ (first_route ∷ later_routes, 0)
unfolding build_route_queue resolve_model_chain new_registry trim_space lookup insert contains
    high_performance_llm_gat.Registry.Order.next_model
    high_performance_llm_gat.Registry.Order.fresh_routes weighted_order routes_for_model
    high_performance_llm_gat.Registry.Order.pick_at weighted_pick_index
    high_performance_llm_gat.Prelude.Int.◌+ℤ◌ rand high_performance_llm_gat.Prelude.Text.to_lower
queue = refl

build_route_queue-covers_example :
    contains
      (map circuit_key (build_route_queue counting two_models "gpt-4o" 0).0)
      (circuit_key second_route)
    ≡ true
build_route_queue-covers_example =
    build_route_queue-covers counting two_models "gpt-4o" "gpt-4o" second_route 0
      (rw chain (mem-cons_self {l = "claude-3" ∷ []}))
      (rw routes (mem-cons_of_mem first_route mem-cons_self))

-- A request of the registry.
abbrev ask : ChatCompletionRequest ℕ
ask = record {
  model = "gpt-4o";
  messages = [];
  temperature = 1;
  max_tokens = pos 9;
  top_p = 1;
  stream = false;
  stop = [];
}

circuits-valid : AllValid two_models.circuits
circuits-valid = unfold new_registry in add_models-AllValid _ models tt

chat_completion-AllValid_example : AllValid (chat_completion counting two_models ask 0).1.circuits
unfolding now new_registry trim_space
chat_completion-AllValid_example =
    chat_completion-AllValid counting two_models (λ w. omega arith) ask 0 circuits-valid

admitted :
    (allow (breaker_of two_models.circuits first_route) (now counting two_models 0).0).1 ≡ true
unfolding allow ensure_circuit lookup new_registry trim_space insert
    high_performance_llm_gat.Prelude.Text.to_lower new_circuit_breaker
admitted = refl

chat_completion-first_example :
    ((chat_completion counting two_models ask 0).0 ≡ answer (reply "gpt-4o"))
    × ((chat_completion counting two_models ask 0).2 ≡ 11)
unfolding trim_space lookup new_registry
chat_completion-first_example =
    chat_completion-first counting two_models ask 0 0 11 first_route later_routes answering
      (answer (reply "gpt-4o")) (answer (reply "gpt-4o")) (queue) refl admitted (unfold now in refl)
      refl

answered : (chat_completion counting two_models ask 0).0 ≡ answer (reply "gpt-4o")
unfolding trim_space lookup new_registry
answered =
    (chat_completion-first counting two_models ask 0 0 11 first_route later_routes answering
      (answer (reply "gpt-4o")) (answer (reply "gpt-4o")) queue refl admitted (unfold now in refl)
      refl).0

chat_completion-Called_example :
    Called counting two_models ask
      (build_route_queue counting two_models (model_or_default "gpt-4o") 0).0
      (answer (reply "gpt-4o"))
chat_completion-Called_example =
    chat_completion-Called counting two_models ask 0 (reply "gpt-4o") answered

-- The breaker of the one route is open, and the clock stands still.
abbrev open_breaker : CircuitBreaker
open_breaker = record {
  failure_threshold = 3;
  open_timeout = 30;
  consecutive_failures = pos 3;
  opened_at = 90;
}

abbrev one_route : RouteCandidate
one_route = record {
  model_name = "gpt-4o";
  provider_name = "openai";
  weight = pos 1;
  fallback = "";
}

abbrev refusing : Registry ℕ ℕ
refusing = record {
  providers = ("openai", answering) ∷ [];
  model_routes = ("gpt-4o", one_route ∷ []) ∷ [];
  model_fallbacks = [];
  circuits = ("openai:gpt-4o", open_breaker) ∷ [];
  now_func = some (λ w. (100 + w, w + 1));
  rand_intn = none;
}

one_queued : build_route_queue counting refusing (model_or_default "gpt-4o") 0 ≡ (one_route ∷ [], 0)
unfolding build_route_queue resolve_model_chain trim_space contains
    high_performance_llm_gat.Registry.Order.next_model lookup
    high_performance_llm_gat.Registry.Order.fresh_routes weighted_order routes_for_model
one_queued = refl

refused :
    allow (breaker_of refusing.circuits one_route) (now counting refusing 0).0
    ≡ (breaker_of refusing.circuits one_route, false)
unfolding allow ensure_circuit lookup now
refused = refl

chat_completion-Refused_example :
    (e : UpstreamError) × ((chat_completion counting refusing ask 0).0 ≡ failure e)
    × ((map_upstream_error (some e)).code ≡ circuit_open)
    × ((chat_completion counting refusing ask 0).2 ≡ clock_reads counting refusing ask 1 0)
chat_completion-Refused_example =
    chat_completion-Refused counting refusing ask 0 0 one_route [] one_queued
      (((answering, unfold lookup in refl), refused), tt)
