-- ===== src/Tests/Gateway.antt =====
-- The chat endpoint with the caches on and no worker: a request, and the same request again.
use high_performance_llm_gat.Prelude.{
  ℕ, ◌≡◌, refl, String, List, [], ◌∷◌, Option, none, some, Bool, true, false,
}
use high_performance_llm_gat.Prelude.Int.{ℤ, pos}
use high_performance_llm_gat.Tests.{whole, reply, plain_config, question}
use high_performance_llm_gat.Tests.Store.{Table, table_redis, all_fields, table-Answers}
use high_performance_llm_gat.Provider as Provider
use high_performance_llm_gat.Registry.{Registry, System}
use high_performance_llm_gat.Worker as Worker
use high_performance_llm_gat.Errors.{bad_request_error, to_error_response}
use high_performance_llm_gat.Cache.{ok}
use high_performance_llm_gat.Cache.L1.{L1Cache, ChatResponse}
use high_performance_llm_gat.Cache.L1 as L1
use high_performance_llm_gat.Cache.L2.{L2Cache}
use high_performance_llm_gat.Chat.{
  ChatCompletionRequest, WorkflowRequestContext, apply_workflow_route_policy, to_handler_response,
  to_cache_response,
}
use high_performance_llm_gat.Chat.Caching.{Env}
use high_performance_llm_gat.Chat.Handler.{
  State, bound, forwarded, handle_chat, forward_to_provider,
}
use high_performance_llm_gat.Chat.Repeat.{
  is_answer, IsIdle, IsCaching, AnswersEncode, first, again, handle_chat-repeat,
}

abbrev pub exact : L1Cache
exact = record { client = true; ttl = pos 60; max_size = pos 2; key_prefix = "l1" }

abbrev semantic : L2Cache ℕ
semantic = record {
  client = true;
  similarity_threshold = 1;
  ttl = pos 60;
  max_size = pos 2;
  key_prefix = "l2";
  vector_dim = pos 1;
}

-- What the one provider answers, as it is cached.
abbrev pub cached : ChatResponse
cached = record {
  id = "1";
  object = "chat.completion";
  created = pos 7;
  model = "gpt-4o";
  choices = [];
  usage = record { prompt_tokens = pos 3; completion_tokens = pos 4; total_tokens = pos 7 };
}

abbrev pub standing : System Table
standing = record { now = λ w. (100, w); rand_intn = λ n w. (0, w) }

abbrev pub silent : Worker.Transport ℕ String Table
silent = record {
  encode = λ req. Worker.ok "{}";
  build = λ url payload. none;
  exchange = λ url payload w. (Worker.fault "refused", w);
  decode = λ body. Worker.fault "empty";
  envelope = λ body. none;
  status_of = λ url w. (none, w);
  sleep = λ b w. (true, w);
  now = λ w. (100, w);
}

abbrev pub gateway : Env ℕ Table
gateway = record {
  float = whole;
  config = plain_config;
  l1_cache = some exact;
  l2_cache = some semantic;
  sys = standing;
  redis = table_redis;
  transport = silent;
  marshal_key = λ payload. ok payload.model;
  hash = λ bytes. bytes;
  marshal_cached = λ r. ok "stored";
  unmarshal_cached = λ text. some cached;
  marshal_response = λ r. ok "stored";
  unmarshal_response = λ text. none;
  marshal_entry = λ e. ok "entry";
  unmarshal_entry = λ text. none;
  unix_now = λ w. pos 9;
}

gateway-IsCaching : IsCaching gateway all_fields
gateway-IsCaching = record {
  cache = exact;
  l1_on = refl;
  connected = refl;
  redis_answers = table-Answers;
}

abbrev pub start : State ℕ Table
start = record {
  registry = some (record {
    providers = ("openai", λ req w. (Provider.answer (reply "gpt-4o"), w)) ∷ [];
    model_routes = [];
    model_fallbacks = [];
    circuits = [];
    now_func = none;
    rand_intn = none;
  });
  worker = some (
      Worker.new_client (record {
        address = "";
        timeout = pos 0;
        retry_max = pos 0;
        retry_backoff = pos 0;
        health_ttl = pos 0;
      }));
  world = [];
}

abbrev pub no_step : WorkflowRequestContext
no_step = record { trace_id = ""; session_id = ""; step_id = ""; step_type = ""; tool = "" }

routed : apply_workflow_route_policy gateway.config.workflow question "" ≡ question
unfolding apply_workflow_route_policy high_performance_llm_gat.Prelude.Text.to_lower
    high_performance_llm_gat.Prelude.Text.trim_space
routed = refl

forwarded_reply :
    (forward_to_provider gateway start.registry question start.world).0
    ≡ forwarded (to_handler_response (reply "gpt-4o")) "gpt-4o"
unfolding forward_to_provider high_performance_llm_gat.Registry.Route.chat_completion
    high_performance_llm_gat.Registry.Order.build_route_queue
    high_performance_llm_gat.Registry.Order.resolve_model_chain
    high_performance_llm_gat.Prelude.Text.trim_space
    high_performance_llm_gat.Chat.to_provider_request high_performance_llm_gat.Prelude.Dict.contains
    high_performance_llm_gat.Registry.Order.next_model high_performance_llm_gat.Prelude.Dict.lookup
    high_performance_llm_gat.Registry.Order.fresh_routes
    high_performance_llm_gat.Registry.Order.weighted_order
    high_performance_llm_gat.Registry.routes_for_model
    high_performance_llm_gat.Registry.Route.try_route
    high_performance_llm_gat.Prelude.Text.has_prefix high_performance_llm_gat.Prelude.Text.to_lower
    high_performance_llm_gat.Breaker.allow high_performance_llm_gat.Registry.ensure_circuit
    high_performance_llm_gat.Breaker.new_circuit_breaker
    high_performance_llm_gat.Breaker.record_failure high_performance_llm_gat.Breaker.record_success
    high_performance_llm_gat.Chat.from_provider_choice to_handler_response
    high_performance_llm_gat.Chat.to_provider_message
    high_performance_llm_gat.Errors.Mapping.map_status
    high_performance_llm_gat.Errors.Mapping.map_upstream_error
    high_performance_llm_gat.Errors.bad_gateway_error bad_request_error
    high_performance_llm_gat.Errors.circuit_open_error
    high_performance_llm_gat.Errors.internal_server_error
    high_performance_llm_gat.Errors.invalid_api_key_error
    high_performance_llm_gat.Errors.key_disabled_error
    high_performance_llm_gat.Errors.model_overloaded_error high_performance_llm_gat.Errors.new_error
    high_performance_llm_gat.Errors.provider_failure
    high_performance_llm_gat.Errors.rate_limit_exceeded_error
    high_performance_llm_gat.Errors.service_unavailable_error
    high_performance_llm_gat.Prelude.Dict.insert high_performance_llm_gat.Prelude.Int.wrap
    high_performance_llm_gat.Prelude.Int.◌+ℤ◌ high_performance_llm_gat.Prelude.Text.char_or
    high_performance_llm_gat.Prelude.Text.contains_text
    high_performance_llm_gat.Prelude.Text.is_space high_performance_llm_gat.Prelude.Text.lower_char
    high_performance_llm_gat.Prelude.Text.push_trimmed
    high_performance_llm_gat.Prelude.Text.trim_left high_performance_llm_gat.Prelude.Text.trim_right
    high_performance_llm_gat.Registry.Order.chain_from
    high_performance_llm_gat.Registry.Order.order_from
    high_performance_llm_gat.Registry.Order.pick_at
    high_performance_llm_gat.Registry.Order.queue_from high_performance_llm_gat.Registry.Order.scan
    high_performance_llm_gat.Registry.Order.total_weight
    high_performance_llm_gat.Registry.Order.weighted_pick_index
    high_performance_llm_gat.Registry.Route.after_call
    high_performance_llm_gat.Registry.Route.conclude
    high_performance_llm_gat.Registry.Route.try_client
    high_performance_llm_gat.Registry.Route.try_routes high_performance_llm_gat.Registry.circuit_key
    high_performance_llm_gat.Registry.detect_provider high_performance_llm_gat.Registry.now
    high_performance_llm_gat.Registry.rand high_performance_llm_gat.Registry.should_fallback
    high_performance_llm_gat.Registry.should_trip_circuit
forwarded_reply = refl

answered :
    AnswersEncode gateway all_fields gateway-IsCaching
      (forward_to_provider gateway start.registry
        (apply_workflow_route_policy gateway.config.workflow question no_step.step_type)
        start.world).0
unfolding to_cache_response to_handler_response
answered = rw (routed, forwarded_reply) ("stored", refl, refl)

nowhere : IsIdle start.worker
unfolding Worker.new_client high_performance_llm_gat.Prelude.Text.trim_space
    high_performance_llm_gat.Prelude.Text.trim_slashes
nowhere = refl

given : is_answer (handle_chat gateway no_step (bound question) start).0.0 ≡ true
unfolding handle_chat high_performance_llm_gat.Chat.Validate.validate_chat_request
    high_performance_llm_gat.Prelude.Text.trim_space apply_workflow_route_policy
    high_performance_llm_gat.Prelude.Text.to_lower L1.get L1.set forward_to_provider
    high_performance_llm_gat.Registry.Route.chat_completion
    high_performance_llm_gat.Registry.Order.build_route_queue
    high_performance_llm_gat.Registry.Order.resolve_model_chain
    high_performance_llm_gat.Chat.to_provider_request high_performance_llm_gat.Prelude.Dict.contains
    high_performance_llm_gat.Registry.Order.next_model high_performance_llm_gat.Prelude.Dict.lookup
    high_performance_llm_gat.Registry.Order.fresh_routes
    high_performance_llm_gat.Registry.Order.weighted_order
    high_performance_llm_gat.Registry.routes_for_model
    high_performance_llm_gat.Registry.Route.try_route
    high_performance_llm_gat.Prelude.Text.has_prefix high_performance_llm_gat.Breaker.allow
    high_performance_llm_gat.Registry.ensure_circuit
    high_performance_llm_gat.Breaker.new_circuit_breaker
    high_performance_llm_gat.Breaker.record_failure high_performance_llm_gat.Breaker.record_success
    high_performance_llm_gat.Chat.from_provider_choice to_handler_response
    high_performance_llm_gat.Chat.to_provider_message
    high_performance_llm_gat.Errors.Mapping.map_status
    high_performance_llm_gat.Errors.Mapping.map_upstream_error
    high_performance_llm_gat.Errors.bad_gateway_error bad_request_error
    high_performance_llm_gat.Errors.circuit_open_error
    high_performance_llm_gat.Errors.internal_server_error
    high_performance_llm_gat.Errors.invalid_api_key_error
    high_performance_llm_gat.Errors.key_disabled_error
    high_performance_llm_gat.Errors.model_overloaded_error high_performance_llm_gat.Errors.new_error
    high_performance_llm_gat.Errors.provider_failure
    high_performance_llm_gat.Errors.rate_limit_exceeded_error
    high_performance_llm_gat.Errors.service_unavailable_error
    high_performance_llm_gat.Prelude.Dict.insert high_performance_llm_gat.Prelude.Int.wrap
    high_performance_llm_gat.Prelude.Int.◌+ℤ◌ high_performance_llm_gat.Prelude.Text.char_or
    high_performance_llm_gat.Prelude.Text.contains_text
    high_performance_llm_gat.Prelude.Text.is_space high_performance_llm_gat.Prelude.Text.lower_char
    high_performance_llm_gat.Prelude.Text.push_trimmed
    high_performance_llm_gat.Prelude.Text.trim_left high_performance_llm_gat.Prelude.Text.trim_right
    high_performance_llm_gat.Registry.Order.chain_from
    high_performance_llm_gat.Registry.Order.order_from
    high_performance_llm_gat.Registry.Order.pick_at
    high_performance_llm_gat.Registry.Order.queue_from high_performance_llm_gat.Registry.Order.scan
    high_performance_llm_gat.Registry.Order.total_weight
    high_performance_llm_gat.Registry.Order.weighted_pick_index
    high_performance_llm_gat.Registry.Route.after_call
    high_performance_llm_gat.Registry.Route.conclude
    high_performance_llm_gat.Registry.Route.try_client
    high_performance_llm_gat.Registry.Route.try_routes high_performance_llm_gat.Registry.circuit_key
    high_performance_llm_gat.Registry.detect_provider high_performance_llm_gat.Registry.now
    high_performance_llm_gat.Registry.rand high_performance_llm_gat.Registry.should_fallback
    high_performance_llm_gat.Registry.should_trip_circuit Worker.healthy Worker.new_client
    high_performance_llm_gat.Prelude.Text.trim_slashes
given = refl

handle_chat-repeat_example :
    ((again gateway all_fields gateway-IsCaching no_step question start).0.0
      ≡ (first gateway all_fields gateway-IsCaching no_step question start).0.0)
    × ((again gateway all_fields gateway-IsCaching no_step question start).1
        ≡ (first gateway all_fields gateway-IsCaching no_step question start).1)
    × ((again gateway all_fields gateway-IsCaching no_step question start).0.1.upstream_provider
        ≡ "cache_l1")
    × ((again gateway all_fields gateway-IsCaching no_step question start).0.1.cache_hit ≡ true)
handle_chat-repeat_example =
    handle_chat-repeat gateway all_fields gateway-IsCaching no_step question start nowhere answered
      given
