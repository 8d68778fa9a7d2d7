-- ===== src/Chat/Handler.antt =====
-- chat.go: `ChatCompletion`, the handler of /v1/chat/completions, up to the deferred function that
-- records what it did. `W` is the world outside the gateway, Redis included. The spans of
-- OpenTelemetry are left out.
use high_performance_llm_gat.Prelude.{
  ℕ, String, List, Option, none, some, Bool, true, false, if◌then◌else◌,
}
use high_performance_llm_gat.Prelude.Int.{ℤ, pos}
use high_performance_llm_gat.Prelude.Text.{trim_space}
use high_performance_llm_gat.Errors.{
  GatewayError, ErrorResponse, http_status, code_text, to_error_response, bad_request_error,
  service_unavailable_error,
}
use high_performance_llm_gat.Errors.Mapping.{map_upstream_error}
use high_performance_llm_gat.Provider
use high_performance_llm_gat.Registry.{Registry}
use high_performance_llm_gat.Registry.Route.{chat_completion}
use high_performance_llm_gat.Worker.{Client}
use high_performance_llm_gat.Chat.{
  ChatCompletionRequest, ChatCompletionResponse, WorkflowRequestContext, to_provider_request,
  to_handler_response, apply_workflow_route_policy,
}
use high_performance_llm_gat.Chat.Caching.{
  Env, cache_key, l1_of, l2_of, l1_lookup, l2_lookup, l1_store, l2_store,
}
use high_performance_llm_gat.Cache.L2.{Ended}
use high_performance_llm_gat.Cache.L2 as L2
use high_performance_llm_gat.Chat.Validate.{validate_chat_request}
use high_performance_llm_gat.Chat.Stream.{Event, streaming_events}

-- What requests change: the breakers of the registry, the health that the worker client remembers
-- and the world. Registry and client may be nil.
pub record State (F W : Type 0) : Type 0 where
  pub registry : Option (Registry F W)
  pub worker : Option Client
  pub world : W

-- The answer that is written; `panicked` is an answer of the recovery middleware.
pub data HttpReply : Type 0 where
  json_reply : ChatCompletionResponse → HttpReply
  event_stream : List Event → HttpReply
  error_reply : ℕ → ErrorResponse → HttpReply
  panicked : HttpReply

-- The variables that the deferred function reads.
pub record Vars : Type 0 where
  pub status_code : ℕ
  pub cache_hit : Bool
  pub prompt_tokens : ℤ
  pub completion_tokens : ℤ
  pub total_tokens : ℤ
  pub routed_model : String
  pub upstream_provider : String
  pub error_code : String
  pub requested_model : String
  pub request_model : String

unfoldable pub start_vars : Vars
start_vars = record {
  status_code = 200;
  cache_hit = false;
  prompt_tokens = pos 0;
  completion_tokens = pos 0;
  total_tokens = pos 0;
  routed_model = "";
  upstream_provider = "";
  error_code = "";
  requested_model = "";
  request_model = "";
}

unfoldable pub respond : Bool → ChatCompletionResponse → HttpReply
respond stream resp = if stream then event_stream (streaming_events resp) else json_reply resp

-- `gatewayErr.JSON(c)` with the status and the code kept.
unfoldable pub fail_with : GatewayError → Vars → HttpReply × Vars
fail_with e v = (
  error_reply (http_status e) (to_error_response e),
  record v { status_code = http_status e; error_code = code_text e.code },
)

-- A response with its usage kept.
unfoldable pub answer_with : Bool → String → Bool → ChatCompletionResponse → Vars → HttpReply × Vars
unfolding respond
answer_with stream provider cached resp v = (
  respond stream resp,
  record v {
    status_code = 200;
    cache_hit = cached;
    routed_model = resp.model;
    upstream_provider = provider;
    prompt_tokens = resp.usage.prompt_tokens;
    completion_tokens = resp.usage.completion_tokens;
    total_tokens = resp.usage.total_tokens;
  },
)

module _ {F W : Type 0} (env : Env F W) where
  -- A call of the providers: a response and the provider's name, or a gateway error.
  pub data Forwarded : Type 0 where
    forwarded : ChatCompletionResponse → String → Forwarded
    refused : GatewayError → Forwarded

  abbrev pub forwarded_of : Provider.Outcome → Forwarded
  forwarded_of (Provider.answer resp) =
      forwarded (to_handler_response resp) (trim_space resp.provider)
  forwarded_of (Provider.failure e) = refused (map_upstream_error (some e))

  -- `forwardToProvider`
  unfoldable pub forward_to_provider :
      Option (Registry F W) → ChatCompletionRequest F → W → Forwarded × Option (Registry F W) × W
  forward_to_provider none req w =
      (refused (service_unavailable_error "provider registry is not initialized"), none, w)
  forward_to_provider (some r) req w =
      let (o, r', w') = chat_completion env.sys r (to_provider_request req) w in
      (forwarded_of o, some r', w')

  abbrev pub Result : Type 0
  Result = (HttpReply × Vars) × State F W

  -- The end of a request that a provider has answered; a panic leaves the variables as they are.
  unfoldable pub finish :
      (HttpReply × Vars) → Option (Registry F W) → Option Client × Ended W → Result
  finish reply registry (worker, L2.ended e w) =
      (reply, record { registry = registry; worker = worker; world = w })
  finish reply registry (worker, L2.panicked w) =
      ((panicked, reply.1), record { registry = registry; worker = worker; world = w })

  -- What follows the call of the providers.
  unfoldable pub after_forward :
      ChatCompletionRequest F
      → String
      → List F
      → Vars
      → Option Client
      → Forwarded × Option (Registry F W) × W
      → Result
  unfolding l1_store l2_store finish answer_with fail_with
  after_forward req key v vars worker (refused e, registry, w) =
      (fail_with e vars, record { registry = registry; worker = worker; world = w })
  after_forward req key v vars worker (forwarded resp provider, registry, w) =
      let w1 = l1_store env (l1_of env) key resp w in
      finish (answer_with req.stream provider false resp vars) registry
        (l2_store env (l2_of env) key req resp v worker w1)

  -- What follows the L2 lookup.
  unfoldable pub after_l2 :
      ChatCompletionRequest F
      → String
      → Vars
      → Option (Registry F W)
      → Option ChatCompletionResponse × List F × Option Client × W
      → Result
  unfolding answer_with forward_to_provider after_forward
  after_l2 req key vars registry (some resp, v, worker, w) = (
    answer_with req.stream "cache_l2" true resp vars,
    record { registry = registry; worker = worker; world = w },
  )
  after_l2 req key vars registry (none, v, worker, w) =
      after_forward req key v vars worker (forward_to_provider registry req w)

  -- What follows the L1 lookup.
  unfoldable pub after_l1 :
      ChatCompletionRequest F
      → String
      → Vars
      → State F W
      → Option ChatCompletionResponse × W
      → Result
  unfolding answer_with l2_lookup after_l2
  after_l1 req key vars s (some resp, w) =
      (answer_with req.stream "cache_l1" true resp vars, record s { world = w })
  after_l1 req key vars s (none, w) =
      after_l2 req key vars s.registry (l2_lookup env (l2_of env) req s.worker w)

  -- A request that is valid.
  unfoldable pub serve : ChatCompletionRequest F → Vars → State F W → Result
  unfolding l1_lookup cache_key after_l1
  serve req vars s =
      let key = cache_key env req in after_l1 req key vars s (l1_lookup env (l1_of env) key s.world)

  abbrev pub or_serve : Option String → ChatCompletionRequest F → Vars → State F W → Result
  or_serve none req vars s = serve req vars s
  or_serve (some e) req vars s = (fail_with (bad_request_error e) vars, s)

  -- A body that was bound, or the error of `ShouldBindJSON`.
  pub data Bound : Type 0 where
    bound : ChatCompletionRequest F → Bound
    unbound : String → ChatCompletionRequest F → Bound

  -- The handler. A failed binding leaves a request that may be filled in part.
  unfoldable pub handle_chat : WorkflowRequestContext → Bound → State F W → Result
  unfolding serve fail_with start_vars
  handle_chat meta (unbound e partial) s =
      (fail_with (bad_request_error e) (record start_vars { request_model = partial.model }), s)
  handle_chat meta (bound req) s =
      let req' = apply_workflow_route_policy env.config.workflow req meta.step_type in
      let vars = record start_vars {
        requested_model = trim_space req.model;
        request_model = req'.model;
      } in
      or_serve (validate_chat_request env.float req') req' vars s
