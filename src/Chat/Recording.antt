-- ===== src/Chat/Recording.antt =====
-- chat.go: the handler of /v1/chat/completions with its deferred function.
use high_performance_llm_gat.Prelude.{String, Option, if◌then◌else◌}
use high_performance_llm_gat.Prelude.Int.{ℤ, pos, sub_ℕ}
use high_performance_llm_gat.Prelude.Text.{trim_space, is_blank}
use high_performance_llm_gat.Stats.{RequestMetric, model_or_unknown, milliseconds}
use high_performance_llm_gat.Storage.{Postgres}
use high_performance_llm_gat.Workflow.{WorkflowTrace, Outside}
use high_performance_llm_gat.Recording.{Records, record_request}
use high_performance_llm_gat.Chat.{WorkflowRequestContext, routed_model_or_request}
use high_performance_llm_gat.Chat.Caching.{Env}
use high_performance_llm_gat.Chat.Handler.{State, HttpReply, Vars, Bound, handle_chat}

-- The request's model, and the model that the deferred function calls routed.
abbrev recorded_model : Vars → String
recorded_model v = model_or_unknown (trim_space v.request_model)

unfoldable pub routed : Vars → String
unfolding routed_model_or_request
routed v = routed_model_or_request v.routed_model (recorded_model v)

unfoldable pub metric_of : Vars → ℤ → RequestMetric
unfolding routed
metric_of v latency = record {
  endpoint = "/v1/chat/completions";
  model = routed v;
  status_code = pos v.status_code;
  latency = latency;
  cache_hit = v.cache_hit;
  total_tokens = v.total_tokens;
}

-- The trace; the tracer fills in the time and the cost.
unfoldable pub trace_of : {F : Type 0} → F → WorkflowRequestContext → Vars → ℤ → WorkflowTrace F
unfolding routed
trace_of zero meta v latency = record {
  trace_id = meta.trace_id;
  timestamp = "";
  endpoint = "/v1/chat/completions";
  session_id = meta.session_id;
  step_id = meta.step_id;
  step_type = meta.step_type;
  tool = meta.tool;
  requested_model = if is_blank v.requested_model then recorded_model v else v.requested_model;
  upstream_model = routed v;
  upstream_provider = v.upstream_provider;
  status_code = pos v.status_code;
  latency_ms = milliseconds latency;
  cache_hit = v.cache_hit;
  prompt_tokens = v.prompt_tokens;
  completion_tokens = v.completion_tokens;
  total_tokens = v.total_tokens;
  estimated_cost = zero;
  error_code = v.error_code;
}

-- A request that has been answered.
pub record Answered (F W : Type 0) : Type 0 where
  pub reply : HttpReply
  pub state : State F W
  pub records : Records F

module _ {F W : Type 0} (env : Env F W) (out : Outside F W) (postgres : Option (Postgres F W)) where
  -- The deferred function, given the time that the request took; `api_key_id` is the empty text if
  -- the context has none.
  unfoldable pub record_chat :
      WorkflowRequestContext → String → Vars → ℤ → Records F → W → Records F × W
  unfolding record_request metric_of trace_of
  record_chat meta api_key_id v latency r w =
      record_request out postgres api_key_id (metric_of v latency)
        (trace_of out.float.zero meta v latency) r w

  -- `ChatCompletion`, from the first reading of the clock on.
  unfoldable pub chat_endpoint :
      WorkflowRequestContext → String → Bound env → State F W → Records F → Answered F W
  unfolding handle_chat record_chat
  chat_endpoint meta api_key_id b s r =
      let (started, w1) = env.sys.now s.world in
      let ((reply, v), s1) = handle_chat env meta b (record s { world = w1 }) in
      let (ended, w2) = env.sys.now s1.world in
      let (r', w3) = record_chat meta api_key_id v (sub_ℕ ended started) r w2 in
      record { reply = reply; state = record s1 { world = w3 }; records = r' }
