-- ===== src/Embedding.antt =====
-- internal/handler/embedding.go: the handler of /v1/embeddings. `I` is the type of the JSON values
-- of an input. The spans of OpenTelemetry and the log lines are left out.
pub mod Counted
use text.Mathlib.Text.{◌==◌ as str_eq}
use high_performance_llm_gat.Prelude.{
  ℕ, String, List, Option, none, some, Bool, false, map, if◌then◌else◌,
}
use high_performance_llm_gat.Prelude.Int.{ℤ, pos, sub_ℕ}
use high_performance_llm_gat.Prelude.Text.{trim_space, is_blank}
use high_performance_llm_gat.Errors.{
  GatewayError, ErrorResponse, http_status, code_text, to_error_response, bad_request_error,
  service_unavailable_error,
}
use high_performance_llm_gat.Errors.Mapping.{map_embedding_worker_error}
use high_performance_llm_gat.Registry.{System}
use high_performance_llm_gat.Stats.{RequestMetric, milliseconds}
use high_performance_llm_gat.Storage.{Postgres}
use high_performance_llm_gat.Worker as Worker
use high_performance_llm_gat.Worker.{Client, Transport, Generated, done, failed, generate}
use high_performance_llm_gat.Workflow.{WorkflowTrace, Outside}
use high_performance_llm_gat.Recording.{Records, record_request}
use high_performance_llm_gat.Chat.{WorkflowRequestContext, Usage}

pub record EmbeddingRequest (I : Type 0) : Type 0 where
  pub input : I
  pub model : String

pub record EmbedEntry (F : Type 0) : Type 0 where
  pub object : String
  pub embedding : List F
  pub index : ℤ

pub record EmbeddingResponse (F : Type 0) : Type 0 where
  pub object : String
  pub entries : List (EmbedEntry F)
  pub model : String
  pub usage : Usage

abbrev to_entry : {F : Type 0} → Worker.DataEntry F → EmbedEntry F
to_entry e = record { object = e.object; embedding = e.embedding; index = e.index }

unfoldable pub to_embedding_response : {F : Type 0} → Worker.Response F → EmbeddingResponse F
to_embedding_response resp = record {
  object = resp.object;
  entries = map to_entry resp.entries;
  model = resp.model;
  usage = record {
    prompt_tokens = resp.usage.prompt_tokens;
    completion_tokens = resp.usage.completion_tokens;
    total_tokens = resp.usage.total_tokens;
  };
}

-- The answer that is written; `panicked` is one of the recovery middleware.
pub data EmbeddingReply (F : Type 0) : Type 0 where
  json_reply : EmbeddingResponse F → EmbeddingReply F
  error_reply : ℕ → ErrorResponse → EmbeddingReply F
  panicked : EmbeddingReply F

-- The variables that the deferred function reads.
pub record Vars : Type 0 where
  pub status_code : ℕ
  pub error_code : String
  pub total_tokens : ℤ
  pub routed_model : String
  pub requested_model : String
  pub request_model : String

unfoldable pub start_vars : Vars
start_vars = record {
  status_code = 200;
  error_code = "";
  total_tokens = pos 0;
  routed_model = "";
  requested_model = "";
  request_model = "";
}

-- A body that was bound, or the error of `ShouldBindJSON`, which may leave a request filled in part.
pub data Bound (I : Type 0) : Type 0 where
  bound : EmbeddingRequest I → Bound I
  unbound : String → EmbeddingRequest I → Bound I

abbrev embedding_model : String
embedding_model = "text-embedding-ada-002"

unfoldable pub fail_with : {F : Type 0} → GatewayError → Vars → EmbeddingReply F × Vars
fail_with e v = (
  error_reply (http_status e) (to_error_response e),
  record v { status_code = http_status e; error_code = code_text e.code },
)

-- What follows the call of the worker; its result nil, nil is read.
unfoldable pub after_generate : {F : Type 0} → Vars → Option (Generated F) → EmbeddingReply F × Vars
unfolding fail_with to_embedding_response
after_generate v none = (panicked, v)
after_generate v (some (failed e)) = fail_with (map_embedding_worker_error (some e)) v
after_generate v (some (done resp)) = (
  json_reply (to_embedding_response resp),
  record v { status_code = 200; routed_model = resp.model; total_tokens = resp.usage.total_tokens },
)

abbrev or_default : String → String
or_default model = if str_eq model "" then embedding_model else model

module _ {F I W : Type 0} (t : Transport F I W) where
  unfoldable pub call_worker :
      Option Client → EmbeddingRequest I → Vars → W → (EmbeddingReply F × Vars) × W
  unfolding after_generate
  call_worker none req v w =
      (fail_with (service_unavailable_error "embedding worker is not configured") v, w)
  call_worker (some c) req v w =
      let (result, w') = generate t (some c) (record { input = req.input; model = req.model }) w in
      (after_generate v result, w')

  -- The handler up to its deferred function.
  unfoldable pub handle_embedding : Option Client → Bound I → W → (EmbeddingReply F × Vars) × W
  unfolding call_worker start_vars
  handle_embedding worker (unbound e partial) w =
      (fail_with (bad_request_error e) (record start_vars { request_model = partial.model }), w)
  handle_embedding worker (bound req) w =
      let model = or_default req.model in
      let v = record start_vars { requested_model = trim_space req.model; request_model = model } in
      call_worker worker (record req { model = model }) v w

abbrev recorded_model : Vars → String
recorded_model v =
    let model = trim_space v.request_model in if str_eq model "" then embedding_model else model

abbrev routed : Vars → String
routed v = if is_blank v.routed_model then recorded_model v else v.routed_model

unfoldable pub metric_of : Vars → ℤ → RequestMetric
metric_of v latency = record {
  endpoint = "/v1/embeddings";
  model = routed v;
  status_code = pos v.status_code;
  latency = latency;
  cache_hit = false;
  total_tokens = v.total_tokens;
}

unfoldable pub trace_of : {F : Type 0} → F → WorkflowRequestContext → Vars → ℤ → WorkflowTrace F
trace_of zero meta v latency = record {
  trace_id = meta.trace_id;
  timestamp = "";
  endpoint = "/v1/embeddings";
  session_id = meta.session_id;
  step_id = meta.step_id;
  step_type = meta.step_type;
  tool = meta.tool;
  requested_model = if is_blank v.requested_model then recorded_model v else v.requested_model;
  upstream_model = routed v;
  upstream_provider = "embedding_worker";
  status_code = pos v.status_code;
  latency_ms = milliseconds latency;
  cache_hit = false;
  prompt_tokens = pos 0;
  completion_tokens = pos 0;
  total_tokens = v.total_tokens;
  estimated_cost = zero;
  error_code = v.error_code;
}

-- A request that has been answered.
pub record Answered (F W : Type 0) : Type 0 where
  pub reply : EmbeddingReply F
  pub records : Records F
  pub world : W

module _ {F I W : Type 0} (sys : System W) (t : Transport F I W) (out : Outside F W)
    (postgres : Option (Postgres F W)) where
  -- `EmbeddingHandler` with its deferred function, from the first reading of the clock on.
  unfoldable pub embedding_handler :
      Option Client → WorkflowRequestContext → String → Bound I → Records F → W → Answered F W
  unfolding handle_embedding record_request metric_of trace_of
  embedding_handler worker meta api_key_id b r w =
      let (started, w1) = sys.now w in
      let ((reply, v), w2) = handle_embedding t worker b w1 in
      let (ended, w3) = sys.now w2 in
      let latency = sub_ℕ ended started in
      let (r', w4) =
        record_request out postgres api_key_id (metric_of v latency)
          (trace_of out.float.zero meta v latency) r w3 in
      record { reply = reply; records = r'; world = w4 }
