-- ===== src/Recording.antt =====
-- What the handlers of chat and of embeddings record of a request: the usage statistics, the request
-- log (internal/handler/request_log.go) and the workflow tracer. Log lines are left out.
pub mod Counted
use high_performance_llm_gat.Prelude.{String, Option, none, some}
use high_performance_llm_gat.Prelude.Int.{ℤ}
use high_performance_llm_gat.Prelude.Float.{Float}
use high_performance_llm_gat.Stats.{UsageStats, RequestMetric, record_metric, milliseconds}
use high_performance_llm_gat.Storage.{Postgres, insert_request_log}
use high_performance_llm_gat.Workflow.{WorkflowTrace, WorkflowTracer, Outside}
use high_performance_llm_gat.Workflow.Tracer.{record_trace}

-- `DefaultUsageStats` and `DefaultWorkflowTracer`, which the whole process shares.
pub record Records (F : Type 0) : Type 0 where
  pub stats : UsageStats F
  pub tracer : WorkflowTracer F

module _ {F W : Type 0} where
  -- `persistRequestLog`, whose other arguments are those of the metric; an error is only logged.
  unfoldable pub persist_request_log : Option (Postgres F W) → String → RequestMetric → W → W
  unfolding insert_request_log
  persist_request_log none api_key_id m w = w
  persist_request_log (some pg) api_key_id m w =
      (insert_request_log (some pg)
        (record {
          endpoint = m.endpoint;
          api_key_id = api_key_id;
          model = m.model;
          status_code = m.status_code;
          latency_ms = milliseconds m.latency;
          cache_hit = m.cache_hit;
          total_tokens = m.total_tokens;
        })
        w).1

  -- The three calls of the deferred functions, in their order.
  unfoldable pub record_request :
      Outside F W
      → Option (Postgres F W)
      → String
      → RequestMetric
      → WorkflowTrace F
      → Records F
      → W
      → Records F × W
  unfolding persist_request_log
  record_request out postgres api_key_id m t r w =
      let (timestamp, w1) = out.timestamp_now w in
      let stats = record_metric out.float timestamp m r.stats in
      let w2 = persist_request_log postgres api_key_id m w1 in
      let (tracer, w3) = record_trace out r.tracer t w2 in
      (record { stats = stats; tracer = tracer }, w3)
