-- ===== src/Tests/Records.antt =====
-- What is recorded: two traces of a session, two requests in the statistics, and a request for an
-- embedding whose worker does not answer.
use text.Mathlib.TextEquality.{eq_iff}
use high_performance_llm_gat.Prelude.{
  ℕ, ◌≡◌, ◌≢◌, String, List, [], ◌∷◌, none, some, Bool, true, false, arith, length, ◌++◌, ◌-◌, ◌≤◌,
  All,
}
use high_performance_llm_gat.Prelude.Int.{pos}
use high_performance_llm_gat.Prelude.Text.{trim_space}
use high_performance_llm_gat.Prelude.Dict.{lookup}
use high_performance_llm_gat.Prelude.Sorting.{IsSorted, Before}
use mathlib.Core.List.{Perm}
use mathlib.Core.List.Perm
use high_performance_llm_gat.Stats.Order.{counters, snapshot-record_all_perm}
use high_performance_llm_gat.Tests.{whole}
use high_performance_llm_gat.Tests.Store.{Table, table_redis}
use high_performance_llm_gat.Tests.Gateway.{standing, silent}
use high_performance_llm_gat.Cache.{Reply, ok}
use high_performance_llm_gat.Workflow.{WorkflowTrace, WorkflowTracer, Outside, new_workflow_tracer}
use high_performance_llm_gat.Workflow.Tracer.{
  get_summary, list_summaries, summaries, no_earlier, limit_or_default,
}
use high_performance_llm_gat.Workflow.Refines.{
  IsSummary, of_session, record_all, record_all-IsSummary,
}
use high_performance_llm_gat.Workflow.Latest.{list_summaries_latest}
use high_performance_llm_gat.Stats as Stats
use high_performance_llm_gat.Stats.{snapshot, new_usage_stats}
use high_performance_llm_gat.Stats.Laws as Laws
use high_performance_llm_gat.Stats.Mean.{usage_entry, snapshot-record_all}
use high_performance_llm_gat.Recording.{Records}
use high_performance_llm_gat.Worker.{Settings}
use high_performance_llm_gat.Embedding.{Bound, bound}
use high_performance_llm_gat.Embedding.Counted.{client_of}
use high_performance_llm_gat.Chat.{extract_workflow_request_context}
use high_performance_llm_gat.Server.{Connections, embedding_route}
use high_performance_llm_gat.Server.Embeddings.{IsHandled, embedding_route-IsHandled}

abbrev pub outside : Outside ℕ Table
outside = record {
  float = whole;
  timestamp_now = λ w. ("2026-01-01T00:00:00Z", w);
  unix_nano = λ w. (7, w);
  random_hex = λ w. (some "ab", w);
  marshal_trace = λ t. ok t.session_id;
  dir_of = λ path. "logs";
  mkdir_all = λ dir w. (none, w);
  open_append = λ path w. (none, w);
  write_line = λ path line w. (none, (path, line) ∷ w);
}

abbrev trace_of : String → ℕ → WorkflowTrace ℕ
trace_of session status = record {
  trace_id = "";
  timestamp = "";
  endpoint = "/v1/chat/completions";
  session_id = session;
  step_id = "";
  step_type = "planning";
  tool = "";
  requested_model = "gpt-4o";
  upstream_model = "gpt-4o";
  upstream_provider = "openai";
  status_code = pos status;
  latency_ms = pos 5;
  cache_hit = false;
  prompt_tokens = pos 3;
  completion_tokens = pos 4;
  total_tokens = pos 7;
  estimated_cost = 0;
  error_code = "";
}

abbrev traces : List (WorkflowTrace ℕ)
traces = trace_of "s" 200 ∷ trace_of "other" 200 ∷ trace_of "s" 503 ∷ []

named : trim_space "s" ≢ ""
unfolding trim_space
named h = ground (arith, (eq_iff "s" "").1 h)

record_all-IsSummary_example :
    IsSummary whole
      (get_summary (record_all outside "" traces []).tracer "s")
      (trim_space "s")
      (of_session whole (record_all outside "" traces []).seen (trim_space "s"))
record_all-IsSummary_example = record_all-IsSummary outside "" traces [] "s" named

abbrev traced : WorkflowTracer ℕ
traced = (record_all outside "" traces []).tracer

list_summaries_latest_example :
    (left : List _) × Perm (list_summaries traced (pos 1) ++ left) (summaries traced.sessions)
    × IsSorted no_earlier (list_summaries traced (pos 1))
    × (length (list_summaries traced (pos 1)) ≤ limit_or_default (pos 1))
    × (length left ≡ length (summaries traced.sessions) - limit_or_default (pos 1))
    × All (λ s. All (Before no_earlier s) left) (list_summaries traced (pos 1))
list_summaries_latest_example = list_summaries_latest traced (pos 1)

abbrev metric : ℕ → Bool → Stats.RequestMetric
metric status hit = record {
  endpoint = "/v1/chat/completions";
  model = "gpt-4o";
  status_code = pos status;
  latency = pos 5_000_000;
  cache_hit = hit;
  total_tokens = pos 7;
}

abbrev metrics : List Laws.Event
metrics = ("2026", metric 200 true) ∷ ("2025", metric 503 false) ∷ []

snapshot-record_all_example :
    ((snapshot whole (Laws.record_all whole metrics)).total_requests ≡ Laws.requests metrics)
    × ((snapshot whole (Laws.record_all whole metrics)).total_tokens ≡ Laws.tokens metrics)
    × ((snapshot whole (Laws.record_all whole metrics)).cache_hit_rate
        ≡ Laws.hit_rate whole metrics)
    × ((k : String)
        → lookup k (snapshot whole (Laws.record_all whole metrics)).models
          ≡ usage_entry whole (Laws.of_model whole metrics k))
snapshot-record_all_example = snapshot-record_all whole metrics (omega arith)

abbrev reordered : List Laws.Event
reordered = ("2025", metric 503 false) ∷ ("2026", metric 200 true) ∷ []

snapshot-record_all_perm_example :
    let a = snapshot whole (Laws.record_all whole metrics) in
    let b = snapshot whole (Laws.record_all whole reordered) in
    (a.total_requests ≡ b.total_requests)
    × (a.total_tokens ≡ b.total_tokens)
    × (a.cache_hit_rate ≡ b.cache_hit_rate)
    × ((k : String) → counters (lookup k a.models) ≡ counters (lookup k b.models))
snapshot-record_all_perm_example =
    snapshot-record_all_perm whole
      (Perm.swap ("2025", metric 503 false) ("2026", metric 200 true) [])

abbrev pub fresh : Records ℕ
fresh = record { stats = new_usage_stats; tracer = new_workflow_tracer "" }

abbrev worker : Settings
worker = record {
  address = "http://worker";
  timeout = pos 0;
  retry_max = pos 2;
  retry_backoff = pos 0;
  health_ttl = pos 0;
}

abbrev input : Bound String
input = bound (record { input = "hello"; model = "" })

-- Every key has the records of the table.
abbrev hgetall : String → Table → Reply (List (String × String)) × Table
hgetall key w = (ok w, w)

abbrev with_key : String → String
with_key name = "Bearer sk-1"

abbrev connected : Connections ℕ Table
connected = record { redis = some table_redis; postgres = none }

embedding_route-IsHandled_example :
    IsHandled whole (extract_workflow_request_context with_key).session_id fresh (
      embedding_route standing silent outside connected
        (λ key. key)
        hgetall
        (client_of (some worker))
        with_key
        input
        fresh
        (("id", "7") ∷ []))
embedding_route-IsHandled_example =
    embedding_route-IsHandled standing silent outside connected (λ key. key) hgetall (some worker)
      with_key input fresh (("id", "7") ∷ [])
