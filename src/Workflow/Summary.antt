-- ===== src/Workflow/Summary.antt =====
-- workflow.go: `updateSummary`, which adds one trace to the summary of its session.
use text.Mathlib.Text.{◌==◌ as str_eq}
use high_performance_llm_gat.Prelude.{String, List, [], Option, none, some, Bool, if◌then◌else◌}
use high_performance_llm_gat.Prelude.Int.{ℤ, pos, ltb_ℤ, leb_ℤ, ◌+ℤ◌}
use high_performance_llm_gat.Prelude.Text.{trim_space, is_blank}
use high_performance_llm_gat.Prelude.Dict.{lookup, insert}
use high_performance_llm_gat.Prelude.Tally.{add_if}
use high_performance_llm_gat.Prelude.Float.{Float}
use high_performance_llm_gat.Workflow.{
  WorkflowTrace, PhaseSummary, WorkflowSummaryState, WorkflowTracer,
}

-- Go's zero value for a number that a map does not have.
abbrev pub value_of : Option ℤ → ℤ
value_of none = pos 0
value_of (some n) = n

abbrev pub is_error : ℤ → Bool
is_error status = leb_ℤ (pos 400) status

module _ {F : Type 0} (fl : Float F) where
  abbrev pub zero_phase : PhaseSummary F
  zero_phase = record {
    requests = pos 0;
    errors = pos 0;
    avg_latency_ms = fl.zero;
    total_tokens = pos 0;
    estimated_cost = fl.zero;
  }

  abbrev pub phase_or_zero : Option (PhaseSummary F) → PhaseSummary F
  phase_or_zero none = zero_phase
  phase_or_zero (some s) = s

  -- The summary of a phase or of a tool with one trace more, given the sums of latencies and of
  -- requests that include it.
  unfoldable pub grow : WorkflowTrace F → PhaseSummary F → ℤ → ℤ → PhaseSummary F
  grow t s latency requests = record {
    requests = s.requests +ℤ pos 1;
    errors = add_if (is_error t.status_code) (pos 1) s.errors;
    avg_latency_ms = fl.div (fl.of_int latency) (fl.of_int requests);
    total_tokens = add_if (ltb_ℤ (pos 0) t.total_tokens) t.total_tokens s.total_tokens;
    estimated_cost = fl.add s.estimated_cost t.estimated_cost;
  }

  -- The three maps of the phases, or of the tools.
  pub record Groups : Type 0 where
    pub summaries : List (String × PhaseSummary F)
    pub latency : List (String × ℤ)
    pub requests : List (String × ℤ)

  unfoldable pub add_group : WorkflowTrace F → String → Groups → Groups
  unfolding grow
  add_group t key g =
      let latency = value_of (lookup key g.latency) +ℤ t.latency_ms in
      let requests = value_of (lookup key g.requests) +ℤ pos 1 in
      record {
        summaries =
            insert key (grow t (phase_or_zero (lookup key g.summaries)) latency requests)
              g.summaries;
        latency = insert key latency g.latency;
        requests = insert key requests g.requests;
      }

  abbrev pub phase_of : WorkflowTrace F → String
  phase_of t = let phase = trim_space t.step_type in if str_eq phase "" then "default" else phase

  -- The tools, which a trace without a tool leaves as they are.
  unfoldable pub add_tool : WorkflowTrace F → Groups → Groups
  unfolding add_group
  add_tool t g = let tool = trim_space t.tool in if str_eq tool "" then g else add_group t tool g

  -- The state of a session that has no trace yet.
  unfoldable pub new_state : String → WorkflowSummaryState F
  new_state session_id = record {
    summary = record {
      session_id = session_id;
      requests = pos 0;
      errors = pos 0;
      total_tokens = pos 0;
      estimated_cost = fl.zero;
      avg_latency_ms = fl.zero;
      cache_hit_rate = fl.zero;
      by_step_type = [];
      by_tool = [];
      last_updated_at = "";
    };
    total_latency = pos 0;
    cache_hits = pos 0;
    phase_latency = [];
    phase_requests = [];
    tool_latency = [];
    tool_requests = [];
  }

  abbrev pub phases : WorkflowSummaryState F → Groups
  phases st = record {
    summaries = st.summary.by_step_type;
    latency = st.phase_latency;
    requests = st.phase_requests;
  }

  abbrev pub tools : WorkflowSummaryState F → Groups
  tools st = record {
    summaries = st.summary.by_tool;
    latency = st.tool_latency;
    requests = st.tool_requests;
  }

  -- The session with one trace more.
  unfoldable pub add_trace : WorkflowTrace F → WorkflowSummaryState F → WorkflowSummaryState F
  unfolding add_group add_tool
  add_trace t st =
      let s = st.summary in
      let requests = s.requests +ℤ pos 1 in
      let total_latency = st.total_latency +ℤ t.latency_ms in
      let cache_hits = add_if t.cache_hit (pos 1) st.cache_hits in
      let by_phase = add_group t (phase_of t) (phases st) in
      let by_tool = add_tool t (tools st) in
      record {
        summary = record {
          session_id = s.session_id;
          requests = requests;
          errors = add_if (is_error t.status_code) (pos 1) s.errors;
          total_tokens = add_if (ltb_ℤ (pos 0) t.total_tokens) t.total_tokens s.total_tokens;
          estimated_cost = fl.add s.estimated_cost t.estimated_cost;
          avg_latency_ms = fl.div (fl.of_int total_latency) (fl.of_int requests);
          cache_hit_rate = fl.div (fl.of_int cache_hits) (fl.of_int requests);
          by_step_type = by_phase.summaries;
          by_tool = by_tool.summaries;
          last_updated_at = t.timestamp;
        };
        total_latency = total_latency;
        cache_hits = cache_hits;
        phase_latency = by_phase.latency;
        phase_requests = by_phase.requests;
        tool_latency = by_tool.latency;
        tool_requests = by_tool.requests;
      }

  abbrev pub state_or_new : String → Option (WorkflowSummaryState F) → WorkflowSummaryState F
  state_or_new session_id none = new_state session_id
  state_or_new session_id (some st) = st

  -- `updateSummary`; the sessions are changed in place under the mutex, as one step.
  unfoldable pub update_summary : WorkflowTrace F → WorkflowTracer F → WorkflowTracer F
  unfolding new_state add_trace
  update_summary t tracer =
      let st = state_or_new t.session_id (lookup t.session_id tracer.sessions) in
      if is_blank t.session_id
      then tracer
      else record tracer { sessions = insert t.session_id (add_trace t st) tracer.sessions }
