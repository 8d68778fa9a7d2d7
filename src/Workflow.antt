-- ===== src/Workflow.antt =====
-- internal/service/workflow.go: the tracer of workflows. This file has its types, the normalization
-- of a trace and the cost estimate. `W` is the world outside the gateway, the replay log included.
pub mod Summary
pub mod Tracer
pub mod Groups
pub mod Refines
pub mod Latest
use text.Mathlib.Text.{◌==◌ as str_eq}
use high_performance_llm_gat.Prelude.{
  ℕ, String, List, [], zero, suc, Option, none, some, Bool, true, false, not, ◌&&◌, if◌then◌else◌,
}
use high_performance_llm_gat.Prelude.Int.{ℤ, pos, negsuc, ltb_ℤ, leb_ℤ, ◌+ℤ◌}
use high_performance_llm_gat.Prelude.Text.{trim_space, to_lower, has_prefix, is_blank, show, ◌++ₛ◌}
use high_performance_llm_gat.Prelude.Float.{Float}
use high_performance_llm_gat.Cache.{Reply}

pub record WorkflowTrace (F : Type 0) : Type 0 where
  pub trace_id : String
  pub timestamp : String
  pub endpoint : String
  pub session_id : String
  pub step_id : String
  pub step_type : String
  pub tool : String
  pub requested_model : String
  pub upstream_model : String
  pub upstream_provider : String
  pub status_code : ℤ
  pub latency_ms : ℤ
  pub cache_hit : Bool
  pub prompt_tokens : ℤ
  pub completion_tokens : ℤ
  pub total_tokens : ℤ
  pub estimated_cost : F
  pub error_code : String

pub record PhaseSummary (F : Type 0) : Type 0 where
  pub requests : ℤ
  pub errors : ℤ
  pub avg_latency_ms : F
  pub total_tokens : ℤ
  pub estimated_cost : F

-- The two types have the same fields.
abbrev pub ToolSummary : Type 0 → Type 0
ToolSummary F = PhaseSummary F

pub record WorkflowSummary (F : Type 0) : Type 0 where
  pub session_id : String
  pub requests : ℤ
  pub errors : ℤ
  pub total_tokens : ℤ
  pub estimated_cost : F
  pub avg_latency_ms : F
  pub cache_hit_rate : F
  pub by_step_type : List (String × PhaseSummary F)
  pub by_tool : List (String × ToolSummary F)
  pub last_updated_at : String

pub record WorkflowSummaryState (F : Type 0) : Type 0 where
  pub summary : WorkflowSummary F
  pub total_latency : ℤ
  pub cache_hits : ℤ
  pub phase_latency : List (String × ℤ)
  pub phase_requests : List (String × ℤ)
  pub tool_latency : List (String × ℤ)
  pub tool_requests : List (String × ℤ)

pub record WorkflowTracer (F : Type 0) : Type 0 where
  pub replay_path : String
  pub sessions : List (String × WorkflowSummaryState F)

-- What the tracer uses of time, crypto/rand, encoding/json, path/filepath and os. `random_hex` is
-- none if no random bytes can be read; the calls on files give their error, if there is one.
pub record Outside (F W : Type 0) : Type 0 where
  pub float : Float F
  pub timestamp_now : W → String × W
  pub unix_nano : W → ℕ × W
  pub random_hex : W → Option String × W
  pub marshal_trace : WorkflowTrace F → Reply String
  pub dir_of : String → String
  pub mkdir_all : String → W → Option String × W
  pub open_append : String → W → Option String × W
  pub write_line : String → String → W → Option String × W

unfoldable pub new_workflow_tracer : {F : Type 0} → String → WorkflowTracer F
new_workflow_tracer replay_path =
    let path = trim_space replay_path in
    record {
      replay_path = if str_eq path "" then "logs/workflow_replay.jsonl" else path;
      sessions = [];
    }

-- The number n / d as a constant.
abbrev constant : {F : Type 0} → Float F → ℕ → ℕ → F
constant fl n d = fl.div (fl.of_nat n) (fl.of_nat d)

-- The estimate from the total alone: $2 for a million tokens.
abbrev flat_cost : {F : Type 0} → Float F → ℤ → F
flat_cost fl total_tokens = fl.mul (fl.of_int total_tokens) (constant fl 2 1_000_000)

-- The estimate from the prices of a thousand tokens.
unfoldable pub priced_cost : {F : Type 0} → Float F → F → F → ℤ → ℤ → ℤ → F
priced_cost fl prompt_per_1k completion_per_1k prompt_tokens completion_tokens total_tokens =
    let prompt = fl.mul (fl.div (fl.of_int prompt_tokens) (fl.of_nat 1000)) prompt_per_1k in
    let completion =
      fl.mul (fl.div (fl.of_int completion_tokens) (fl.of_nat 1000)) completion_per_1k in
    if fl.eq prompt fl.zero && (fl.eq completion fl.zero && ltb_ℤ (pos 0) total_tokens)
    then flat_cost fl total_tokens
    else fl.add prompt completion

unfoldable pub estimate_cost : {F : Type 0} → Float F → String → ℤ → ℤ → ℤ → F
unfolding priced_cost
estimate_cost fl model prompt_tokens completion_tokens total_tokens =
    let name = to_lower (trim_space model) in
    if has_prefix name "gpt-4"
    then priced_cost fl (constant fl 3 100) (constant fl 6 100) prompt_tokens completion_tokens
        total_tokens
    else if has_prefix name "gpt-3.5"
    then priced_cost fl (constant fl 15 10_000) (constant fl 2 1000) prompt_tokens completion_tokens
        total_tokens
    else if has_prefix name "claude"
    then priced_cost fl (constant fl 8 1000) (constant fl 24 1000) prompt_tokens completion_tokens
        total_tokens
    else if leb_ℤ total_tokens (pos 0)
    then fl.zero
    else flat_cost fl total_tokens

-- `newTraceID`
unfoldable pub new_trace_id : {F W : Type 0} → Outside F W → W → String × W
new_trace_id out w =
    let (random, w1) = out.random_hex w in
    let (nano, w2) = out.unix_nano w1 in
    (
      elim random [
        | none ↦ "wf_" ++ₛ show nano
        | some hex ↦ "wf_" ++ₛ (show nano ++ₛ ("_" ++ₛ hex))
      ],
      w2,
    )

abbrev at_least_zero : ℤ → ℤ
at_least_zero n = if ltb_ℤ n (pos 0) then pos 0 else n

-- The number, or the other one in place of 0.
abbrev pub or_if_zero : ℤ → ℤ → ℤ
or_if_zero (pos zero) other = other
or_if_zero (pos (suc n)) other = pos (suc n)
or_if_zero (negsuc n) other = negsuc n

-- The fields of `normalizeTrace` that need neither the clock nor random bytes.
unfoldable pub normalize_fields : {F : Type 0} → Float F → WorkflowTrace F → WorkflowTrace F
unfolding estimate_cost
normalize_fields fl t =
    let endpoint = trim_space t.endpoint in
    let upstream_model = trim_space t.upstream_model in
    let prompt = at_least_zero t.prompt_tokens in
    let completion = at_least_zero t.completion_tokens in
    let given = at_least_zero t.total_tokens in
    let total = or_if_zero given (prompt +ℤ completion) in
    record t {
      endpoint = if str_eq endpoint "" then "unknown" else endpoint;
      session_id = trim_space t.session_id;
      step_id = trim_space t.step_id;
      step_type = to_lower (trim_space t.step_type);
      tool = trim_space t.tool;
      requested_model = trim_space t.requested_model;
      upstream_model = upstream_model;
      upstream_provider = trim_space t.upstream_provider;
      status_code = or_if_zero t.status_code (pos 200);
      latency_ms = at_least_zero t.latency_ms;
      prompt_tokens = prompt;
      completion_tokens = completion;
      total_tokens = total;
      estimated_cost =
          if fl.le t.estimated_cost fl.zero
          then estimate_cost fl upstream_model prompt completion total
          else t.estimated_cost;
      error_code = trim_space t.error_code;
    }

-- `normalizeTrace`
unfoldable pub normalize_trace :
    {F W : Type 0} → Outside F W → WorkflowTrace F → W → WorkflowTrace F × W
unfolding new_trace_id normalize_fields
normalize_trace out t w =
    let (fresh, w_id) = new_trace_id out w in
    let (trace_id, w1) = if is_blank t.trace_id then (fresh, w_id) else (t.trace_id, w) in
    let (stamp, w_stamp) = out.timestamp_now w1 in
    let (timestamp, w2) = if is_blank t.timestamp then (stamp, w_stamp) else (t.timestamp, w1) in
    (normalize_fields out.float (record t { trace_id = trace_id; timestamp = timestamp }), w2)
