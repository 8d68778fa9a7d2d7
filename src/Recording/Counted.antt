-- ===== src/Recording/Counted.antt =====
-- What the three calls that record a request leave in the statistics and in the tracer.
use text.Mathlib.Text.{◌==◌ as str_eq}
use high_performance_llm_gat.Prelude.{
  ℕ, zero, suc, Bool-cases, inl, inr, not, ◌&&◌, String, Option, none, some, ◌≡◌, refl, ap, ◌∙◌,
  false,
}
use high_performance_llm_gat.Prelude.Int.{ℤ, pos, ◌+ℤ◌}
use high_performance_llm_gat.Prelude.Text.{trim_space, is_blank}
use high_performance_llm_gat.Prelude.Trim.{trim_space_twice}
use high_performance_llm_gat.Prelude.Dict.{lookup, lookup-insert, lookup-insert_self}
use high_performance_llm_gat.Prelude.Float.{Float}
use high_performance_llm_gat.Prelude.Tally.{add_if}
use high_performance_llm_gat.Stats.{
  RequestMetric, ModelUsage, add_usage, usage_or_zero, model_or_unknown, record_metric, snapshot,
}
use high_performance_llm_gat.Storage.{Postgres}
use high_performance_llm_gat.Workflow.{
  WorkflowTrace, WorkflowSummary, WorkflowSummaryState, WorkflowTracer, Outside, normalize_trace,
  normalize_fields, or_if_zero,
}
use high_performance_llm_gat.Workflow.Summary.{
  is_error, add_trace, state_or_new, new_state, update_summary,
}
use high_performance_llm_gat.Workflow.Tracer.{record_trace, get_summary, summary_of}
use high_performance_llm_gat.Recording.{Records, record_request}

-- The requests and the errors of a session, as `GetSummary` tells them.
abbrev pub requests_of : {F : Type 0} → Option (WorkflowSummary F) → ℤ
requests_of none = pos 0
requests_of (some s) = s.requests

abbrev pub errors_of : {F : Type 0} → Option (WorkflowSummary F) → ℤ
errors_of none = pos 0
errors_of (some s) = s.errors

-- The entry of a model in the statistics after one request more, which had the status.
pub record IsEntry {F : Type 0} (fl : Float F) (status : ℤ) (before : Option (ModelUsage F))
    (after : ModelUsage F) : Type 0 where
  pub requests : after.requests ≡ (usage_or_zero fl before).requests +ℤ pos 1
  pub errors : after.errors ≡ add_if (is_error status) (pos 1) (usage_or_zero fl before).errors
  pub last_status : after.last_status ≡ status

-- One request more, which had the status, in the statistics, in all and for one model, and in the
-- session's summary, if the session has a name.
pub record IsCounted {F : Type 0} (fl : Float F) (status : ℤ) (session : String)
    (before after : Records F) : Type 0 where
  pub model : String
  pub entry : ModelUsage F
  pub listed : lookup model (snapshot fl after.stats).models ≡ some entry
  pub counted : IsEntry fl status (lookup model (snapshot fl before.stats).models) entry
  pub others :
      (k : String)
      → str_eq model k ≡ false
      → lookup k (snapshot fl after.stats).models ≡ lookup k (snapshot fl before.stats).models
  pub total :
      (snapshot fl after.stats).total_requests ≡ (snapshot fl before.stats).total_requests +ℤ pos 1
  pub requests :
      requests_of (get_summary after.tracer session)
      ≡ add_if (not (is_blank session)) (pos 1) (requests_of (get_summary before.tracer session))
  pub errors :
      errors_of (get_summary after.tracer session)
      ≡ add_if
          (not (is_blank session) && is_error status)
          (pos 1)
          (errors_of (get_summary before.tracer session))

module _ {F : Type 0} (fl : Float F) where
  state_or_new_requests :
      (t : WorkflowTrace F) (id : String) (o : Option (WorkflowSummaryState F))
      → (add_trace fl t (state_or_new fl id o)).summary.requests
        ≡ requests_of (summary_of o) +ℤ pos 1
  unfolding add_trace new_state
  state_or_new_requests t id none = refl
  state_or_new_requests t id (some st) = refl

  state_or_new_errors :
      (t : WorkflowTrace F) (id : String) (o : Option (WorkflowSummaryState F))
      → (add_trace fl t (state_or_new fl id o)).summary.errors
        ≡ add_if (is_error t.status_code) (pos 1) (errors_of (summary_of o))
  unfolding add_trace new_state
  state_or_new_errors t id none = refl
  state_or_new_errors t id (some st) = refl

  -- The session of a trace whose session id is trimmed and not empty.
  get_summary-update_summary :
      (t : WorkflowTrace F) (tracer : WorkflowTracer F) (id : String)
      → t.session_id ≡ trim_space id
      → is_blank id ≡ false
      → get_summary (update_summary fl t tracer) id
        ≡ some
            (add_trace fl t
              (state_or_new fl (trim_space id) (lookup (trim_space id) tracer.sessions))).summary
  unfolding get_summary update_summary
  get_summary-update_summary t tracer id e h =
      rw (e, trim_space_twice id, h)
        (ap summary_of (lookup-insert_self (trim_space id) _ tracer.sessions))

-- The default of 200 for no status does not make an error of a status, nor the other way round.
is_error-or_if_zero : (n : ℕ) → is_error (or_if_zero (pos n) (pos 200)) ≡ is_error (pos n)
is_error-or_if_zero zero = refl
is_error-or_if_zero (suc n) = refl

module _ {F W : Type 0} (out : Outside F W) where
  -- A trace that is recorded is counted in its session, with its status.
  record_trace_requests :
      (tracer : WorkflowTracer F) (t : WorkflowTrace F) (w : W)
      → requests_of (get_summary (record_trace out tracer t w).0 t.session_id)
        ≡ add_if
            (not (is_blank t.session_id))
            (pos 1)
            (requests_of (get_summary tracer t.session_id))
  unfolding record_trace normalize_trace normalize_fields get_summary
  record_trace_requests tracer t w = elim (Bool-cases (is_blank t.session_id)) [
    | inl blank ↦ rw blank refl
    | inr h ↦
        ap requests_of (
          get_summary-update_summary out.float (normalize_trace out t w).0 tracer t.session_id refl
            h)
        ∙ state_or_new_requests out.float _ _ (lookup (trim_space t.session_id) tracer.sessions)
        ∙ rw h refl
  ]

  record_trace_errors :
      (tracer : WorkflowTracer F) (t : WorkflowTrace F) (n : ℕ) (w : W)
      → t.status_code ≡ pos n
      → errors_of (get_summary (record_trace out tracer t w).0 t.session_id)
        ≡ add_if
            (not (is_blank t.session_id) && is_error (pos n))
            (pos 1)
            (errors_of (get_summary tracer t.session_id))
  unfolding record_trace normalize_trace normalize_fields get_summary
  record_trace_errors tracer t n w e = elim (Bool-cases (is_blank t.session_id)) [
    | inl blank ↦ rw blank refl
    | inr h ↦
        ap errors_of (
          get_summary-update_summary out.float (normalize_trace out t w).0 tracer t.session_id refl
            h)
        ∙ state_or_new_errors out.float _ _ (lookup (trim_space t.session_id) tracer.sessions)
        ∙ rw (e, is_error-or_if_zero n, h) refl
  ]

  pub record_request-IsCounted :
      (postgres : Option (Postgres F W)) (key : String) (m : RequestMetric) (t : WorkflowTrace F)
      (n : ℕ) (r : Records F) (w : W)
      → m.status_code ≡ pos n
      → t.status_code ≡ pos n
      → IsCounted out.float (pos n) t.session_id r (record_request out postgres key m t r w).0
  unfolding record_request record_metric add_usage snapshot
  record_request-IsCounted postgres key m t n r w status e = record {
    model = model_or_unknown m.model;
    entry = _;
    listed = lookup-insert_self (model_or_unknown m.model) _ r.stats.models;
    counted = record { requests = refl; errors = rw status refl; last_status = status };
    others = λ k other.
        rw
          (
            lookup-insert (model_or_unknown m.model) k
                (add_usage out.float m _
                  (usage_or_zero out.float (lookup (model_or_unknown m.model) r.stats.models)))
                r.stats.models,
            other,
          )
          refl;
    total = refl;
    requests = record_trace_requests r.tracer t _;
    errors = record_trace_errors r.tracer t n _ e;
  }
