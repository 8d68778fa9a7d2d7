-- ===== src/Workflow/Refines.antt =====
-- workflow.go: what the tracer keeps of a session, against the traces that were recorded.
use text.Mathlib.Text.{◌==◌ as str_eq}
use text.Mathlib.TextEquality.{eq_iff}
use mathlib.Core.Path.{subst}
use high_performance_llm_gat.Prelude.{
  ◌≡◌, ◌≢◌, refl, ap, sym, ◌∙◌, String, List, [], ◌∷◌, Option, none, some, false, arith,
  if◌then◌else◌, Bool-cases, inl, inr,
}
use high_performance_llm_gat.Prelude.Int.{ℤ, pos, ◌+ℤ◌}
use high_performance_llm_gat.Prelude.Text.{trim_space, is_blank}
use high_performance_llm_gat.Prelude.Dict.{lookup, lookup-insert}
use high_performance_llm_gat.Prelude.Tally.{add_if, only, tally, count}
use high_performance_llm_gat.Prelude.Float.{Float}
use high_performance_llm_gat.Workflow.{
  WorkflowTrace, WorkflowSummary, WorkflowSummaryState, WorkflowTracer, Outside, normalize_trace,
  new_workflow_tracer,
}
use high_performance_llm_gat.Workflow.Summary.{
  Groups, phases, tools, phase_of, add_tool, new_state, add_trace, state_or_new, update_summary,
}
use high_performance_llm_gat.Workflow.Groups.{
  errors, tokens, latencies, costs, mean, group_entry, IsGrouped, with_trace, add_group-IsGrouped,
}
use high_performance_llm_gat.Workflow.Tracer.{record_trace, get_summary, summary_of}

module _ {F : Type 0} (fl : Float F) where
  abbrev pub of_phase : List (WorkflowTrace F) → String → List (WorkflowTrace F)
  of_phase ts k = only (λ t. str_eq (phase_of fl t) k) ts

  abbrev pub of_tool : List (WorkflowTrace F) → String → List (WorkflowTrace F)
  of_tool ts k =
      only (λ t. if str_eq (trim_space t.tool) "" then false else str_eq (trim_space t.tool) k) ts

  -- The traces of a session; those without a session belong to none.
  abbrev pub of_session : List (WorkflowTrace F) → String → List (WorkflowTrace F)
  of_session ts k = only (λ t. if is_blank t.session_id then false else str_eq t.session_id k) ts

  abbrev pub hits : List (WorkflowTrace F) → ℤ
  hits ts = tally (λ t. t.cache_hit) (λ t. pos 1) ts

  abbrev pub latest_timestamp : List (WorkflowTrace F) → String
  latest_timestamp [] = ""
  latest_timestamp (t ∷ ts) = t.timestamp

  -- The summary describes the traces, the latest first: it counts them, sums up their errors,
  -- tokens and costs, has the means of their latencies and cache hits, and has an entry for each
  -- phase and for each tool that describes the traces of that phase or tool.
  pub record Summarizes (s : WorkflowSummary F) (id : String) (ts : List (WorkflowTrace F))
      : Type 0 where
    pub session_id : s.session_id ≡ id
    pub requests : s.requests ≡ count ts
    pub errors : s.errors ≡ errors fl ts
    pub total_tokens : s.total_tokens ≡ tokens fl ts
    pub estimated_cost : s.estimated_cost ≡ costs fl ts
    pub avg_latency_ms : s.avg_latency_ms ≡ mean fl (latencies fl) ts
    pub cache_hit_rate : s.cache_hit_rate ≡ mean fl hits ts
    pub last_updated_at : s.last_updated_at ≡ latest_timestamp ts
    pub by_step_type : (k : String) → lookup k s.by_step_type ≡ group_entry fl (of_phase ts k)
    pub by_tool : (k : String) → lookup k s.by_tool ≡ group_entry fl (of_tool ts k)

  record IsState (st : WorkflowSummaryState F) (id : String) (ts : List (WorkflowTrace F))
      : Type 0 where
    summary : Summarizes st.summary id ts
    total_latency : st.total_latency ≡ latencies fl ts
    cache_hits : st.cache_hits ≡ hits ts
    phases : IsGrouped fl (phases fl st) (of_phase ts)
    tools : IsGrouped fl (tools fl st) (of_tool ts)

  new_state-IsState : (id : String) → IsState (new_state fl id) id []
  unfolding new_state lookup
  new_state-IsState id = record {
    summary = record {
      session_id = refl;
      requests = refl;
      errors = refl;
      total_tokens = refl;
      estimated_cost = refl;
      avg_latency_ms = refl;
      cache_hit_rate = refl;
      last_updated_at = refl;
      by_step_type = λ k. refl;
      by_tool = λ k. refl;
    };
    total_latency = refl;
    cache_hits = refl;
    phases = record { entry = λ k. refl; latency_sum = λ k. refl; request_sum = λ k. refl };
    tools = record { entry = λ k. refl; latency_sum = λ k. refl; request_sum = λ k. refl };
  }

  IsGrouped-ext :
      (g : Groups fl) (sel sel' : String → List (WorkflowTrace F))
      → ((k : String) → sel k ≡ sel' k)
      → IsGrouped fl g sel
      → IsGrouped fl g sel'
  IsGrouped-ext g sel sel' e h = record {
    entry = λ k. h.entry k ∙ ap (group_entry fl) (e k);
    latency_sum = λ k. h.latency_sum k ∙ ap (latencies fl) (e k);
    request_sum = λ k. h.request_sum k ∙ ap count (e k);
  }

  add_tool-IsGrouped :
      (t : WorkflowTrace F) (g : Groups fl) (ts : List (WorkflowTrace F))
      → IsGrouped fl g (of_tool ts)
      → IsGrouped fl (add_tool fl t g) (of_tool (t ∷ ts))
  unfolding add_tool
  add_tool-IsGrouped t g ts h = elim (Bool-cases (str_eq (trim_space t.tool) "")) [
    | inl blank ↦
        IsGrouped-ext (add_tool fl t g) (of_tool ts) (of_tool (t ∷ ts)) (λ k. rw blank refl)
          (rw blank h)
    | inr named ↦
        let tool = trim_space t.tool in
        IsGrouped-ext (add_tool fl t g) (with_trace fl t tool (of_tool ts)) (of_tool (t ∷ ts))
          (λ k. rw named refl) (rw named (add_group-IsGrouped fl t tool g (of_tool ts) h))
  ]

  add_trace-IsState :
      (t : WorkflowTrace F) (st : WorkflowSummaryState F) (id : String)
      (ts : List (WorkflowTrace F))
      → IsState st id ts
      → IsState (add_trace fl t st) id (t ∷ ts)
  unfolding add_trace
  add_trace-IsState t st id ts h =
      let by_phase =
        add_group-IsGrouped fl t (phase_of fl t) (phases fl st) (of_phase ts) h.phases in
      let by_tool = add_tool-IsGrouped t (tools fl st) ts h.tools in
      let sum = h.summary in
      record {
        summary = record {
          session_id = sum.session_id;
          requests = ap (λ n. n +ℤ pos 1) sum.requests;
          errors = ap (add_if _ (pos 1)) sum.errors;
          total_tokens = ap (add_if _ t.total_tokens) sum.total_tokens;
          estimated_cost = ap (λ x. fl.add x t.estimated_cost) sum.estimated_cost;
          avg_latency_ms = rw (h.total_latency, sum.requests) refl;
          cache_hit_rate = rw (h.cache_hits, sum.requests) refl;
          last_updated_at = refl;
          by_step_type = by_phase.entry;
          by_tool = by_tool.entry;
        };
        total_latency = ap (λ n. n +ℤ t.latency_ms) h.total_latency;
        cache_hits = ap (add_if t.cache_hit (pos 1)) h.cache_hits;
        phases = by_phase;
        tools = by_tool;
      }

  -- The sessions of the tracer are those of the traces, each with its summary.
  Describes : Option (WorkflowSummaryState F) → String → List (WorkflowTrace F) → Type 0
  Describes none k ts = ts ≡ []
  Describes (some st) k ts = IsState st k ts × (ts ≢ [])

  Tracks : WorkflowTracer F → List (WorkflowTrace F) → Type 0
  Tracks tracer ts = (k : String) → Describes (lookup k tracer.sessions) k (of_session ts k)

  state_or_new-IsState :
      (o : Option (WorkflowSummaryState F)) (k : String) (ts : List (WorkflowTrace F))
      → Describes o k ts
      → IsState (state_or_new fl k o) k ts
  unfolding Describes
  state_or_new-IsState none k ts h =
      subst (IsState (new_state fl k) k) (sym h) (new_state-IsState k)
  state_or_new-IsState (some st) k ts h = h.0

  cons_not_nil : (t : WorkflowTrace F) (ts : List (WorkflowTrace F)) → t ∷ ts ≢ []
  cons_not_nil t ts = ground arith

  update_summary-Tracks :
      (t : WorkflowTrace F) (tracer : WorkflowTracer F) (ts : List (WorkflowTrace F))
      → Tracks tracer ts
      → Tracks (update_summary fl t tracer) (t ∷ ts)
  unfolding Tracks Describes update_summary
  update_summary-Tracks t tracer ts h k = elim (Bool-cases (is_blank t.session_id)) [
    | inl blank ↦ rw blank (h k)
    | inr named ↦
        let id = t.session_id in
        let st = add_trace fl t (state_or_new fl id (lookup id tracer.sessions)) in
        let added : IsState st id (t ∷ of_session ts id) =
          add_trace-IsState t _ id (of_session ts id)
            (state_or_new-IsState (lookup id tracer.sessions) id (of_session ts id) (h id)) in
        elim (Bool-cases (str_eq id k)) [
          | inl same ↦
              rw (named, lookup-insert id k st tracer.sessions, same)
                (
                  subst (λ x. IsState st x (t ∷ of_session ts x)) ((eq_iff id k).0 same) added,
                  cons_not_nil t (of_session ts k),
                )
          | inr other ↦ rw (named, lookup-insert id k st tracer.sessions, other) (h k)
        ]
  ]

  -- What `GetSummary` returns of a session describes its traces; nothing is returned if there are
  -- none.
  abbrev pub IsSummary : Option (WorkflowSummary F) → String → List (WorkflowTrace F) → Type 0
  IsSummary none id ts = ts ≡ []
  IsSummary (some s) id ts = Summarizes s id ts × (ts ≢ [])

  Tracks-IsSummary :
      (o : Option (WorkflowSummaryState F)) (k : String) (ts : List (WorkflowTrace F))
      → Describes o k ts
      → IsSummary (summary_of o) k ts
  unfolding Describes
  Tracks-IsSummary none k ts h = h
  Tracks-IsSummary (some st) k ts h = (h.0.summary, h.1)

-- The tracer after a number of calls of `Record`, with the traces as they were normalized and the
-- world.
pub record Recorded (F W : Type 0) : Type 0 where
  pub tracer : WorkflowTracer F
  pub seen : List (WorkflowTrace F)
  pub world : W

module _ {F W : Type 0} (out : Outside F W) (replay_path : String) where
  -- The calls of `Record` on a new tracer, the latest first.
  unfoldable pub record_all : List (WorkflowTrace F) → W → Recorded F W
  record_all [] w = record { tracer = new_workflow_tracer replay_path; seen = []; world = w }
  record_all (t ∷ ts) w =
      let r = record_all ts w in
      let (tracer, w') = record_trace out r.tracer t r.world in
      record { tracer = tracer; seen = (normalize_trace out t r.world).0 ∷ r.seen; world = w' }

  new_workflow_tracer-Tracks : Tracks out.float (new_workflow_tracer replay_path) []
  unfolding Tracks Describes new_workflow_tracer lookup
  new_workflow_tracer-Tracks k = refl

  record_trace-Tracks :
      (t : WorkflowTrace F) (tracer : WorkflowTracer F) (ts : List (WorkflowTrace F)) (w : W)
      → Tracks out.float tracer ts
      → Tracks out.float (record_trace out tracer t w).0 ((normalize_trace out t w).0 ∷ ts)
  unfolding record_trace
  record_trace-Tracks t tracer ts w h =
      update_summary-Tracks out.float (normalize_trace out t w).0 tracer ts h

  record_all-Tracks :
      (ts : List (WorkflowTrace F)) (w : W)
      → Tracks out.float (record_all ts w).tracer (record_all ts w).seen
  unfolding record_all
  record_all-Tracks [] w = new_workflow_tracer-Tracks
  record_all-Tracks (t ∷ ts) w =
      let r = record_all ts w in
      record_trace-Tracks t r.tracer r.seen r.world (record_all-Tracks ts w)

  -- Whatever is recorded, of the summary of a session: `GetSummary` returns it if and only if a
  -- trace of the session was recorded, and its counts, sums and means, in all and for each phase and
  -- tool, are those of the session's traces alone, as they were normalized. Counters are of 64 bits.
  pub record_all-IsSummary :
      (ts : List (WorkflowTrace F)) (w : W) (id : String)
      → trim_space id ≢ ""
      → IsSummary out.float
          (get_summary (record_all ts w).tracer id)
          (trim_space id)
          (of_session out.float (record_all ts w).seen (trim_space id))
  unfolding get_summary Tracks
  record_all-IsSummary ts w id h =
      let k = trim_space id in
      let tracer = (record_all ts w).tracer in
      let named : str_eq k "" ≡ false = ground (arith, h, eq_iff k "") in
      rw named
        (Tracks-IsSummary out.float (lookup k tracer.sessions) k _ (record_all-Tracks ts w k))
