-- ===== src/Workflow/Groups.antt =====
-- workflow.go: the phases and the tools of a session, against the traces that belong to them.
use text.Mathlib.Text.{◌==◌ as str_eq}
use text.Mathlib.TextEquality.{eq_iff}
use high_performance_llm_gat.Prelude.{
  ◌≡◌, refl, ap, ◌∙◌, String, List, [], ◌∷◌, Option, none, some, if◌then◌else◌, Bool-cases, inl,
  inr,
}
use high_performance_llm_gat.Prelude.Int.{ℤ, pos, ltb_ℤ, ◌+ℤ◌}
use high_performance_llm_gat.Prelude.Dict.{lookup, insert, lookup-insert}
use high_performance_llm_gat.Prelude.Float.{Float}
use high_performance_llm_gat.Prelude.Tally.{tally, every, count}
use high_performance_llm_gat.Workflow.{WorkflowTrace, PhaseSummary}
use high_performance_llm_gat.Workflow.Summary.{
  value_of, is_error, phase_or_zero, grow, Groups, add_group,
}

module _ {F : Type 0} (fl : Float F) where
  abbrev pub errors : List (WorkflowTrace F) → ℤ
  errors ts = tally (λ t. is_error t.status_code) (λ t. pos 1) ts

  abbrev pub tokens : List (WorkflowTrace F) → ℤ
  tokens ts = tally (λ t. ltb_ℤ (pos 0) t.total_tokens) (λ t. t.total_tokens) ts

  abbrev pub latencies : List (WorkflowTrace F) → ℤ
  latencies ts = tally every (λ t. t.latency_ms) ts

  abbrev pub costs : List (WorkflowTrace F) → F
  costs [] = fl.zero
  costs (t ∷ ts) = fl.add (costs ts) t.estimated_cost

  -- The quotient of a sum over the traces by their number.
  abbrev pub mean : (List (WorkflowTrace F) → ℤ) → List (WorkflowTrace F) → F
  mean f [] = fl.zero
  mean f (t ∷ ts) = fl.div (fl.of_int (f (t ∷ ts))) (fl.of_int (count (t ∷ ts)))

  -- What a phase or a tool is described by: its traces, the latest first.
  abbrev pub describe_group : List (WorkflowTrace F) → PhaseSummary F
  describe_group ts = record {
    requests = count ts;
    errors = errors ts;
    avg_latency_ms = mean latencies ts;
    total_tokens = tokens ts;
    estimated_cost = costs ts;
  }

  abbrev pub group_entry : List (WorkflowTrace F) → Option (PhaseSummary F)
  group_entry [] = none
  group_entry (t ∷ ts) = some (describe_group (t ∷ ts))

  phase_or_zero-group_entry :
      (ts : List (WorkflowTrace F)) → phase_or_zero fl (group_entry ts) ≡ describe_group ts
  phase_or_zero-group_entry [] = refl
  phase_or_zero-group_entry (t ∷ ts) = refl

  -- The three maps describe the traces that `sel` gives for each key.
  pub record IsGrouped (g : Groups fl) (sel : String → List (WorkflowTrace F)) : Type 0 where
    pub entry : (k : String) → lookup k g.summaries ≡ group_entry (sel k)
    pub latency_sum : (k : String) → value_of (lookup k g.latency) ≡ latencies (sel k)
    pub request_sum : (k : String) → value_of (lookup k g.requests) ≡ count (sel k)

  -- The traces with one more for one key.
  abbrev pub with_trace :
      WorkflowTrace F → String → (String → List (WorkflowTrace F)) → String → List (WorkflowTrace F)
  with_trace t key sel k = if str_eq key k then t ∷ sel k else sel k

  grow-describe_group :
      (t : WorkflowTrace F) (ts : List (WorkflowTrace F))
      → grow fl t (describe_group ts) (latencies (t ∷ ts)) (count (t ∷ ts))
        ≡ describe_group (t ∷ ts)
  unfolding grow
  grow-describe_group t ts = refl

  -- A map of sums, with one trace more.
  sum_with_trace :
      (t : WorkflowTrace F) (key : String) (sel : String → List (WorkflowTrace F))
      (f : WorkflowTrace F → ℤ) (m : List (String × ℤ))
      → ((k : String) → value_of (lookup k m) ≡ tally every f (sel k))
      → (k : String)
      → value_of (lookup k (insert key (value_of (lookup key m) +ℤ f t) m))
        ≡ tally every f (with_trace t key sel k)
  sum_with_trace t key sel f m h k = elim (Bool-cases (str_eq key k)) [
    | inl same ↦
        let e = (eq_iff key k).0 same in
        rw (lookup-insert key k (value_of (lookup key m) +ℤ f t) m, same)
          (ap (λ n. n +ℤ f t) (h key ∙ ap (λ x. tally every f (sel x)) e))
    | inr other ↦ rw (lookup-insert key k (value_of (lookup key m) +ℤ f t) m, other) (h k)
  ]

  entry_with_trace :
      (t : WorkflowTrace F) (key : String) (g : Groups fl) (sel : String → List (WorkflowTrace F))
      → IsGrouped g sel
      → (k : String)
      → lookup k (add_group fl t key g).summaries ≡ group_entry (with_trace t key sel k)
  unfolding add_group
  entry_with_trace t key g sel h k =
      let grown =
        grow fl t (phase_or_zero fl (lookup key g.summaries))
          (value_of (lookup key g.latency) +ℤ t.latency_ms)
          (value_of (lookup key g.requests) +ℤ pos 1) in
      let grown_is : grown ≡ describe_group (t ∷ sel key) =
        rw (h.entry key, h.latency_sum key, h.request_sum key, phase_or_zero-group_entry (sel key))
          (grow-describe_group t (sel key)) in
      elim (Bool-cases (str_eq key k)) [
        | inl same ↦
            rw (lookup-insert key k grown g.summaries, same)
              (ap some (grown_is ∙ ap (λ x. describe_group (t ∷ sel x)) ((eq_iff key k).0 same)))
        | inr other ↦ rw (lookup-insert key k grown g.summaries, other) (h.entry k)
      ]

  pub add_group-IsGrouped :
      (t : WorkflowTrace F) (key : String) (g : Groups fl) (sel : String → List (WorkflowTrace F))
      → IsGrouped g sel
      → IsGrouped (add_group fl t key g) (with_trace t key sel)
  unfolding add_group
  add_group-IsGrouped t key g sel h = record {
    entry = entry_with_trace t key g sel h;
    latency_sum = sum_with_trace t key sel (λ x. x.latency_ms) g.latency h.latency_sum;
    request_sum = sum_with_trace t key sel (λ x. pos 1) g.requests h.request_sum;
  }
