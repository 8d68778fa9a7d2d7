-- ===== src/Workflow/Latest.antt =====
-- workflow.go: which summaries `ListSummaries` returns.
use Prim.Native.String.{[], ◌∷◌}
use mathlib.Core.List.{Perm}
use mathlib.Core.Path.{subst}
use high_performance_llm_gat.Prelude.{
  ◌-◌, ◌≤◌, ◌≡◌, refl, sym, ap, ◌∙◌, String, List, ◌++◌, true, false, arith, length, drop,
  take-append-drop, length-take-le, length-drop, All,
}
use high_performance_llm_gat.Prelude.Int.{ℤ}
use high_performance_llm_gat.Prelude.Text.{later_text}
use high_performance_llm_gat.Prelude.Sorting.{
  IsOrder, IsSorted, Before, sort_by, sort_by-perm, length-sort_by, split-sort_by, take-IsSorted,
}
use high_performance_llm_gat.Workflow.{WorkflowSummary, WorkflowTracer}
use high_performance_llm_gat.Workflow.Tracer.{
  summaries, no_earlier, limit_or_default, list_summaries,
}

later_text_asym : (s t : String) → later_text s t ≡ true → later_text t s ≡ false
unfolding later_text
later_text_asym [] t h = ground (arith, h)
later_text_asym (c ∷ s) [] h = refl
later_text_asym (c ∷ s) (d ∷ t) h = ground (arith, h, later_text_asym s t)

later_text_negtrans :
    (s t u : String) → later_text t s ≡ false → later_text u t ≡ false → later_text u s ≡ false
unfolding later_text
later_text_negtrans s t [] h k = refl
later_text_negtrans [] [] (e ∷ u) h k = k
later_text_negtrans [] (d ∷ t) (e ∷ u) h k = ground (arith, h)
later_text_negtrans (c ∷ s) [] (e ∷ u) h k = ground (arith, k)
later_text_negtrans (c ∷ s) (d ∷ t) (e ∷ u) h k = ground (arith, h, k, later_text_negtrans s t u)

module _ {F : Type 0} where
  no_earlier-IsOrder : IsOrder (no_earlier {F = F})
  no_earlier-IsOrder = record {
    total = λ s d h. ground (arith, h, later_text_asym d.last_updated_at s.last_updated_at);
    trans = λ s d e h k.
        ground
          (arith, h, k, later_text_negtrans s.last_updated_at d.last_updated_at e.last_updated_at);
  }

  -- The summaries that are listed are sorted, the latest first; there are no more of them than the
  -- limit, or 20 for a limit that is not positive; and together with those left out, which are as
  -- many as exceed the limit and none of them later than one that is listed, they are all.
  pub list_summaries_latest :
      (tracer : WorkflowTracer F) (limit : ℤ)
      → (left : List (WorkflowSummary F)) × Perm
          (list_summaries tracer limit ++ left)
          (summaries tracer.sessions)
        × IsSorted no_earlier (list_summaries tracer limit)
        × (length (list_summaries tracer limit) ≤ limit_or_default limit)
        × (length left ≡ length (summaries tracer.sessions) - limit_or_default limit)
        × All (λ s. All (Before no_earlier s) left) (list_summaries tracer limit)
  unfolding list_summaries
  list_summaries_latest tracer limit =
      let all = summaries tracer.sessions in
      let sorted = sort_by no_earlier all in
      let n = limit_or_default limit in
      (
        drop n sorted,
        subst (λ x. Perm x all) (sym (take-append-drop n sorted)) (sort_by-perm no_earlier all),
        take-IsSorted no_earlier no_earlier-IsOrder n all,
        length-take-le n sorted,
        length-drop n sorted ∙ ap (λ k. k - n) (length-sort_by no_earlier all),
        split-sort_by no_earlier no_earlier-IsOrder n all,
      )
