-- ===== src/Workflow/Tracer.antt =====
-- workflow.go: the methods of the tracer. A summary that is returned is a copy, which a value is.
use text.Mathlib.Text.{◌==◌ as str_eq}
use high_performance_llm_gat.Prelude.{
  ℕ, String, List, [], ◌∷◌, Option, none, some, Bool, take, ◌&&◌, not, if◌then◌else◌,
}
use high_performance_llm_gat.Prelude.Int.{ℤ, pos, pos_part, leb_ℤ}
use high_performance_llm_gat.Prelude.Text.{trim_space, is_blank, later_text}
use high_performance_llm_gat.Prelude.Sorting.{sort_by}
use high_performance_llm_gat.Prelude.Dict.{lookup}
use high_performance_llm_gat.Cache.{ok, fault}
use high_performance_llm_gat.Workflow.{
  WorkflowTrace, WorkflowSummary, WorkflowSummaryState, WorkflowTracer, Outside, normalize_trace,
}
use high_performance_llm_gat.Workflow.Summary.{update_summary}

module _ {F W : Type 0} (out : Outside F W) where
  -- The write of one line, once the file is open.
  abbrev write_opened : String → WorkflowTrace F → Option String × W → Option String × W
  write_opened path t (some e, w) = (some e, w)
  write_opened path t (none, w) = elim (out.marshal_trace t) [
    | fault e ↦ (some e, w)
    | ok line ↦ out.write_line path line w
  ]

  abbrev open_made : String → WorkflowTrace F → Option String × W → Option String × W
  open_made path t (some e, w) = (some e, w)
  open_made path t (none, w) = write_opened path t (out.open_append path w)

  -- `appendJSONL`: its error, and the world.
  unfoldable pub append_jsonl : WorkflowTracer F → WorkflowTrace F → W → Option String × W
  append_jsonl tracer t w =
      let dir = out.dir_of tracer.replay_path in
      if is_blank tracer.replay_path
      then (none, w)
      else open_made tracer.replay_path t
          (if not (str_eq dir ".") && not (str_eq dir "") then out.mkdir_all dir w else (none, w))

  -- `Record`: the error of the replay log is dropped.
  unfoldable pub record_trace : WorkflowTracer F → WorkflowTrace F → W → WorkflowTracer F × W
  unfolding append_jsonl
  record_trace tracer trace w =
      let (t, w1) = normalize_trace out trace w in
      (update_summary out.float t tracer, (append_jsonl tracer t w1).1)

-- The default of 20 for a limit that is not positive.
abbrev pub limit_or_default : ℤ → ℕ
limit_or_default limit = if leb_ℤ limit (pos 0) then 20 else pos_part limit

module _ {F : Type 0} where
  abbrev pub summary_of : Option (WorkflowSummaryState F) → Option (WorkflowSummary F)
  summary_of none = none
  summary_of (some st) = some st.summary

  -- `GetSummary`
  unfoldable pub get_summary : WorkflowTracer F → String → Option (WorkflowSummary F)
  get_summary tracer session_id =
      let id = trim_space session_id in
      if str_eq id "" then none else summary_of (lookup id tracer.sessions)

  -- The summaries of the map, in the order of the entries.
  abbrev pub summaries : List (String × WorkflowSummaryState F) → List (WorkflowSummary F)
  summaries [] = []
  summaries ((k, st) ∷ m) = st.summary ∷ summaries m

  -- `items[i].LastUpdatedAt > items[j].LastUpdatedAt` is false the other way round.
  abbrev pub no_earlier : WorkflowSummary F → WorkflowSummary F → Bool
  no_earlier s d = not (later_text d.last_updated_at s.last_updated_at)

  -- `ListSummaries`
  unfoldable pub list_summaries : WorkflowTracer F → ℤ → List (WorkflowSummary F)
  list_summaries tracer limit =
      take (limit_or_default limit) (sort_by no_earlier (summaries tracer.sessions))
