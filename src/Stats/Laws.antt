-- ===== src/Stats/Laws.antt =====
-- internal/service/stats.go: what a snapshot says of the requests that were recorded.
use text.Mathlib.Text.{◌==◌ as str_eq}
use text.Mathlib.TextEquality.{eq_iff}
use high_performance_llm_gat.Prelude.{
  ◌≡◌, refl, ap, ◌∙◌, String, List, [], ◌∷◌, Option, none, some, Bool-cases, inl, inr,
  if◌then◌else◌,
}
use high_performance_llm_gat.Prelude.Int.{ℤ, pos, ltb_ℤ, ◌+ℤ◌}
use high_performance_llm_gat.Prelude.Dict.{lookup, lookup-insert}
use high_performance_llm_gat.Prelude.Tally.{add_if, only, tally, count}
use high_performance_llm_gat.Prelude.Float.{Float}
use high_performance_llm_gat.Workflow.Summary.{is_error}
use high_performance_llm_gat.Stats.{
  RequestMetric, ModelUsage, UsageStats, new_usage_stats, usage_or_zero, next_average, add_usage,
  model_or_unknown, record_metric, snapshot, milliseconds,
}

-- A request with the time at which it was recorded.
abbrev pub Event : Type 0
Event = String × RequestMetric

abbrev pub requests : List Event → ℤ
requests ms = count ms

abbrev pub failures : List Event → ℤ
failures ms = tally (λ m. is_error m.1.status_code) (λ m. pos 1) ms

abbrev pub tokens : List Event → ℤ
tokens ms = tally (λ m. ltb_ℤ (pos 0) m.1.total_tokens) (λ m. m.1.total_tokens) ms

abbrev pub hits : List Event → ℤ
hits ms = tally (λ m. m.1.cache_hit) (λ m. pos 1) ms

module _ {F : Type 0} (fl : Float F) where
  -- The average that `Record` keeps.
  abbrev pub folded : List Event → F
  folded [] = fl.zero
  folded (m ∷ ms) =
      next_average fl (folded ms) (requests (m ∷ ms)) (fl.of_int (milliseconds m.1.latency))

  -- What is kept of the requests of one model, the latest first.
  abbrev pub kept_entry : List Event → Option (ModelUsage F)
  kept_entry [] = none
  kept_entry ((timestamp, m) ∷ ms) = some (record {
    requests = requests ((timestamp, m) ∷ ms);
    errors = failures ((timestamp, m) ∷ ms);
    total_tokens = tokens ((timestamp, m) ∷ ms);
    avg_latency_ms = folded ((timestamp, m) ∷ ms);
    last_status = m.status_code;
    last_updated_at = timestamp;
  })

  abbrev pub of_model : List Event → String → List Event
  of_model ms k = only (λ m. str_eq (model_or_unknown m.1.model) k) ms

  -- The calls of `Record` on new statistics, the latest first.
  unfoldable pub record_all : List Event → UsageStats F
  record_all [] = new_usage_stats
  record_all (m ∷ ms) = record_metric fl m.0 m.1 (record_all ms)

  record Counts (s : UsageStats F) (ms : List Event) : Type 0 where
    requests : s.total_requests ≡ requests ms
    tokens : s.total_tokens ≡ tokens ms
    hits : s.cache_hits ≡ hits ms
    models : (k : String) → lookup k s.models ≡ kept_entry (of_model ms k)

  add_usage-kept_entry :
      (m : Event) (ms : List Event)
      → some (add_usage fl m.1 m.0 (usage_or_zero fl (kept_entry ms))) ≡ kept_entry (m ∷ ms)
  unfolding add_usage
  add_usage-kept_entry m [] = refl
  add_usage-kept_entry m (n ∷ ms) = refl

  record_metric-models :
      (m : Event) (s : UsageStats F) (ms : List Event)
      → ((k : String) → lookup k s.models ≡ kept_entry (of_model ms k))
      → (k : String)
      → lookup k (record_metric fl m.0 m.1 s).models ≡ kept_entry (of_model (m ∷ ms) k)
  unfolding record_metric
  record_metric-models m s ms h k =
      let key = model_or_unknown m.1.model in
      let grown = add_usage fl m.1 m.0 (usage_or_zero fl (lookup key s.models)) in
      let grown_is : some grown ≡ kept_entry (m ∷ of_model ms key) =
        ap (λ u. some (add_usage fl m.1 m.0 (usage_or_zero fl u))) (h key)
        ∙ add_usage-kept_entry m (of_model ms key) in
      elim (Bool-cases (str_eq key k)) [
        | inl same ↦
            rw (lookup-insert key k grown s.models, same)
              (grown_is ∙ ap (λ x. kept_entry (m ∷ of_model ms x)) ((eq_iff key k).0 same))
        | inr other ↦ rw (lookup-insert key k grown s.models, other) (h k)
      ]

  record_metric-Counts :
      (m : Event) (s : UsageStats F) (ms : List Event)
      → Counts s ms
      → Counts (record_metric fl m.0 m.1 s) (m ∷ ms)
  unfolding record_metric
  record_metric-Counts m s ms h = record {
    requests = ap (λ n. n +ℤ pos 1) h.requests;
    tokens = ap (add_if _ m.1.total_tokens) h.tokens;
    hits = ap (add_if m.1.cache_hit (pos 1)) h.hits;
    models = record_metric-models m s ms h.models;
  }

  record_all-Counts : (ms : List Event) → Counts (record_all ms) ms
  unfolding record_all new_usage_stats lookup
  record_all-Counts [] = record { requests = refl; tokens = refl; hits = refl; models = λ k. refl }
  record_all-Counts (m ∷ ms) = record_metric-Counts m (record_all ms) ms (record_all-Counts ms)

  abbrev pub hit_rate : List Event → F
  hit_rate ms =
      if ltb_ℤ (pos 0) (requests ms)
      then fl.div (fl.of_int (hits ms)) (fl.of_int (requests ms))
      else fl.zero

  -- A snapshot of the requests that were recorded, with the averages as they were kept.
  pub snapshot-kept_entry :
      (ms : List Event)
      → ((snapshot fl (record_all ms)).total_requests ≡ requests ms)
        × ((snapshot fl (record_all ms)).total_tokens ≡ tokens ms)
        × ((snapshot fl (record_all ms)).cache_hit_rate ≡ hit_rate ms)
        × ((k : String)
            → lookup k (snapshot fl (record_all ms)).models ≡ kept_entry (of_model ms k))
  unfolding snapshot
  snapshot-kept_entry ms =
      let c = record_all-Counts ms in (c.requests, c.tokens, rw (c.requests, c.hits) refl, c.models)
