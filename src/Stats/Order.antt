-- ===== src/Stats/Order.antt =====
-- stats.go: requests that are recorded in another order. Each call of Record holds the mutex, so
-- that concurrent calls come in some order.
use text.Mathlib.Text.{◌==◌ as str_eq}
use mathlib.Core.List.{Perm}
use high_performance_llm_gat.Prelude.{
  ◌≡◌, refl, ap, sym, ◌∙◌, String, List, [], ◌∷◌, Option, none, some, Bool,
}
use high_performance_llm_gat.Prelude.Int.{ℤ, pos, ltb_ℤ}
use high_performance_llm_gat.Prelude.Dict.{lookup}
use high_performance_llm_gat.Prelude.Tally.{every, tally-perm, tally-only-perm}
use high_performance_llm_gat.Prelude.Float.{Float}
use high_performance_llm_gat.Workflow.Summary.{is_error}
use high_performance_llm_gat.Stats.{ModelUsage, model_or_unknown, snapshot}
use high_performance_llm_gat.Stats.Laws.{
  Event, requests, failures, tokens, kept_entry, of_model, record_all, hit_rate,
  snapshot-kept_entry,
}

-- The counters of a model, 0 for a model that has no entry.
pub record Counters : Type 0 where
  pub requests : ℤ
  pub errors : ℤ
  pub total_tokens : ℤ

abbrev pub counters : {F : Type 0} → Option (ModelUsage F) → Counters
counters none = record { requests = pos 0; errors = pos 0; total_tokens = pos 0 }
counters (some u) = record {
  requests = u.requests;
  errors = u.errors;
  total_tokens = u.total_tokens;
}

module _ {F : Type 0} (fl : Float F) where
  counters-kept_entry :
      (ms : List Event)
      → counters (kept_entry fl ms)
        ≡ record { requests = requests ms; errors = failures ms; total_tokens = tokens ms }
  counters-kept_entry [] = refl
  counters-kept_entry (m ∷ ms) = refl

  hit_rate-perm : {ms ms' : List Event} → Perm ms ms' → hit_rate fl ms ≡ hit_rate fl ms'
  hit_rate-perm h =
      let counted = tally-perm every (λ m. pos 1) h in
      let cached = tally-perm (λ m. m.1.cache_hit) (λ m. pos 1) h in rw (counted, cached) refl

  model-perm :
      {ms ms' : List Event} (k : String)
      → Perm ms ms'
      → counters (kept_entry fl (of_model fl ms k)) ≡ counters (kept_entry fl (of_model fl ms' k))
  model-perm {ms} {ms'} k h =
      let named : Event → Bool = λ m. str_eq (model_or_unknown m.1.model) k in
      let counted = tally-only-perm every named (λ m. pos 1) h in
      let failed = tally-only-perm (λ m. is_error m.1.status_code) named (λ m. pos 1) h in
      let summed =
        tally-only-perm (λ m. ltb_ℤ (pos 0) m.1.total_tokens) named (λ m. m.1.total_tokens) h in
      counters-kept_entry (of_model fl ms k)
      ∙ rw (counted, failed, summed) refl
      ∙ sym (counters-kept_entry (of_model fl ms' k))

  -- Requests that are recorded in another order, as concurrent requests may be, give a snapshot with
  -- the same number of requests, sum of tokens and share of cache hits, and for each model the same
  -- counters; Go's integers wrap around.
  pub snapshot-record_all_perm :
      {ms ms' : List Event}
      → Perm ms ms'
      → ((snapshot fl (record_all fl ms)).total_requests
          ≡ (snapshot fl (record_all fl ms')).total_requests)
        × ((snapshot fl (record_all fl ms)).total_tokens
            ≡ (snapshot fl (record_all fl ms')).total_tokens)
        × ((snapshot fl (record_all fl ms)).cache_hit_rate
            ≡ (snapshot fl (record_all fl ms')).cache_hit_rate)
        × ((k : String)
            → counters (lookup k (snapshot fl (record_all fl ms)).models)
              ≡ counters (lookup k (snapshot fl (record_all fl ms')).models))
  snapshot-record_all_perm {ms} {ms'} h =
      let (requests, tokens, rate, models) = snapshot-kept_entry fl ms in
      let (requests', tokens', rate', models') = snapshot-kept_entry fl ms' in
      (
        requests ∙ tally-perm every (λ m. pos 1) h ∙ sym requests',
        tokens
            ∙ tally-perm (λ m. ltb_ℤ (pos 0) m.1.total_tokens) (λ m. m.1.total_tokens) h
            ∙ sym tokens',
        rate ∙ hit_rate-perm h ∙ sym rate',
        λ k. ap counters (models k) ∙ model-perm k h ∙ sym (ap counters (models' k)),
      )
