-- ===== src/Stats/Mean.antt =====
-- internal/service/stats.go: what a snapshot says of the requests that were recorded, with the mean of
-- the latencies by the numbers of requests before and after each.
use high_performance_llm_gat.Prelude.{
  ℕ, suc, ◌+◌, ◌-◌, ◌≤◌, ◌<◌, ◌≡◌, refl, ap, ◌∙◌, sym, String, List, [], ◌∷◌, Option, none, some,
  Bool, Bool-cases, inl, inr, arith, length,
}
use high_performance_llm_gat.Prelude.Int.{ℤ, pos, negsuc, ◌+ℤ◌, int_half}
use high_performance_llm_gat.Prelude.Dict.{lookup}
use high_performance_llm_gat.Prelude.Tally.{only, count_exact}
use high_performance_llm_gat.Prelude.Float.{Float}
use high_performance_llm_gat.Stats.{ModelUsage, next_average, snapshot, milliseconds}
use high_performance_llm_gat.Stats.Laws.{
  Event, requests, failures, tokens, folded, kept_entry, of_model, record_all, hit_rate,
  snapshot-kept_entry,
}

-- One less than a positive number in range.
less_one : (n : ℕ) → n + 2 < int_half → pos (n + 2) +ℤ negsuc 0 ≡ pos (n + 1)
unfolding ◌+ℤ◌ high_performance_llm_gat.Prelude.Int.wrap
less_one n h = ground arith

length-only-le : {A : Type 0} (p : A → Bool) (xs : List A) → length (only p xs) ≤ length xs
length-only-le p [] = omega arith
length-only-le p (x ∷ xs) = elim (Bool-cases (p x)) [
  | inl good ↦ rw good (omega (arith, length-only-le p xs))
  | inr bad ↦ rw bad (omega (arith, length-only-le p xs))
]

module _ {F : Type 0} (fl : Float F) where
  abbrev latency_ms : Event → F
  latency_ms m = fl.of_int (milliseconds m.1.latency)

  -- The running mean of the latencies: that of the first request, and with one request more the sum
  -- that the mean before stands for and the new latency, over the number of requests.
  abbrev pub average : List Event → F
  average [] = fl.zero
  average (m ∷ []) = latency_ms m
  average (m ∷ n ∷ ms) =
      fl.div (fl.add (fl.mul (average (n ∷ ms)) (fl.of_int (pos (length (n ∷ ms))))) (latency_ms m))
        (fl.of_int (pos (length (m ∷ n ∷ ms))))

  -- What is kept of the requests of one model, the latest first.
  abbrev pub usage_entry : List Event → Option (ModelUsage F)
  usage_entry [] = none
  usage_entry ((timestamp, m) ∷ ms) = some (record {
    requests = requests ((timestamp, m) ∷ ms);
    errors = failures ((timestamp, m) ∷ ms);
    total_tokens = tokens ((timestamp, m) ∷ ms);
    avg_latency_ms = average ((timestamp, m) ∷ ms);
    last_status = m.status_code;
    last_updated_at = timestamp;
  })

  -- `Record` on a mean that stands for some requests already.
  next_average-later :
      (mean latency : F) (n : ℕ)
      → n + 2 < int_half
      → next_average fl mean (pos (n + 2)) latency
        ≡ fl.div (fl.add (fl.mul mean (fl.of_int (pos (n + 1)))) latency) (fl.of_int (pos (n + 2)))
  unfolding next_average
  next_average-later mean latency n h =
      let less : pos (n + 2) +ℤ negsuc 0 ≡ pos (n + 1) = less_one n h in rw less (ground arith)

  folded-average : (ms : List Event) → length ms < int_half → folded fl ms ≡ average ms
  unfolding next_average ◌+ℤ◌ high_performance_llm_gat.Prelude.Int.wrap
  folded-average [] h = refl
  folded-average (m ∷ []) h = refl
  folded-average (m ∷ n ∷ ms) h =
      let before = folded-average (n ∷ ms) (omega arith) in
      let counted : requests (m ∷ n ∷ ms) ≡ pos (length ms + 2) =
        count_exact (m ∷ n ∷ ms) h ∙ ap pos (omega arith) in
      ap (λ k. next_average fl (folded fl (n ∷ ms)) k (latency_ms m)) counted
      ∙ next_average-later (folded fl (n ∷ ms)) (latency_ms m) (length ms) (omega arith)
      ∙ ap
          (λ a.
            fl.div (fl.add (fl.mul a (fl.of_int (pos (length ms + 1)))) (latency_ms m))
              (fl.of_int (pos (length ms + 2))))
          before
      ∙ ground arith

  kept_entry-usage_entry :
      (ms : List Event) → length ms < int_half → kept_entry fl ms ≡ usage_entry ms
  kept_entry-usage_entry [] h = refl
  kept_entry-usage_entry (m ∷ ms) h = rw (folded-average (m ∷ ms) h) refl

  -- Whatever requests are recorded, fewer than 2^63, a snapshot has their number, the sum of their
  -- tokens and the share of cache hits, and for each model an entry, if a request named the model,
  -- with the counts, the sums, the running mean of the latencies and the last status of that model's
  -- requests alone. The sums of tokens are of 64 bits.
  pub snapshot-record_all :
      (ms : List Event)
      → length ms < int_half
      → ((snapshot fl (record_all fl ms)).total_requests ≡ requests ms)
        × ((snapshot fl (record_all fl ms)).total_tokens ≡ tokens ms)
        × ((snapshot fl (record_all fl ms)).cache_hit_rate ≡ hit_rate fl ms)
        × ((k : String)
            → lookup k (snapshot fl (record_all fl ms)).models ≡ usage_entry (of_model fl ms k))
  snapshot-record_all ms h =
      let (total, summed, rate, models) = snapshot-kept_entry fl ms in
      (
        total,
        summed,
        rate,
        λ k.
            models k
            ∙ kept_entry-usage_entry (of_model fl ms k) (omega (arith, length-only-le _ ms)),
      )
