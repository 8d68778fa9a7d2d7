-- ===== src/LoadTest/Laws.antt =====
-- The load test: the results that are counted, and the percentile.
use mathlib.Core.Path.{subst}
use high_performance_llm_gat.Prelude.{
  ℕ, zero, suc, ◌+◌, ◌-◌, ◌<◌, List, [], ◌∷◌, some, ◌≡◌, refl, arith, length, get_elem?, inl, inr,
  Option-cases,
}
use high_performance_llm_gat.Prelude.Int.{ℤ}
use high_performance_llm_gat.Prelude.Float.{Float}
use high_performance_llm_gat.LoadTest.{
  TestResult, Collected, count_status, add_result, collect, no_results, clamped, or_zero,
  percentile,
}

-- The sum of the counts.
abbrev pub total : List (ℕ × ℕ) → ℕ
total [] = 0
total ((code, n) ∷ rest) = n + total rest

total-count_status : (code : ℕ) (m : List (ℕ × ℕ)) → total (count_status code m) ≡ suc (total m)
unfolding count_status
total-count_status code [] = refl
total-count_status code ((other, n) ∷ rest) = ground (arith, total-count_status code rest)

-- The results that were counted, the errors and the answers, are as many as the number.
record Counts (c : Collected) (n : ℕ) : Type 0 where
  answers : total c.statuses + c.err_count ≡ n
  latencies : length c.latencies ≡ total c.statuses

add_result-Counts :
    (c : Collected) (n : ℕ) (r : TestResult) → Counts c n → Counts (add_result c r) (suc n)
unfolding add_result
add_result-Counts c n r h = elim (Option-cases r.err) [
  | inl none_err ↦
      let grown = total-count_status r.status_code c.statuses in
      rw none_err (record {
        answers = omega (arith, grown, h.answers);
        latencies = omega (arith, grown, h.latencies);
      })
  | inr (e, some_err) ↦
      rw some_err (record { answers = omega (arith, h.answers); latencies = h.latencies })
]

collect-Counts :
    (rs : List TestResult) (c : Collected) (n : ℕ)
    → Counts c n
    → Counts (collect rs c) (length rs + n)
unfolding collect
collect-Counts [] c n h = subst (Counts c) (omega arith) h
collect-Counts (r ∷ rs) c n h =
    subst (Counts (collect rs (add_result c r))) (omega arith)
      (collect-Counts rs (add_result c r) (suc n) (add_result-Counts c n r h))

-- Whatever the results and their order, each is counted once: the errors and the counts of the
-- statuses add up to the number of results, and there is one latency for each status that was
-- counted.
pub collect_total :
    (rs : List TestResult)
    → (total (collect rs no_results).statuses + (collect rs no_results).err_count ≡ length rs)
      × (length (collect rs no_results).latencies ≡ total (collect rs no_results).statuses)
collect_total rs =
    let c = collect-Counts rs no_results 0 (record { answers = refl; latencies = refl }) in
    (omega (arith, c.answers), c.latencies)

module _ {F : Type 0} (fl : Float F) where
  some-or_zero :
      (i : ℕ) (xs : List F) → i < length xs → get_elem? xs i ≡ some (or_zero fl (get_elem? xs i))
  some-or_zero i [] h = absurd (omega (arith, h))
  some-or_zero zero (x ∷ xs) h = refl
  some-or_zero (suc i) (x ∷ xs) h = some-or_zero i xs (omega (arith, h))

  clamped_bound : (idx : ℤ) (n : ℕ) → 0 < n → clamped fl idx n < n
  clamped_bound idx n h = ground (arith, h)

  -- However the conversion to an integer rounds and whatever the percentage, the percentile of a
  -- list that is not empty is one of its elements.
  pub percentile_element :
      (trunc : F → ℤ) (xs : List F) (p : F)
      → 0 < length xs
      → (i : ℕ) × (get_elem? xs i ≡ some (percentile fl trunc xs p))
  unfolding percentile
  percentile_element trunc [] p h = absurd (omega (arith, h))
  percentile_element trunc (x ∷ xs) p h =
      let n = length (x ∷ xs) in
      let idx = trunc (fl.mul (fl.div p (fl.of_nat 100)) (fl.of_nat (n - 1))) in
      (clamped fl idx n, some-or_zero (clamped fl idx n) (x ∷ xs) (clamped_bound idx n h))
