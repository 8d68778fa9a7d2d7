-- ===== src/LoadTest.antt =====
-- scripts/loadtest/main.go: how the load test sums up the results of its requests. The results come
-- from a channel in the order in which the workers finish.
pub mod Laws
use high_performance_llm_gat.Prelude.{
  ℕ, suc, String, List, [], ◌∷◌, Option, none, some, ◌==◌, ltb, leb, ◌-◌, length, get_elem?,
  if◌then◌else◌,
}
use high_performance_llm_gat.Prelude.Int.{ℤ, pos, pos_part, ltb_ℤ, leb_ℤ}
use high_performance_llm_gat.Prelude.Float.{Float}
use high_performance_llm_gat.Stats.{milliseconds}

pub record TestResult : Type 0 where
  pub status_code : ℕ
  pub latency : ℤ
  pub err : Option String

-- `statuses[code]++`
unfoldable pub count_status : ℕ → List (ℕ × ℕ) → List (ℕ × ℕ)
count_status code [] = (code, 1) ∷ []
count_status code ((other, n) ∷ rest) =
    let counted = count_status code rest in
    if code == other then (other, suc n) ∷ rest else (other, n) ∷ counted

-- The variables of the loop over the results; the latencies are in milliseconds, the latest first.
pub record Collected : Type 0 where
  pub err_count : ℕ
  pub statuses : List (ℕ × ℕ)
  pub latencies : List ℤ

unfoldable pub add_result : Collected → TestResult → Collected
unfolding count_status
add_result c r = elim r.err [
  | some e ↦ record c { err_count = suc c.err_count }
  | none ↦ record c {
    statuses = count_status r.status_code c.statuses;
    latencies = milliseconds r.latency ∷ c.latencies;
  }
]

-- The loop.
unfoldable pub collect : List TestResult → Collected → Collected
unfolding add_result
collect [] c = c
collect (r ∷ rs) c = collect rs (add_result c r)

abbrev pub no_results : Collected
no_results = record { err_count = 0; statuses = []; latencies = [] }

module _ {F : Type 0} (fl : Float F) where
  -- An index that is clamped to the list.
  abbrev pub clamped : ℤ → ℕ → ℕ
  clamped idx n =
      if ltb_ℤ idx (pos 0) then 0 else if leb n (pos_part idx) then n - 1 else pos_part idx

  abbrev pub or_zero : Option F → F
  or_zero none = fl.zero
  or_zero (some x) = x

  -- `percentile`; `trunc` is the conversion of a float64 to an int.
  unfoldable pub percentile : (F → ℤ) → List F → F → F
  percentile trunc [] p = fl.zero
  percentile trunc (x ∷ xs) p =
      let n = length (x ∷ xs) in
      let idx = trunc (fl.mul (fl.div p (fl.of_nat 100)) (fl.of_nat (n - 1))) in
      or_zero (get_elem? (x ∷ xs) (clamped idx n))

  -- The sum of the loop, from the left.
  abbrev sum_from : F → List F → F
  sum_from total [] = total
  sum_from total (x ∷ xs) = sum_from (fl.add total x) xs

  unfoldable pub avg : List F → F
  avg [] = fl.zero
  avg (x ∷ xs) = fl.div (sum_from fl.zero (x ∷ xs)) (fl.of_nat (length (x ∷ xs)))
