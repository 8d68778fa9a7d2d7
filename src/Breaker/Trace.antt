-- ===== src/Breaker/Trace.antt =====
-- A breaker under any sequence of calls.
use high_performance_llm_gat.Prelude.{
  ℕ, suc, ◌≤◌, ◌<◌, ◌≡◌, ◌≢◌, refl, false, arith, List, [], ◌∷◌, ◌∙◌,
}
use high_performance_llm_gat.Prelude.Int.{
  ℤ, pos, pos_part, neg_part, int_half, pos_part-+ℤ_one, +ℤ_range,
}
use high_performance_llm_gat.Breaker.{
  CircuitBreaker, new_circuit_breaker, allow, record_success, record_failure,
}
use high_performance_llm_gat.Breaker.Laws.{
  IsValid, new_circuit_breaker-IsValid, allow-IsValid, record_success-IsValid,
  record_failure-IsValid,
}

-- One call of a method, with the time that it is given.
pub data Event : Type 0 where
  allowed succeeded failed : ℕ → Event

unfoldable pub step : Event → CircuitBreaker → CircuitBreaker
step (allowed t) c = (allow c t).0
step (succeeded t) c = record_success c
step (failed t) c = record_failure c t

-- The latest event first.
unfoldable pub run : List Event → CircuitBreaker → CircuitBreaker
run [] c = c
run (e ∷ es) c = step e (run es c)

-- The clock never shows Go's zero time.
abbrev pub time_of : Event → ℕ
time_of (allowed t) = t
time_of (succeeded t) = t
time_of (failed t) = t

abbrev pub Timed : List Event → Type 0
Timed [] = Unit
Timed (e ∷ es) = (time_of e ≢ 0) × Timed es

-- The failures since the last success.
abbrev pub recent_failures : List Event → ℕ
recent_failures [] = 0
recent_failures (failed t ∷ es) = suc (recent_failures es)
recent_failures (succeeded t ∷ es) = 0
recent_failures (allowed t ∷ es) = recent_failures es

step-IsValid : (e : Event) (c : CircuitBreaker) → time_of e ≢ 0 → IsValid c → IsValid (step e c)
unfolding step
step-IsValid (allowed t) c h v = allow-IsValid c t v
step-IsValid (succeeded t) c h v = record_success-IsValid c v
step-IsValid (failed t) c h v = record_failure-IsValid c t h v

-- Whatever methods are called in whatever order, on any settings, the breaker stays valid.
pub run-IsValid :
    (es : List Event) (threshold timeout : ℤ)
    → Timed es
    → IsValid (run es (new_circuit_breaker threshold timeout))
unfolding run
run-IsValid [] a b h = new_circuit_breaker-IsValid a b
run-IsValid (e ∷ es) a b h = step-IsValid e _ h.0 (run-IsValid es a b h.1)

record Counted (n : ℕ) (c : CircuitBreaker) : Type 0 where
  counted : pos_part c.consecutive_failures ≤ n
  ranged : neg_part c.consecutive_failures ≤ int_half
  opened : c.opened_at ≢ 0 → c.failure_threshold ≤ n

step-Counted :
    (e : Event) (es : List Event) (c : CircuitBreaker)
    → 0 < c.failure_threshold
    → Counted (recent_failures es) c
    → Counted (recent_failures (e ∷ es)) (step e c)
unfolding step
step-Counted (allowed t) es c p h = unfold allow in ground arith
step-Counted (succeeded t) es c p h = unfold record_success in ground arith
step-Counted (failed t) es c p h =
    unfold record_failure in
    ground (arith, pos_part-+ℤ_one c.consecutive_failures, +ℤ_range c.consecutive_failures (pos 1))

run-Counted :
    (es : List Event) (threshold timeout : ℤ)
    → Timed es
    → Counted (recent_failures es) (run es (new_circuit_breaker threshold timeout))
unfolding run
run-Counted [] a b h = unfold new_circuit_breaker in ground arith
run-Counted (e ∷ es) a b h =
    step-Counted e es _ (run-IsValid es a b h.1).threshold_pos (run-Counted es a b h.1)

run-failure_threshold :
    (es : List Event) (c : CircuitBreaker) → (run es c).failure_threshold ≡ c.failure_threshold
unfolding run
run-failure_threshold [] c = refl
run-failure_threshold (e ∷ es) c = step_threshold e (run es c) ∙ run-failure_threshold es c
  where
    step_threshold :
        (e : Event) (c : CircuitBreaker) → (step e c).failure_threshold ≡ c.failure_threshold
    step_threshold (allowed t) c = unfold step allow in ground arith
    step_threshold (succeeded t) c = unfold step record_success in ground arith
    step_threshold (failed t) c = unfold step record_failure in ground arith

-- A breaker that refuses a call has seen at least its threshold of failures since the last
-- success, whatever calls came between.
pub refusal_needs_failures :
    (es : List Event) (threshold timeout : ℤ) (now : ℕ)
    → Timed es
    → (allow (run es (new_circuit_breaker threshold timeout)) now).1 ≡ false
    → (new_circuit_breaker threshold timeout).failure_threshold ≤ recent_failures es
unfolding allow
refusal_needs_failures es a b now h refused =
    rw (← run-failure_threshold es (new_circuit_breaker a b))
      ((run-Counted es a b h).opened (ground arith))
