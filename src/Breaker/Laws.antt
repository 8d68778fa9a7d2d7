-- ===== src/Breaker/Laws.antt =====
-- The breaker's methods against each other, and the invariant that they keep.
use high_performance_llm_gat.Prelude.{
  ℕ, ◌+◌, ◌≤◌, ◌<◌, ◌≡◌, ◌≢◌, true, false, not, arith, ◌==◌, ltb, ◌&&◌, ap, ◌∙◌, List, [], ◌∷◌,
  length,
}
use high_performance_llm_gat.Prelude.Int.{ℤ, pos, leb_ℤ, +ℤ-pos, int_half}
use high_performance_llm_gat.Breaker.{
  CircuitBreaker, new_circuit_breaker, allow, record_success, record_failure, is_open,
}

-- The settings are usable, and a closed breaker stands below its threshold.
pub record IsValid (c : CircuitBreaker) : Type 0 where
  pub threshold_pos : 0 < c.failure_threshold
  pub timeout_pos : 0 < c.open_timeout
  pub closed_below :
      c.opened_at ≡ 0 → leb_ℤ (pos c.failure_threshold) c.consecutive_failures ≡ false

pub new_circuit_breaker-IsValid : (t o : ℤ) → IsValid (new_circuit_breaker t o)
unfolding new_circuit_breaker
new_circuit_breaker-IsValid t o = ground arith

pub allow-IsValid : (c : CircuitBreaker) (now : ℕ) → IsValid c → IsValid (allow c now).0
unfolding allow
allow-IsValid c now v = ground arith

pub record_success-IsValid : (c : CircuitBreaker) → IsValid c → IsValid (record_success c)
unfolding record_success
record_success-IsValid c v = ground arith

pub record_failure-IsValid :
    (c : CircuitBreaker) (now : ℕ) → now ≢ 0 → IsValid c → IsValid (record_failure c now)
unfolding record_failure
record_failure-IsValid c now h v = ground arith

-- In every state a call is admitted exactly when the breaker does not report itself open.
pub allow-is_open : (c : CircuitBreaker) (now : ℕ) → (allow c now).1 ≡ not (is_open c now)
unfolding allow is_open
allow-is_open c now = ground arith

-- Failures in a row, the latest first.
unfoldable pub fail_all : List ℕ → CircuitBreaker → CircuitBreaker
fail_all [] c = c
fail_all (t ∷ ts) c = record_failure (fail_all ts c) t

-- A breaker with no failure recorded.
pub record IsFresh (c : CircuitBreaker) : Type 0 where
  pub no_failures : c.consecutive_failures ≡ pos 0
  pub closed : c.opened_at ≡ 0
  pub in_range : c.failure_threshold < int_half

-- Below the threshold failures are counted and nothing else changes.
fail_all_below :
    (ts : List ℕ) (c : CircuitBreaker)
    → IsFresh c
    → length ts < c.failure_threshold
    → fail_all ts c ≡ record c { consecutive_failures = pos (length ts) }
unfolding fail_all
fail_all_below [] c f h = ground arith
fail_all_below (t ∷ ts) c f h =
    rw (fail_all_below ts c f (omega arith))
      (unfold record_failure in ground (arith, +ℤ-pos (length ts) 1))

-- A fresh breaker reports itself open from the failure that reaches the threshold on, for the
-- timeout.
fail_all-is_open :
    (t : ℕ) (ts : List ℕ) (c : CircuitBreaker) (now : ℕ)
    → IsFresh c
    → t ≢ 0
    → length ts + 1 ≤ c.failure_threshold
    → is_open (fail_all (t ∷ ts) c) now
      ≡ (length ts + 1 == c.failure_threshold && ltb now (t + c.open_timeout))
unfolding fail_all
fail_all-is_open t ts c now f ht h =
    rw (fail_all_below ts c f (omega arith))
      (unfold record_failure is_open in ground (arith, +ℤ-pos (length ts) 1))

-- A fresh breaker, one with no failure recorded, admits every call while fewer failures than the
-- threshold stand in a row, and the failure that reaches the threshold, recorded at `t`, which is not
-- 0, makes it refuse exactly the calls before `t` plus the timeout.
pub fail_all-allow :
    (t : ℕ) (ts : List ℕ) (c : CircuitBreaker) (now : ℕ)
    → IsFresh c
    → t ≢ 0
    → length ts + 1 ≤ c.failure_threshold
    → (allow (fail_all (t ∷ ts) c) now).1
      ≡ not (length ts + 1 == c.failure_threshold && ltb now (t + c.open_timeout))
fail_all-allow t ts c now f ht h =
    allow-is_open (fail_all (t ∷ ts) c) now ∙ ap not (fail_all-is_open t ts c now f ht h)

-- The first call that an open breaker admits leaves it with no failure recorded.
allow-IsFresh :
    (c : CircuitBreaker) (now : ℕ)
    → c.failure_threshold < int_half
    → c.opened_at ≢ 0
    → c.opened_at + c.open_timeout ≤ now
    → IsFresh (allow c now).0
unfolding allow
allow-IsFresh c now small opened h = ground arith

allow-threshold :
    (c : CircuitBreaker) (now : ℕ) → (allow c now).0.failure_threshold ≡ c.failure_threshold
unfolding allow
allow-threshold c now = ground arith

allow_below :
    (ts : List ℕ) (c : CircuitBreaker) (now : ℕ)
    → IsFresh c
    → length ts < c.failure_threshold
    → (allow (fail_all ts c) now).1 ≡ true
unfolding allow
allow_below ts c now f h = let closed = f.closed in rw (fail_all_below ts c f h) (ground arith)

-- Once the timeout of an open breaker has passed, the call that it admits is not a single trial: after
-- it, and after any number of failures in a row below the threshold, every call is admitted at any
-- time. The threshold is below 2^63.
pub allow-fail_all :
    (c : CircuitBreaker) (now later : ℕ) (ts : List ℕ)
    → c.failure_threshold < int_half
    → c.opened_at ≢ 0
    → c.opened_at + c.open_timeout ≤ now
    → length ts < c.failure_threshold
    → ((allow c now).1 ≡ true) × ((allow (fail_all ts (allow c now).0) later).1 ≡ true)
allow-fail_all c now later ts small opened h few = (
  unfold allow in ground arith,
  allow_below ts (allow c now).0 later (allow-IsFresh c now small opened h)
      (omega (arith, allow-threshold c now)),
)
