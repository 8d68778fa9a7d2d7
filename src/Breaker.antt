-- ===== src/Breaker.antt =====
-- internal/service/circuitbreaker.go: the consecutive-failure breaker. A time is a number of
-- nanoseconds since Go's zero time, so `IsZero` is a test against 0. Each method runs under the
-- breaker's mutex, so it is one step on the record.
pub mod Laws
pub mod Trace
use high_performance_llm_gat.Prelude.{ℕ, ◌+◌, ◌*◌, Bool, true, false, leb, ltb, ◌==◌, if◌then◌else◌}
use high_performance_llm_gat.Prelude.Int.{ℤ, pos, negsuc, ◌+ℤ◌, leb_ℤ}

pub record CircuitBreaker : Type 0 where
  pub failure_threshold : ℕ
  pub open_timeout : ℕ
  pub consecutive_failures : ℤ
  pub opened_at : ℕ

-- A setting that is not positive takes its default.
abbrev pub positive_or : ℕ → ℤ → ℕ
positive_or default (pos n) = if n == 0 then default else n
positive_or default (negsuc n) = default

abbrev pub second : ℕ
second = 1_000_000_000

unfoldable pub new_circuit_breaker : ℤ → ℤ → CircuitBreaker
new_circuit_breaker failure_threshold open_timeout = record {
  failure_threshold = positive_or 3 failure_threshold;
  open_timeout = positive_or (30 * second) open_timeout;
  consecutive_failures = pos 0;
  opened_at = 0;
}

-- `now.Sub(c.openedAt) >= c.openTimeout`
abbrev pub timed_out : CircuitBreaker → ℕ → Bool
timed_out c now = leb (c.opened_at + c.open_timeout) now

unfoldable pub allow : CircuitBreaker → ℕ → CircuitBreaker × Bool
allow c now =
    if c.opened_at == 0
    then (c, true)
    else if timed_out c now
    then (record c { opened_at = 0; consecutive_failures = pos 0 }, true)
    else (c, false)

unfoldable pub record_success : CircuitBreaker → CircuitBreaker
record_success c = record c { consecutive_failures = pos 0; opened_at = 0 }

unfoldable pub record_failure : CircuitBreaker → ℕ → CircuitBreaker
record_failure c now =
    let failures = c.consecutive_failures +ℤ pos 1 in
    if leb_ℤ (pos c.failure_threshold) failures
    then record c { consecutive_failures = failures; opened_at = now }
    else record c { consecutive_failures = failures }

unfoldable pub is_open : CircuitBreaker → ℕ → Bool
is_open c now = if c.opened_at == 0 then false else ltb now (c.opened_at + c.open_timeout)
