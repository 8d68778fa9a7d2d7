-- ===== src/RateLimit/Bucket.antt =====
-- The token bucket: when a call is admitted, with the rounding of float64.
use high_performance_llm_gat.Prelude.{
  ℕ, zero, suc, ◌-◌, ◌*◌, ◌≤◌, ◌<◌, ltb, ◌≡◌, refl, true, Bool-cases, inl, inr, arith,
}
use high_performance_llm_gat.Prelude.Int.{pos, negsuc, int_half}
use high_performance_llm_gat.Prelude.Float.{Float}
use high_performance_llm_gat.RateLimit.{
  RateLimiter, new_rate_limiter, allow, elapsed, refilled, seconds, spend,
}

elapsed-lt : (now last : ℕ) → elapsed now last < int_half
unfolding elapsed
elapsed-lt now last = ground arith

-- The time in which the rate gives a token, where the Duration saturates too.
elapsed_idle :
    (now last rate : ℕ)
    → 1_000_000_000 ≤ (now - last) * rate
    → 1_000_000_000 ≤ elapsed now last * rate
unfolding elapsed
elapsed_idle now last zero h = absurd (omega (arith, h))
elapsed_idle now last (suc rate) h = elim (Bool-cases (ltb (now - last) int_half)) [
  | inl exact ↦ rw exact h
  | inr over ↦ rw over (omega arith)
]

module _ {F : Type 0} (fl : Float F) where
  abbrev one : F
  one = fl.of_int (pos 1)

  -- What float64 keeps of the order through its rounding. The last two are of a refill, for a duration
  -- and a rate of 64 bits: the nanoseconds `d` in seconds, times a rate for which they are enough for
  -- one token, round to 1 or more.
  pub record IsRounded : Type 0 where
    pub int_nonneg : (n : ℕ) → fl.le fl.zero (fl.of_int (pos n)) ≡ true
    pub add_nonneg :
        (a b : F)
        → fl.le fl.zero a ≡ true
        → fl.le fl.zero b ≡ true
        → fl.le fl.zero (fl.add a b) ≡ true
    pub add_one :
        (a b : F) → fl.le fl.zero a ≡ true → fl.le one b ≡ true → fl.le one (fl.add a b) ≡ true
    pub less_one :
        (a : F) → fl.le one a ≡ true → fl.le fl.zero (fl.add a (fl.of_int (negsuc 0))) ≡ true
    pub gain_nonneg :
        (d n : ℕ)
        → d < int_half
        → n < int_half
        → fl.le fl.zero (fl.mul (seconds fl d) (fl.of_int (pos n))) ≡ true
    pub gain_one :
        (d n : ℕ)
        → d < int_half
        → n < int_half
        → 1_000_000_000 ≤ d * n
        → fl.le one (fl.mul (seconds fl d) (fl.of_int (pos n))) ≡ true

  -- Between its calls a bucket with a rate, an int, and a capacity that are not negative is not in
  -- debt.
  pub record IsValid (rate : ℕ) (r : RateLimiter F) : Type 0 where
    pub rate_nonneg : r.refill_rate ≡ fl.of_int (pos rate)
    pub rate_in_range : rate < int_half
    pub tokens_nonneg : fl.le fl.zero r.tokens ≡ true
    pub max_nonneg : fl.le fl.zero r.max_tokens ≡ true

  pub new_rate_limiter-IsValid :
      (qps burst now : ℕ)
      → IsRounded
      → qps < int_half
      → IsValid qps (new_rate_limiter fl (pos qps) (pos burst) now)
  unfolding new_rate_limiter
  new_rate_limiter-IsValid qps burst now k h = record {
    rate_nonneg = refl;
    rate_in_range = h;
    tokens_nonneg = k.int_nonneg burst;
    max_nonneg = k.int_nonneg burst;
  }

  refilled_nonneg :
      (rate : ℕ) (r : RateLimiter F) (now : ℕ)
      → IsRounded
      → IsValid rate r
      → fl.le fl.zero (refilled fl r now) ≡ true
  unfolding refilled
  refilled_nonneg rate r now k v =
      let gain = fl.mul (seconds fl (elapsed now r.last_refill)) r.refill_rate in
      let gained : fl.le fl.zero gain ≡ true = rw v.rate_nonneg (
        k.gain_nonneg (elapsed now r.last_refill) rate (elapsed-lt now r.last_refill)
          v.rate_in_range) in
      elim (Bool-cases (fl.lt r.max_tokens (fl.add r.tokens gain))) [
        | inl over ↦ rw over v.max_nonneg
        | inr under ↦ rw under (k.add_nonneg r.tokens gain v.tokens_nonneg gained)
      ]

  -- A call leaves no debt.
  pub allow-IsValid :
      (rate : ℕ) (r : RateLimiter F) (now : ℕ)
      → IsRounded
      → IsValid rate r
      → IsValid rate (allow fl r now).0
  unfolding allow spend
  allow-IsValid rate r now k v =
      let some_left = refilled_nonneg rate r now k v in
      elim (Bool-cases (fl.le one (refilled fl r now))) [
        | inl whole ↦ rw whole (record {
          rate_nonneg = v.rate_nonneg;
          rate_in_range = v.rate_in_range;
          tokens_nonneg = k.less_one (refilled fl r now) whole;
          max_nonneg = v.max_nonneg;
        })
        | inr short ↦ rw short (record {
          rate_nonneg = v.rate_nonneg;
          rate_in_range = v.rate_in_range;
          tokens_nonneg = some_left;
          max_nonneg = v.max_nonneg;
        })
      ]

  -- A bucket that is not in debt and whose capacity is a token or more admits a call that comes after
  -- the time in which the rate gives one token, for any numbers that keep the order as float64 does.
  pub allow_after_idle :
      (rate : ℕ) (r : RateLimiter F) (now : ℕ)
      → IsRounded
      → IsValid rate r
      → fl.le (fl.of_int (pos 1)) r.max_tokens ≡ true
      → 1_000_000_000 ≤ (now - r.last_refill) * rate
      → (allow fl r now).1 ≡ true
  unfolding allow refilled
  allow_after_idle rate r now k v cap idle =
      let gain = fl.mul (seconds fl (elapsed now r.last_refill)) r.refill_rate in
      let gained : fl.le one gain ≡ true = rw v.rate_nonneg (
        k.gain_one (elapsed now r.last_refill) rate (elapsed-lt now r.last_refill) v.rate_in_range
          (elapsed_idle now r.last_refill rate idle)) in
      let sum = k.add_one r.tokens gain v.tokens_nonneg gained in
      elim (Bool-cases (fl.lt r.max_tokens (fl.add r.tokens gain))) [
        | inl over ↦ rw (over, cap) refl
        | inr under ↦ rw (under, sum) refl
      ]
