-- ===== src/RateLimit.antt =====
-- internal/middleware/ratelimit.go: the token buckets, the limiter on Redis and the middleware.
-- Times are in nanoseconds, of a monotonic clock; tokens are of float64. A limiter runs under its
-- mutex, so a call is one step on its record.
pub mod Bucket
pub mod Admission
use text.Mathlib.Text.{◌==◌ as str_eq}
use high_performance_llm_gat.Prelude.{
  ℕ, ◌+◌, ◌-◌, ◌/◌, ◌%◌, String, List, [], ◌∷◌, Option, none, some, Bool, true, false, not, ◌==◌,
  ltb, if◌then◌else◌,
}
use high_performance_llm_gat.Prelude.Int.{ℤ, pos, negsuc, leb_ℤ, int_half}
use high_performance_llm_gat.Prelude.Text.{trim_space, to_lower, contains_text, ◌++ₛ◌}
use high_performance_llm_gat.Prelude.Dict.{lookup, insert}
use high_performance_llm_gat.Prelude.Float.{Float}
use high_performance_llm_gat.Breaker.{second}
use high_performance_llm_gat.Config.{RateLimitConfig}
use high_performance_llm_gat.Errors.{GatewayError, rate_limit_exceeded_error}

pub record RateLimiter (F : Type 0) : Type 0 where
  pub tokens : F
  pub max_tokens : F
  pub refill_rate : F
  pub last_refill : ℕ

-- `Sub` of two times of which the first is not the earlier; a Duration saturates.
unfoldable pub elapsed : ℕ → ℕ → ℕ
elapsed now last = if ltb (now - last) int_half then now - last else int_half - 1

module _ {F : Type 0} (fl : Float F) where
  unfoldable pub new_rate_limiter : ℤ → ℤ → ℕ → RateLimiter F
  new_rate_limiter qps burst now = record {
    tokens = fl.of_int burst;
    max_tokens = fl.of_int burst;
    refill_rate = fl.of_int qps;
    last_refill = now;
  }

  -- `Seconds` of a duration.
  unfoldable pub seconds : ℕ → F
  seconds d =
      fl.add (fl.of_nat (d / second)) (fl.div (fl.of_nat (d % second)) (fl.of_nat 1_000_000_000))

  -- The tokens after the refill of a call at `now`.
  unfoldable pub refilled : RateLimiter F → ℕ → F
  unfolding seconds elapsed
  refilled r now =
      let t = fl.add r.tokens (fl.mul (seconds (elapsed now r.last_refill)) r.refill_rate) in
      if fl.lt r.max_tokens t then r.max_tokens else t

  -- `tokens--`
  unfoldable pub spend : F → F
  spend t = fl.add t (fl.of_int (negsuc 0))

  unfoldable pub allow : RateLimiter F → ℕ → RateLimiter F × Bool
  unfolding refilled spend
  allow r now =
      let t = refilled r now in
      if fl.le (fl.of_int (pos 1)) t
      then (record r { tokens = spend t; last_refill = now }, true)
      else (record r { tokens = t; last_refill = now }, false)

-- The limiter on Redis: `incr` is INCR with its result or error, and `expire` EXPIRE, whose result
-- the code does not read.
pub record Counters (R : Type 0) : Type 0 where
  pub incr : String → R → Option ℤ × R
  pub expire : String → ℤ → R → R

pub record RedisRateLimiter : Type 0 where
  pub key : String
  pub limit : ℤ
  pub window : ℤ

abbrev is_one : ℤ → Bool
is_one (pos n) = n == 1
is_one (negsuc n) = false

-- `none` is the error of INCR.
unfoldable pub redis_allow : {R : Type 0} → Counters R → RedisRateLimiter → R → Option Bool × R
redis_allow redis r s =
    let (count, s') = redis.incr r.key s in
    elim count [
      | none ↦ (none, s')
      | some n ↦ (some (leb_ℤ n r.limit), if is_one n then redis.expire r.key r.window s' else s')
    ]

-- The limiters of the middleware.
pub record Limits (F : Type 0) : Type 0 where
  pub global_limiter : RateLimiter F
  pub model_limiters : List (String × RateLimiter F)

-- What the middleware does with a request: it hands it on, or rejects it and aborts the chain.
pub data Verdict : Type 0 where
  pass : Verdict
  reject : GatewayError → Verdict

abbrev pub model_key : String → String
model_key model = if str_eq model "" then "default" else model

module _ {F : Type 0} (fl : Float F) where
  -- The loop over `cfg.ModelLimits`.
  unfoldable pub model_limiters_of : List (String × ℤ) → ℕ → List (String × RateLimiter F)
  unfolding new_rate_limiter
  model_limiters_of [] now = []
  model_limiters_of ((model, limit) ∷ rest) now =
      let others = model_limiters_of rest now in
      if leb_ℤ limit (pos 0)
      then others
      else insert model (new_rate_limiter fl limit limit now) others

  unfoldable pub new_limits : RateLimitConfig → ℕ → Limits F
  unfolding model_limiters_of new_rate_limiter
  new_limits cfg now = record {
    global_limiter = new_rate_limiter fl cfg.global_qps cfg.burst now;
    model_limiters = model_limiters_of cfg.model_limits now;
  }

  unfoldable pub check_global : Limits F → ℕ → Limits F × Verdict
  check_global l now =
      let (g, admitted) = allow fl l.global_limiter now in
      (
        record l { global_limiter = g },
        if admitted then pass else reject (rate_limit_exceeded_error "Rate limit exceeded"),
      )

  -- The handler that `RateLimit` returns, for a request whose model is extracted already; the model's
  -- limiter reads the clock at `t1` and the global one at `t2`.
  unfoldable pub rate_limit : Limits F → String → ℕ → ℕ → Limits F × Verdict
  unfolding check_global
  rate_limit l extracted t1 t2 =
      let model = model_key extracted in
      elim (lookup model l.model_limiters) [
        | none ↦ check_global l t2
        | some limiter ↦
            let (limiter', admitted) = allow fl limiter t1 in
            let l' = record l { model_limiters = insert model limiter' l.model_limiters } in
            let global = check_global l' t2 in
            if admitted then global else (
              l',
              reject (rate_limit_exceeded_error ("Rate limit exceeded for model " ++ₛ model)),
            )
      ]

-- The parts of a request that `extractModelFromRequest` reads; `body` is none for a nil body, and
-- some none for a body whose reading fails.
pub record ModelSource : Type 0 where
  pub query_model : String
  pub form_model : String
  pub content_type : String
  pub body : Option (Option String)

-- `decode` is json.Unmarshal into the field `model`. The body that later handlers read is returned
-- beside the model.
unfoldable pub extract_from_body :
    (String → Option String) → String → Option (Option String) → String × Option (Option String)
extract_from_body decode content_type none = ("", none)
extract_from_body decode content_type (some read) =
    if not (contains_text (to_lower content_type) "application/json")
    then ("", some read)
    else elim read [
      | none ↦ ("", some none)
      | some bytes ↦ elim (decode bytes) [
        | none ↦ ("", some (some bytes))
        | some model ↦ (trim_space model, some (some bytes))
      ]
    ]

unfoldable pub extract_model :
    (String → Option String) → ModelSource → String × Option (Option String)
unfolding extract_from_body
extract_model decode c =
    let query = trim_space c.query_model in
    let form = trim_space c.form_model in
    if not (str_eq query "")
    then (query, c.body)
    else if not (str_eq form "")
    then (form, c.body)
    else extract_from_body decode c.content_type c.body
