-- ===== src/RateLimit/Admission.antt =====
-- The middleware: which requests pass, and which tokens they cost.
use high_performance_llm_gat.Prelude.{
  ℕ, String, ◌≡◌, Option, none, some, Bool, true, arith, if◌then◌else◌, ◌&&◌,
}
use high_performance_llm_gat.Prelude.Dict.{lookup}
use high_performance_llm_gat.Prelude.Float.{Float}
use high_performance_llm_gat.Errors.{http_status, rate_limit_exceeded_error}
use high_performance_llm_gat.RateLimit.{
  RateLimiter, Limits, Verdict, pass, reject, allow, rate_limit, model_key,
}

-- The status of the answer to a rejected request.
abbrev pub status_of : Verdict → Option ℕ
status_of pass = none
status_of (reject e) = some (http_status e)

module _ {F : Type 0} (fl : Float F) where
  -- Whether the limiter of the model, if there is one, admits a call.
  abbrev pub model_admits : Option (RateLimiter F) → ℕ → Bool
  model_admits none t = true
  model_admits (some r) t = (allow fl r t).1

  -- A request passes if its model's limiter, if there is one, and the global limiter admit it, and
  -- is answered with status 429 otherwise; a request that its model's limiter refuses costs no token
  -- of the global limiter.
  pub rate_limit-verdict :
      (l : Limits F) (extracted : String) (t1 t2 : ℕ)
      → (status_of (rate_limit fl l extracted t1 t2).1 ≡ (
          if model_admits (lookup (model_key extracted) l.model_limiters) t1
            && (allow fl l.global_limiter t2).1
          then none
          else some 429))
        × ((rate_limit fl l extracted t1 t2).0.global_limiter ≡ (
            if model_admits (lookup (model_key extracted) l.model_limiters) t1
            then (allow fl l.global_limiter t2).0
            else l.global_limiter))
  unfolding rate_limit http_status rate_limit_exceeded_error
  rate_limit-verdict l extracted t1 t2 = ground arith
