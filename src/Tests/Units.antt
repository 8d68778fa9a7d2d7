-- ===== src/Tests/Units.antt =====
-- The breaker, the rate limiter, the error translations, the configuration and the chat endpoint's
-- checks at concrete inputs.
use high_performance_llm_gat.Prelude.{
  ℕ, ◌+◌, ◌*◌, ◌≤◌, ◌≡◌, refl, String, List, [], ◌∷◌, none, some, true, arith, ◌==◌, ltb, ◌&&◌, not,
  if◌then◌else◌, ◌↔◌, All, length,
}
use high_performance_llm_gat.Prelude.Int.{pos, scale, ◌+ℤ◌}
use text.Mathlib.Text.{◌==◌ as str_eq}
use high_performance_llm_gat.Tests.{whole, question}
use high_performance_llm_gat.Tests.Fixed.{fixed, fixed-IsRounded}
use high_performance_llm_gat.Chat.{ChatCompletionResponse}
use high_performance_llm_gat.Chat.Validate.{validate_chat_request}
use high_performance_llm_gat.Chat.Accepts.{IsValidRequest, validate_chat_request_iff}
use high_performance_llm_gat.Chat.Stream.{
  received, streaming_events, content_of, IsSmall, EndsDone, streaming_events_complete,
}
use high_performance_llm_gat.Breaker.{
  CircuitBreaker, new_circuit_breaker, allow, record_failure, record_success,
}
use high_performance_llm_gat.Breaker.Laws.{allow-fail_all, fail_all, fail_all-allow}
use high_performance_llm_gat.Breaker.Trace.{
  Event, Timed, step, allowed, succeeded, failed, run, recent_failures, refusal_needs_failures,
}
use high_performance_llm_gat.RateLimit.{new_rate_limiter, Limits, rate_limit, model_key}
use high_performance_llm_gat.RateLimit as RateLimit
use high_performance_llm_gat.RateLimit.Bucket.{allow_after_idle, new_rate_limiter-IsValid}
use high_performance_llm_gat.RateLimit.Admission.{rate_limit-verdict, model_admits, status_of}
use high_performance_llm_gat.Prelude.Dict.{lookup}
use high_performance_llm_gat.Errors.{http_status}
use high_performance_llm_gat.Errors.Mapping.{map_upstream_error, map_embedding_worker_error}
use high_performance_llm_gat.Errors.Laws.{
  map_upstream_error-relayed, map_embedding_worker_error-agrees,
}
use high_performance_llm_gat.Provider.{UpstreamError}
use high_performance_llm_gat.Worker.{WorkerError}

abbrev once_open : CircuitBreaker
once_open = record {
  failure_threshold = 2;
  open_timeout = 30;
  consecutive_failures = pos 2;
  opened_at = 100;
}

allow-fail_all_example :
    ((allow once_open 130).1 ≡ true)
    × ((allow (fail_all (131 ∷ []) (allow once_open 130).0) 132).1 ≡ true)
allow-fail_all_example =
    allow-fail_all once_open 130 132 (131 ∷ []) (omega arith) (omega arith) (omega arith)
      (omega arith)

abbrev fresh : CircuitBreaker
fresh = record {
  failure_threshold = 2;
  open_timeout = 30;
  consecutive_failures = pos 0;
  opened_at = 0;
}

fail_all-allow_example :
    (allow (fail_all (100 ∷ 90 ∷ []) fresh) 120).1
    ≡ not (length {A = ℕ} (90 ∷ []) + 1 == 2 && ltb 120 (100 + 30))
fail_all-allow_example =
    fail_all-allow 100 (90 ∷ []) fresh 120
      (record { no_failures = refl; closed = refl; in_range = omega arith }) (omega arith)
      (omega arith)

abbrev events : List Event
events = failed 100 ∷ allowed 95 ∷ failed 90 ∷ succeeded 80 ∷ failed 70 ∷ []

events-Timed : Timed events
events-Timed = (omega arith, (omega arith, (omega arith, (omega arith, (omega arith, tt)))))

refusal_needs_failures_example :
    (new_circuit_breaker (pos 2) (pos 30)).failure_threshold ≤ recent_failures events
unfolding ◌+ℤ◌
refusal_needs_failures_example =
    refusal_needs_failures events (pos 2) (pos 30) 120 events-Timed
      (unfold allow run step new_circuit_breaker record_failure record_success in refl)

allow_after_idle_example :
    (RateLimit.allow fixed (new_rate_limiter fixed (pos 10) (pos 2) 0) 100_000_000).1 ≡ true
unfolding new_rate_limiter scale
allow_after_idle_example =
    allow_after_idle fixed 10 (new_rate_limiter fixed (pos 10) (pos 2) 0) 100_000_000
      fixed-IsRounded (new_rate_limiter-IsValid fixed 10 2 0 fixed-IsRounded (omega arith)) refl
      (omega arith)

abbrev limits : Limits ℕ
limits = record {
  global_limiter = new_rate_limiter whole (pos 10) (pos 2) 0;
  model_limiters = ("gpt-4o", new_rate_limiter whole (pos 1) (pos 1) 0) ∷ [];
}

rate_limit-verdict_example :
    (status_of (rate_limit whole limits "gpt-4o" 5 6).1 ≡ (
      if model_admits whole (lookup (model_key "gpt-4o") limits.model_limiters) 5
        && (RateLimit.allow whole limits.global_limiter 6).1
      then none
      else some 429))
    × ((rate_limit whole limits "gpt-4o" 5 6).0.global_limiter ≡ (
        if model_admits whole (lookup (model_key "gpt-4o") limits.model_limiters) 5
        then (RateLimit.allow whole limits.global_limiter 6).0
        else limits.global_limiter))
rate_limit-verdict_example = rate_limit-verdict whole limits "gpt-4o" 5 6

abbrev gateway_timeout : UpstreamError
gateway_timeout = record {
  provider = "openai";
  model = "gpt-4o";
  status_code = 504;
  message = "slow";
  body = "";
  err = none;
}

abbrev worker_timeout : WorkerError
worker_timeout = record { status_code = 504; message = ""; err = none }

map_upstream_error-relayed_example : http_status (map_upstream_error (some gateway_timeout)) ≡ 503
map_upstream_error-relayed_example = map_upstream_error-relayed gateway_timeout

map_embedding_worker_error-agrees_example :
    http_status (map_embedding_worker_error (some worker_timeout)) ≡ 500
map_embedding_worker_error-agrees_example =
    map_embedding_worker_error-agrees worker_timeout gateway_timeout refl

-- The environment sets the password of Redis.
abbrev getenv : String → String
getenv name = if str_eq name "REDIS_PASSWORD" then "secret" else ""

abbrev spoken : ChatCompletionResponse
spoken = record {
  id = "1";
  object = "chat.completion";
  created = pos 7;
  model = "gpt-4o";
  choices =
      record {
        index = pos 0;
        message = record {
          role = "assistant";
          content = "a sentence of 28 characters.";
          name = "";
        };
        finish_reason = "stop";
      }
      ∷ [];
  usage = record { prompt_tokens = pos 3; completion_tokens = pos 4; total_tokens = pos 7 };
}

streaming_events_complete_example :
    (received (streaming_events spoken) ≡ content_of spoken.choices)
    × All IsSmall (streaming_events spoken)
    × EndsDone (streaming_events spoken)
unfolding high_performance_llm_gat.Prelude.Text.utf8
streaming_events_complete_example = streaming_events_complete spoken (omega arith)

validate_chat_request_iff_example :
    (validate_chat_request whole question ≡ none) ↔ IsValidRequest whole question
validate_chat_request_iff_example = validate_chat_request_iff whole question
