-- ===== src/Stats.antt =====
-- internal/service/stats.go: the usage statistics in memory. Record runs under the mutex, as one
-- step on the record.
pub mod Laws
pub mod Mean
pub mod Order
use text.Mathlib.Text.{◌==◌ as str_eq}
use high_performance_llm_gat.Prelude.{
  String, List, [], ◌∷◌, Option, none, some, Bool, true, false, ◌/◌, suc, if◌then◌else◌,
}
use high_performance_llm_gat.Prelude.Int.{ℤ, pos, negsuc, sub_ℕ, ltb_ℤ, ◌+ℤ◌}
use high_performance_llm_gat.Prelude.Dict.{lookup, insert}
use high_performance_llm_gat.Prelude.Float.{Float}
use high_performance_llm_gat.Prelude.Tally.{add_if}
use high_performance_llm_gat.Workflow.Summary.{is_error}

-- `Milliseconds` of a duration, which is in nanoseconds; the division rounds toward zero.
abbrev pub milliseconds : ℤ → ℤ
milliseconds (pos n) = pos (n / 1_000_000)
milliseconds (negsuc n) = sub_ℕ 0 (suc n / 1_000_000)

pub record RequestMetric : Type 0 where
  pub endpoint : String
  pub model : String
  pub status_code : ℤ
  pub latency : ℤ
  pub cache_hit : Bool
  pub total_tokens : ℤ

pub record ModelUsage (F : Type 0) : Type 0 where
  pub requests : ℤ
  pub errors : ℤ
  pub total_tokens : ℤ
  pub avg_latency_ms : F
  pub last_status : ℤ
  pub last_updated_at : String

pub record UsageSnapshot (F : Type 0) : Type 0 where
  pub total_requests : ℤ
  pub total_tokens : ℤ
  pub total_cost : F
  pub cache_hit_rate : F
  pub models : List (String × ModelUsage F)

pub record UsageStats (F : Type 0) : Type 0 where
  pub total_requests : ℤ
  pub total_tokens : ℤ
  pub cache_hits : ℤ
  pub models : List (String × ModelUsage F)

unfoldable pub new_usage_stats : {F : Type 0} → UsageStats F
new_usage_stats = record {
  total_requests = pos 0;
  total_tokens = pos 0;
  cache_hits = pos 0;
  models = [];
}

abbrev is_one : ℤ → Bool
is_one n = if ltb_ℤ n (pos 1) then false else if ltb_ℤ (pos 1) n then false else true

abbrev pub model_or_unknown : String → String
model_or_unknown model = if str_eq model "" then "unknown" else model

module _ {F : Type 0} (fl : Float F) where
  abbrev pub zero_usage : ModelUsage F
  zero_usage = record {
    requests = pos 0;
    errors = pos 0;
    total_tokens = pos 0;
    avg_latency_ms = fl.zero;
    last_status = pos 0;
    last_updated_at = "";
  }

  abbrev pub usage_or_zero : Option (ModelUsage F) → ModelUsage F
  usage_or_zero none = zero_usage
  usage_or_zero (some u) = u

  -- The average with one latency more, given the number of requests that includes it.
  unfoldable pub next_average : F → ℤ → F → F
  next_average average requests latency =
      if is_one requests
      then latency
      else fl.div (fl.add (fl.mul average (fl.of_int (requests +ℤ negsuc 0))) latency)
          (fl.of_int requests)

  unfoldable pub add_usage : RequestMetric → String → ModelUsage F → ModelUsage F
  unfolding next_average
  add_usage m timestamp u =
      let requests = u.requests +ℤ pos 1 in
      record {
        requests = requests;
        errors = add_if (is_error m.status_code) (pos 1) u.errors;
        total_tokens = add_if (ltb_ℤ (pos 0) m.total_tokens) m.total_tokens u.total_tokens;
        avg_latency_ms =
            next_average u.avg_latency_ms requests (fl.of_int (milliseconds m.latency));
        last_status = m.status_code;
        last_updated_at = timestamp;
      }

  -- `Record`, with the clock's time in RFC 3339.
  unfoldable pub record_metric : String → RequestMetric → UsageStats F → UsageStats F
  unfolding add_usage
  record_metric timestamp m s =
      let model = model_or_unknown m.model in
      record {
        total_requests = s.total_requests +ℤ pos 1;
        total_tokens = add_if (ltb_ℤ (pos 0) m.total_tokens) m.total_tokens s.total_tokens;
        cache_hits = add_if m.cache_hit (pos 1) s.cache_hits;
        models =
            insert model (add_usage m timestamp (usage_or_zero (lookup model s.models))) s.models;
      }

  -- `Snapshot`
  unfoldable pub snapshot : UsageStats F → UsageSnapshot F
  snapshot s = record {
    total_requests = s.total_requests;
    total_tokens = s.total_tokens;
    total_cost = fl.zero;
    cache_hit_rate =
        if ltb_ℤ (pos 0) s.total_requests
        then fl.div (fl.of_int s.cache_hits) (fl.of_int s.total_requests)
        else fl.zero;
    models = s.models;
  }
