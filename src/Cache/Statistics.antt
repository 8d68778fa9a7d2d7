-- ===== src/Cache/Statistics.antt =====
-- internal/service/cache: the methods `Stats` of the two caches, with durations in nanoseconds.
use high_performance_llm_gat.Prelude.{
  ℕ, List, Bool, true, false, Option, none, some, length, if◌then◌else◌,
}
use high_performance_llm_gat.Prelude.Int.{ℤ}
use high_performance_llm_gat.Prelude.Text.{◌++ₛ◌}
use high_performance_llm_gat.Cache.{Reply, ok, fault, Redis}
use high_performance_llm_gat.Cache.L1.{L1Cache}
use high_performance_llm_gat.Cache.L2.{L2Cache}

-- A cache without a client does not tell its limits.
pub record Statistics : Type 0 where
  pub keys : ℕ
  pub enabled : Bool
  pub max_size : Option ℤ
  pub ttl : Option ℤ

abbrev disabled_stats : Statistics
disabled_stats = record { keys = 0; enabled = false; max_size = none; ttl = none }

abbrev enabled_stats : ℤ → ℤ → Reply ℕ → Reply Statistics
enabled_stats max_size ttl (fault e) = fault e
enabled_stats max_size ttl (ok keys) =
    ok (record { keys = keys; enabled = true; max_size = some max_size; ttl = some ttl })

abbrev counted : {A : Type 0} → Reply (List A) → Reply ℕ
counted (fault e) = fault e
counted (ok l) = ok (length l)

module _ {R : Type 0} (redis : Redis R) where
  -- `Stats` of the exact cache.
  unfoldable pub l1_stats : L1Cache → R → Reply Statistics × R
  l1_stats c r =
      let (count, r') = redis.hlen c.key_prefix r in
      if c.client then (enabled_stats c.max_size c.ttl count, r') else (ok disabled_stats, r)

  -- `Stats` of the semantic cache, whose threshold is left out.
  unfoldable pub l2_stats : {F : Type 0} → L2Cache F → R → Reply Statistics × R
  l2_stats c r =
      let (keys, r') = redis.keys (c.key_prefix ++ₛ ":*") r in
      if c.client
      then (enabled_stats c.max_size c.ttl (counted keys), r')
      else (ok disabled_stats, r)
