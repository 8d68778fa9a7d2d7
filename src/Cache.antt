-- ===== src/Cache.antt =====
-- internal/service/cache: the exact cache (l1.go) and the semantic cache (l2.go), both on Redis.
pub mod L1
pub mod L1Laws
pub mod L2
pub mod L2Laws
pub mod L2Evict
pub mod Statistics
use high_performance_llm_gat.Prelude.{ℕ, String, List, Option, Bool, none, some}
use high_performance_llm_gat.Prelude.Int.{ℤ}

-- The result of a Redis command: a reply or an error.
pub data Reply (A : Type 0) : Type 0 where
  ok : A → Reply A
  fault : String → Reply A

-- The commands that the caches send; `R` is the state of Redis. A missing key or field, redis.Nil,
-- is the reply none. The result of a command with no reply is its error, if there is one.
pub record Redis (R : Type 0) : Type 0 where
  pub hget : String → String → R → Reply (Option String) × R
  pub hset : String → String → String → R → Option String × R
  pub hdel : String → String → R → Option String × R
  pub hlen : String → R → Reply ℕ × R
  pub hkeys : String → R → Reply (List String) × R
  pub expire : String → ℤ → R → Option String × R
  pub del : List String → R → Option String × R
  pub keys : String → R → Reply (List String) × R
  pub get : String → R → Reply (Option String) × R
  pub set : String → String → ℤ → R → Option String × R
