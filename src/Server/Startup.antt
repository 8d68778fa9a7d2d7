-- ===== src/Server/Startup.antt =====
-- main.go: what the server starts with in each mode.
use high_performance_llm_gat.Prelude.{String, Option, none, some, Bool, true, false, ◌≢◌, arith}
use high_performance_llm_gat.Cache.{Reply, ok, fault, Redis}
use high_performance_llm_gat.Config.{Config, DatabaseConfig}
use high_performance_llm_gat.Storage.{Postgres}
use high_performance_llm_gat.Storage.Connect.{Dial, new_postgres}
use high_performance_llm_gat.Server.{
  Started, running, exited, is_debug, after_schema, after_postgres, after_redis, init_storage,
}

-- A server in another mode than debug that goes on has a connection to Redis.
abbrev Given : {W : Type 0} → Bool → Option (Redis W) → Type 0
Given true redis = Unit
Given false redis = redis ≢ none

module _ {F W : Type 0} where
  -- A server in debug mode has not exited, and one in another mode has both connections if it runs.
  abbrev pub Respects : Bool → Started F W → Type 0
  Respects true exited = ⊥
  Respects true (running c w) = Unit
  Respects false exited = Unit
  Respects false (running c w) = (c.redis ≢ none) × (c.postgres ≢ none)

  after_schema-Respects :
      (debug : Bool) (redis : Option (Redis W)) (p : Postgres F W) (r : Option String × W)
      → Given debug redis
      → Respects debug (after_schema debug redis p r)
  after_schema-Respects true redis p (none, w) g = tt
  after_schema-Respects true redis p (some e, w) g = tt
  after_schema-Respects false redis p (none, w) g = (g, ground arith)
  after_schema-Respects false redis p (some e, w) g = tt

  after_postgres-Respects :
      (debug : Bool) (redis : Option (Redis W)) (r : Reply (Postgres F W) × W)
      → Given debug redis
      → Respects debug (after_postgres debug redis r)
  after_postgres-Respects true redis (fault e, w) g = tt
  after_postgres-Respects false redis (fault e, w) g = tt
  after_postgres-Respects debug redis (ok p, w) g = after_schema-Respects debug redis p _ g

  after_redis-Respects :
      (dial : Dial F W) (debug : Bool) (cfg : DatabaseConfig) (r : Reply (Redis W) × W)
      → Respects debug (after_redis dial debug cfg r)
  unfolding after_redis
  after_redis-Respects dial true cfg (ok redis, w) =
      after_postgres-Respects true (some redis) (new_postgres dial cfg w) tt
  after_redis-Respects dial true cfg (fault e, w) =
      after_postgres-Respects true none (new_postgres dial cfg w) tt
  after_redis-Respects dial false cfg (ok redis, w) =
      after_postgres-Respects false (some redis) (new_postgres dial cfg w) (ground arith)
  after_redis-Respects dial false cfg (fault e, w) = tt

  -- Whatever the connections give, a server whose mode is debug does not exit in `initStorage`, and
  -- one of another mode has both clients if it does not exit.
  pub init_storage-Respects :
      (dial : Dial F W) (cfg : Config F) (w : W) → Respects (is_debug cfg) (init_storage dial cfg w)
  unfolding init_storage
  init_storage-Respects dial cfg w = after_redis-Respects dial (is_debug cfg) cfg.database _
