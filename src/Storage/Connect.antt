-- ===== src/Storage/Connect.antt =====
-- internal/storage: NewRedis and NewPostgres, which open the two connections, and
-- the Redis wrapper (redis.go).
use high_performance_llm_gat.Prelude.{ℕ, suc, String, List, Option, none, some, Bool, false, ltb}
use high_performance_llm_gat.Prelude.Int.{ℤ, pos, negsuc}
use high_performance_llm_gat.Prelude.Text.{show, ◌++ₛ◌}
use high_performance_llm_gat.Cache.{Reply, ok, fault, Redis}
use high_performance_llm_gat.Config.{DatabaseConfig, RedisConfig}
use high_performance_llm_gat.Storage.{Postgres}

-- What the two constructors use of go-redis and database/sql; a ping gives its error, if there is
-- one.
pub record Dial (F W : Type 0) : Type 0 where
  pub redis_client : RedisConfig → Redis W
  pub redis_ping : RedisConfig → W → Option String × W
  pub sql_open : String → Reply (Postgres F W)
  pub sql_ping : String → W → Option String × W

-- `%d` of an integer
unfoldable pub show_int : ℤ → String
unfolding show
show_int (pos n) = show n
show_int (negsuc n) = "-" ++ₛ show (suc n)

-- The text that `NewPostgres` builds.
unfoldable pub dsn : DatabaseConfig → String
unfolding show_int
dsn cfg =
    "host="
    ++ₛ (cfg.host
        ++ₛ (" port="
            ++ₛ (show_int cfg.port
                ++ₛ (" user="
                    ++ₛ (cfg.user
                        ++ₛ (" password="
                            ++ₛ (cfg.password
                                ++ₛ (" dbname=" ++ₛ (cfg.db_name ++ₛ " sslmode=disable")))))))))

module _ {F W : Type 0} (dial : Dial F W) where
  unfoldable pub new_redis : RedisConfig → W → Reply (Redis W) × W
  new_redis cfg w =
      let (e, w') = dial.redis_ping cfg w in
      elim e [
        | none ↦ (ok (dial.redis_client cfg), w')
        | some err ↦ (fault ("failed to connect to Redis: " ++ₛ err), w')
      ]

  abbrev pinged : Postgres F W → Option String × W → Reply (Postgres F W) × W
  pinged db (none, w) = (ok db, w)
  pinged db (some e, w) = (fault ("failed to connect to database: " ++ₛ e), w)

  unfoldable pub new_postgres : DatabaseConfig → W → Reply (Postgres F W) × W
  unfolding dsn
  new_postgres cfg w = elim (dial.sql_open (dsn cfg)) [
    | fault e ↦ (fault ("failed to open database: " ++ₛ e), w)
    | ok db ↦ pinged db (dial.sql_ping (dsn cfg) w)
  ]

module _ {W : Type 0} (redis : Redis W) where
  -- `Set` and `SetWithTTL` both pass the expiry 0, which is none.
  unfoldable pub set : String → String → ℤ → W → Option String × W
  set key value ttl w = redis.set key value (pos 0) w

  unfoldable pub set_with_ttl : String → String → ℤ → W → Option String × W
  set_with_ttl key value ttl w = redis.set key value (pos 0) w

  -- The methods that hand their arguments on; a missing key or field is the reply none.
  unfoldable pub get : String → W → Reply (Option String) × W
  get key w = redis.get key w

  unfoldable pub hget : String → String → W → Reply (Option String) × W
  hget key field w = redis.hget key field w

  unfoldable pub hset : String → String → String → W → Option String × W
  hset key field value w = redis.hset key field value w

  unfoldable pub del : List String → W → Option String × W
  del keys w = redis.del keys w

-- `Exists`, given the number that EXISTS counts or its error. The count of an error is 0.
unfoldable pub exists :
    {W : Type 0} → (String → W → Reply ℕ × W) → String → W → (Bool × Option String) × W
exists count key w =
    let (r, w') = count key w in (elim r [ ok n ↦ (ltb 0 n, none) | fault e ↦ (false, some e) ], w')
