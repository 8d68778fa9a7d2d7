-- ===== src/Config.antt =====
-- internal/config/config.go: the configuration, and the environment variables that override it.
-- Floating-point numbers are of a type `F` that the development takes as a parameter, and a
-- `time.Duration` is a number of nanoseconds.
pub mod Laws
use text.Mathlib.Text.{◌==◌ as str_eq}
use mathlib.Core.Bool.{not}
use high_performance_llm_gat.Prelude.{String, List, Option, Bool, if◌then◌else◌}
use high_performance_llm_gat.Prelude.Int.{ℤ}
use high_performance_llm_gat.Prelude.Text.{◌++ₛ◌}
use high_performance_llm_gat.Cache.{Reply, ok, fault}

pub record ServerConfig : Type 0 where
  pub host : String
  pub port : ℤ
  pub mode : String

pub record LoggerConfig : Type 0 where
  pub level : String
  pub format : String
  pub output_path : String

pub record DatabaseConfig : Type 0 where
  pub host : String
  pub port : ℤ
  pub user : String
  pub password : String
  pub db_name : String

pub record RedisConfig : Type 0 where
  pub address : String
  pub password : String
  pub db : ℤ

pub record PythonWorkerConfig : Type 0 where
  pub address : String
  pub timeout : ℤ
  pub retry_max : ℤ
  pub retry_backoff : ℤ
  pub health_ttl : ℤ

pub record ProviderConfig : Type 0 where
  pub api_key : String
  pub base_url : String

pub record ProvidersConfig : Type 0 where
  pub openai : ProviderConfig
  pub anthropic : ProviderConfig
  pub minimax : ProviderConfig

pub record CacheConfig (F : Type 0) : Type 0 where
  pub enabled : Bool
  pub similarity_threshold : F
  pub ttl : ℤ
  pub l1_ttl : ℤ
  pub max_cache_size : ℤ

-- The map of model limits is given by its entries, the key of each entry once.
pub record RateLimitConfig : Type 0 where
  pub global_qps : ℤ
  pub burst : ℤ
  pub max_tokens : ℤ
  pub model_limits : List (String × ℤ)

pub record ModelConfig : Type 0 where
  pub name : String
  pub provider : String
  pub weight : ℤ
  pub fallback : String
  pub max_context : ℤ
  pub tokenizer : String
  pub is_active : Bool

-- `none` stands for a nil map.
pub record WorkflowConfig : Type 0 where
  pub replay_log_path : String
  pub route_policies : Option (List (String × String))

pub record PrometheusConfig : Type 0 where
  pub enabled : Bool
  pub port : ℤ

pub record JaegerConfig : Type 0 where
  pub enabled : Bool
  pub endpoint : String

pub record OtlpConfig : Type 0 where
  pub enabled : Bool
  pub endpoint : String
  pub insecure : Bool

pub record MonitoringConfig : Type 0 where
  pub prometheus : PrometheusConfig
  pub jaeger : JaegerConfig
  pub otlp : OtlpConfig

pub record Config (F : Type 0) : Type 0 where
  pub server : ServerConfig
  pub logger : LoggerConfig
  pub database : DatabaseConfig
  pub redis : RedisConfig
  pub python_worker : PythonWorkerConfig
  pub providers : ProvidersConfig
  pub cache : CacheConfig F
  pub rate_limit : RateLimitConfig
  pub models : List ModelConfig
  pub workflow : WorkflowConfig
  pub monitoring : MonitoringConfig

-- `if v := os.Getenv(name); v != "" { field = v }`
unfoldable pub override : (String → String) → String → String → String
override env name field = let v = env name in if not (str_eq v "") then v else field

-- `env` is `os.Getenv`: the empty text for a variable that is not set.
unfoldable pub apply_env_overrides : {F : Type 0} → (String → String) → Config F → Config F
unfolding override
apply_env_overrides env c =
    let database = record (c.database) {
      password = override env "DB_PASSWORD" c.database.password;
    } in
    let redis = record (c.redis) { password = override env "REDIS_PASSWORD" c.redis.password } in
    let openai = record (c.providers.openai) {
      api_key = override env "OPENAI_API_KEY" c.providers.openai.api_key;
    } in
    let anthropic = record (c.providers.anthropic) {
      api_key = override env "ANTHROPIC_API_KEY" c.providers.anthropic.api_key;
    } in
    let minimax = record (c.providers.minimax) {
      api_key = override env "MINIMAX_API_KEY" c.providers.minimax.api_key;
    } in
    let worker = record (c.python_worker) {
      address = override env "PYTHON_WORKER_URL" c.python_worker.address;
    } in
    let workflow = record (c.workflow) {
      replay_log_path = override env "WORKFLOW_REPLAY_LOG_PATH" c.workflow.replay_log_path;
    } in
    record c {
      database = database;
      redis = redis;
      providers = record { openai = openai; anthropic = anthropic; minimax = minimax };
      python_worker = worker;
      workflow = workflow;
    }

abbrev parsed : {F : Type 0} → (String → String) → Reply (Config F) → Reply (Config F)
parsed env (fault e) = fault ("failed to parse config file: " ++ₛ e)
parsed env (ok c) = ok (apply_env_overrides env c)

-- `Load`; `read_file` is `os.ReadFile` and `unmarshal` is `yaml.Unmarshal` into an empty
-- configuration.
unfoldable pub load :
    {F : Type 0}
    → (String → Reply String)
    → (String → Reply (Config F))
    → (String → String)
    → String
    → Reply (Config F)
unfolding apply_env_overrides
load read_file unmarshal env path = elim (read_file path) [
  | fault e ↦ fault ("failed to read config file: " ++ₛ e)
  | ok text ↦ parsed env (unmarshal text)
]
