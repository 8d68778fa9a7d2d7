-- ===== src/Server.antt =====
-- cmd/server/main.go: the start of the server, and the chain of handlers of a chat request. The
-- logger, the telemetry and the shutdown are left out.
pub mod Startup
pub mod Guarded
pub mod Requests
pub mod Embeddings
use text.Mathlib.Text.{◌==◌ as str_eq}
use mathlib.Core.Bool.{not, ◌||◌}
use high_performance_llm_gat.Prelude.{
  ℕ, String, List, Option, none, some, Bool, true, false, ◌⊎◌, inl, inr, if◌then◌else◌,
}
use high_performance_llm_gat.Prelude.Int.{ℤ, pos}
use high_performance_llm_gat.Cache.{Reply, ok, fault, Redis}
use high_performance_llm_gat.Cache.L1 as L1
use high_performance_llm_gat.Cache.L1.{L1Cache, new_l1_cache}
use high_performance_llm_gat.Cache.L2.{L2Cache, new_l2_cache}
use high_performance_llm_gat.Registry.{Registry, System, new_registry}
use high_performance_llm_gat.Provider.Http.{
  Http, http_chat_completion, new_openai_provider, new_anthropic_provider, new_minimax_provider,
}
use high_performance_llm_gat.Config.{Config, CacheConfig, DatabaseConfig}
use high_performance_llm_gat.Errors.{GatewayError}
use high_performance_llm_gat.Storage.{Postgres, ensure_request_log_schema}
use high_performance_llm_gat.Storage.Connect.{Dial, new_redis, new_postgres}
use high_performance_llm_gat.Workflow.{Outside}
use high_performance_llm_gat.Recording.{Records}
use high_performance_llm_gat.RateLimit as RateLimit
use high_performance_llm_gat.RateLimit.{Limits, ModelSource, extract_model, rate_limit}
use high_performance_llm_gat.Auth as Auth
use high_performance_llm_gat.Auth.{KeyMetadata, api_key_auth}
use high_performance_llm_gat.Worker.{Client, Transport}
use high_performance_llm_gat.Embedding as Embedding
use high_performance_llm_gat.Embedding.{embedding_handler}
use high_performance_llm_gat.Chat.{extract_workflow_request_context}
use high_performance_llm_gat.Chat.Caching.{Env}
use high_performance_llm_gat.Chat.Handler.{State, HttpReply, Bound}
use high_performance_llm_gat.Chat.Recording.{chat_endpoint}

-- The mode that the flag `-mode` sets.
unfoldable pub with_mode : {F : Type 0} → String → Config F → Config F
with_mode mode cfg =
    if str_eq mode "debug" || str_eq mode "release"
    then record cfg { server = record (cfg.server) { mode = mode } }
    else cfg

-- The connections that `initStorage` returns, or the end of the process.
pub record Connections (F W : Type 0) : Type 0 where
  pub redis : Option (Redis W)
  pub postgres : Option (Postgres F W)

pub data Started (F W : Type 0) : Type 0 where
  running : Connections F W → W → Started F W
  exited : Started F W

abbrev pub is_debug : {F : Type 0} → Config F → Bool
is_debug cfg = str_eq cfg.server.mode "debug"

module _ {F W : Type 0} where
  -- What follows the creation of the schema of the request log.
  abbrev pub after_schema : Bool → Option (Redis W) → Postgres F W → Option String × W → Started F W
  after_schema debug redis p (none, w) = running (record { redis = redis; postgres = some p }) w
  after_schema debug redis p (some e, w) =
      if debug then running (record { redis = redis; postgres = some p }) w else exited

  abbrev pub after_postgres : Bool → Option (Redis W) → Reply (Postgres F W) × W → Started F W
  after_postgres debug redis (fault e, w) =
      if debug then running (record { redis = redis; postgres = none }) w else exited
  after_postgres debug redis (ok p, w) =
      after_schema debug redis p (ensure_request_log_schema (some p) w)

  -- What follows the attempt to connect to Redis.
  unfoldable pub after_redis : Dial F W → Bool → DatabaseConfig → Reply (Redis W) × W → Started F W
  unfolding new_postgres ensure_request_log_schema
  after_redis dial debug cfg (ok redis, w) =
      after_postgres debug (some redis) (new_postgres dial cfg w)
  after_redis dial debug cfg (fault e, w) =
      let s = after_postgres debug none (new_postgres dial cfg w) in if debug then s else exited

  unfoldable pub init_storage : Dial F W → Config F → W → Started F W
  unfolding new_redis after_redis
  init_storage dial cfg w =
      after_redis dial (is_debug cfg) cfg.database (new_redis dial cfg.redis w)

  unfoldable pub init_caches :
      Option (Redis W) → CacheConfig F → Option L1Cache × Option (L2Cache F)
  unfolding new_l1_cache new_l2_cache
  init_caches none cfg = (none, none)
  init_caches (some redis) cfg = if not cfg.enabled then (none, none) else (
    some (
        new_l1_cache true (record {
          enabled = cfg.enabled;
          ttl = cfg.l1_ttl;
          max_size = cfg.max_cache_size;
          key_prefix = "cache:l1";
        })),
    some (
        new_l2_cache true (record {
          enabled = cfg.enabled;
          similarity_threshold = cfg.similarity_threshold;
          ttl = cfg.ttl;
          max_size = cfg.max_cache_size;
          key_prefix = "cache:l2";
          vector_dim = pos 384;
        })),
  )

-- The registry of `NewRegistry`, with its clients over HTTP.
unfoldable pub registry_of : {F W : Type 0} → System W → Http F W → Config F → Registry F W
unfolding new_registry http_chat_completion new_openai_provider new_anthropic_provider
    new_minimax_provider
registry_of sys http cfg =
    new_registry sys (http_chat_completion http (new_openai_provider cfg.providers.openai))
      (http_chat_completion http (new_anthropic_provider cfg.providers.anthropic))
      (http_chat_completion http (new_minimax_provider cfg.providers.minimax)) cfg.models

-- A request of /v1/chat/completions, and the two times at which its limiters read the clock.
pub record HttpRequest : Type 0 where
  pub authorization : String
  pub header : String → String
  pub source : ModelSource
  pub model_time : ℕ
  pub global_time : ℕ

-- What requests of the route change.
pub record Gateway (F W : Type 0) : Type 0 where
  pub limits : Limits F
  pub state : State F W
  pub records : Records F

-- How the chain of handlers ends.
pub data Ending : Type 0 where
  unauthorized : GatewayError → Ending
  limited : GatewayError → Ending
  served : HttpReply → Ending

abbrev pub is_some {ℓ} : {A : Type ℓ} → Option A → Bool
is_some none = false
is_some (some a) = true

-- `c.Get("api_key_id")`, the empty text if it is not set.
abbrev pub key_id : Option KeyMetadata → String
key_id none = ""
key_id (some k) = k.id

-- The libraries of the route: SHA-256 in hexadecimal, HGETALL, json.Unmarshal into the field `model`
-- and `ShouldBindJSON` on a body.
pub record Libraries {F W : Type 0} (env : Env F W) : Type 0 where
  pub hash : String → String
  pub hgetall : String → W → Reply (List (String × String)) × W
  pub decode_model : String → Option String
  pub bind : Option (Option String) → Bound env

module _ {F W : Type 0} (env : Env F W) (lib : Libraries env) (out : Outside F W)
    (c : Connections F W) where
  -- What follows the rate limits.
  unfoldable pub after_limits :
      HttpRequest
      → Option KeyMetadata
      → Bound env
      → Gateway F W
      → Limits F × RateLimit.Verdict
      → Ending × Gateway F W
  unfolding chat_endpoint extract_workflow_request_context
  after_limits req key b g (limits, RateLimit.reject e) = (limited e, record g { limits = limits })
  after_limits req key b g (limits, RateLimit.pass) =
      let meta = extract_workflow_request_context req.header in
      let a = chat_endpoint env out c.postgres meta (key_id key) b g.state g.records in
      (served a.reply, record { limits = limits; state = a.state; records = a.records })

  -- What follows the check of the API key.
  unfoldable pub after_auth : HttpRequest → Gateway F W → Auth.Verdict × W → Ending × Gateway F W
  unfolding after_limits rate_limit extract_model
  after_auth req g (Auth.rejected e, w) =
      (unauthorized e, record g { state = record (g.state) { world = w } })
  after_auth req g (Auth.passed key, w) =
      let (model, body) = extract_model lib.decode_model req.source in
      after_limits req key (lib.bind body) (record g { state = record (g.state) { world = w } })
        (rate_limit env.float g.limits model req.model_time req.global_time)

  -- The handlers of /v1/chat/completions: APIKeyAuth, RateLimit and ChatCompletion.
  unfoldable pub chat_route : HttpRequest → Gateway F W → Ending × Gateway F W
  unfolding api_key_auth after_auth
  chat_route req g =
      after_auth req g
        (api_key_auth lib.hash lib.hgetall (is_some c.redis) req.authorization g.state.world)

-- The handlers of /v1/embeddings: APIKeyAuth and EmbeddingHandler.
module _ {F I W : Type 0} (sys : System W) (t : Transport F I W) (out : Outside F W)
    (c : Connections F W) (hash : String → String)
    (hgetall : String → W → Reply (List (String × String)) × W) where
  abbrev pub after_embedding_auth :
      Option Client
      → (String → String)
      → Embedding.Bound I
      → Records F
      → Auth.Verdict × W
      → (GatewayError ⊎ Embedding.EmbeddingReply F) × Records F × W
  after_embedding_auth worker header b r (Auth.rejected e, w) = (inl e, r, w)
  after_embedding_auth worker header b r (Auth.passed key, w) =
      let a =
        embedding_handler sys t out c.postgres worker (extract_workflow_request_context header)
          (key_id key) b r w in
      (inr a.reply, a.records, a.world)

  -- A request with its headers and its body, which is read by `ShouldBindJSON`.
  unfoldable pub embedding_route :
      Option Client
      → (String → String)
      → Embedding.Bound I
      → Records F
      → W
      → (GatewayError ⊎ Embedding.EmbeddingReply F) × Records F × W
  unfolding api_key_auth embedding_handler extract_workflow_request_context
  embedding_route worker header b r w =
      after_embedding_auth worker header b r
        (api_key_auth hash hgetall (is_some c.redis) (header "Authorization") w)
