-- ===== src/Lib.antt =====
-- A high-performance gateway for large language models: a model of the Go services of this
-- repository, and what is proved of them.
--
-- A chat request passes authentication and the rate limiter, is validated, looked up in the exact
-- cache and then in the semantic cache, and otherwise handed to the provider registry, which tries
-- the routes of the model and of its fallback models behind circuit breakers, over HTTP; the answer
-- goes into both caches and out as JSON or as a stream, and what was answered goes into the
-- statistics, the request log and the tracer of workflows. The files and the code that they model:
--
--   Errors: pkg/errors/errors.go. A gateway error is a record; writing it is the handler's answer.
--   Errors/Mapping: mapUpstreamError of internal/handler/chat.go and mapEmbeddingWorkerError of
--     internal/handler/embedding.go.
--   Provider: internal/service/provider/types.go. A Go pair of response and error is an `Outcome`.
--   Breaker: internal/service/circuitbreaker.go. The methods run under a mutex and are functions on
--     the record; `Breaker/Trace` runs them in any order.
--   Registry, Registry/Order, Registry/Route: internal/service/provider/registry.go. NewRegistry is
--     `new_registry`, resolveModelChain `resolve_model_chain`, weightedOrder `weighted_order`,
--     buildRouteQueue `build_route_queue`, and (*Registry).ChatCompletion `chat_completion`. The
--     breakers are looked up by key and put back after each step, as the code shares them by pointer.
--   Provider/Http: internal/service/provider/http_provider.go, and the constructors of openai.go,
--     anthropic.go and minimax.go beside it. `http_chat_completion` is a client of the registry; JSON
--     and the HTTP exchange are an `Http`.
--   RateLimit: internal/middleware/ratelimit.go. Tokens are of type float64, a parameter whose laws
--     hold with its rounding; times are in nanoseconds.
--   Auth: APIKeyAuth of internal/middleware/auth.go; SHA-256 and HGETALL are parameters. Auth/Cors:
--     CORS of the same file.
--   Workflow, Workflow/Summary, Workflow/Tracer: internal/service/workflow.go. Record, GetSummary
--     and ListSummaries are `record_trace`, `get_summary` and `list_summaries`; a tracer is a record, and
--     clock, random bytes and files are an `Outside`. Workflow/Refines compares what is kept with the
--     list of all traces.
--   Stats: internal/service/stats.go. Record and Snapshot are `record_metric` and `snapshot`.
--   Storage: internal/storage/postgres.go. The database is a record of what it answers to the
--     queries of the source. Storage/Connect: NewRedis and NewPostgres, and the wrapper of
--     internal/storage/redis.go.
--   Recording: persistRequestLog of internal/handler/request_log.go, and the calls that both
--     endpoints make for a request that is answered.
--   Embedding: EmbeddingHandler of internal/handler/embedding.go, with its deferred function.
--   Admin: internal/handler/admin.go. An answer is the value that is written as JSON.
--   Telemetry: Init of internal/telemetry/otel.go up to the exporter, and the spans of
--     internal/middleware/tracing.go.
--   Logging: Init of internal/middleware/logging.go.
--   Server: cmd/server/main.go. `init_storage`, `init_caches`, the registry with its clients
--     over HTTP, and the handlers of /v1/chat/completions in their order, `chat_route`, and those of
--     /v1/embeddings, `embedding_route`.
--   LoadTest: scripts/loadtest/main.go, the summing up of the results.
--   Cache: the Redis commands that the caches send, as a record of functions on a state.
--   Cache/L1: internal/service/cache/l1.go, and Cache/L2: internal/service/cache/l2.go. Get, Set,
--     Search, Store and evictIfNeeded are `get`, `set`, `search`, `store` and `evict_if_needed`; a
--     panic of Store is the result `panicked`. Numbers of type float64 are a parameter (Prelude/Float).
--   Worker: internal/service/embeddingworker/client.go. HTTP, JSON and timers are a `Transport`.
--   Chat and its modules: internal/handler/chat.go. Chat/Caching has the lookups and the stores,
--     Chat/Handler the handler: a function from a request and a `State` to the answer, the variables
--     that the deferred function records and the next `State`. Chat/Recording adds that function.
--     Chat/Stream has the events of a stream, and Prelude/Utf8 what encoding/json makes of bytes that
--     are no UTF-8.
--   Cache/Statistics: the methods Stats of both caches.
--   Config: internal/config/config.go.
--   Prelude and its modules: tests on numbers, lists, Go's int with its wrap-around, texts, maps.
--   Tests: the theorems at concrete inputs.
--
-- Fuel: `chain_from` is given the number of fallback entries plus 2, since each round but the last
-- two sees a model that has a fallback and was not seen before; `order_from` runs once for each
-- candidate; `chunks_from` once for each byte; `retry` runs on the attempts that are left.
--
-- Not modelled: the log lines and the spans, which are output through libraries; Redis and
-- PostgreSQL themselves, so that the SQL of the source is not interpreted; the signals and the
-- goroutines of the server, and the sending of requests by the load test. A request runs alone:
-- requests that interleave within the chat handler are not modelled; each call of Record on the
-- statistics is one step, and Stats/Order compares the orders of such steps.
pub mod Prelude
pub mod Errors
pub mod Provider
pub mod Worker
pub mod Breaker
pub mod Config
pub mod Registry
pub mod RateLimit
pub mod Cache
pub mod Auth
pub mod Workflow
pub mod Stats
pub mod Storage
pub mod Recording
pub mod Chat
pub mod Embedding
pub mod Admin
pub mod Telemetry
pub mod Logging
pub mod LoadTest
pub mod Server
pub mod Tests
