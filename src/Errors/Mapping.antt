-- ===== src/Errors/Mapping.antt =====
-- The handlers' translations of upstream failures into gateway errors: mapUpstreamError of
-- internal/handler/chat.go and mapEmbeddingWorkerError of internal/handler/embedding.go.
use text.Mathlib.Text.{◌==◌ as str_eq}
use mathlib.Core.Bool.{not}
use high_performance_llm_gat.Prelude.{ℕ, String, Option, none, some, leb, ◌==◌, if◌then◌else◌}
use high_performance_llm_gat.Prelude.Text.{to_lower, contains_text}
use high_performance_llm_gat.Provider.{UpstreamError}
use high_performance_llm_gat.Worker.{WorkerError}
use high_performance_llm_gat.Errors.{
  GatewayError, bad_request_error, invalid_api_key_error, key_disabled_error,
  rate_limit_exceeded_error, bad_gateway_error, circuit_open_error, model_overloaded_error,
  service_unavailable_error, provider_failure, internal_server_error,
}

abbrev message_or : String → String → String
message_or default m = if not (str_eq m "") then m else default

-- The `switch` of mapUpstreamError and what follows it, for an error that is not nil.
unfoldable pub map_status : ℕ → String → GatewayError
unfolding bad_request_error invalid_api_key_error key_disabled_error rate_limit_exceeded_error
    bad_gateway_error circuit_open_error model_overloaded_error service_unavailable_error
    provider_failure internal_server_error
map_status status message =
    if status == 400
    then bad_request_error message
    else if status == 401
    then invalid_api_key_error message
    else if status == 403
    then key_disabled_error message
    else if status == 429
    then rate_limit_exceeded_error message
    else if status == 502
    then bad_gateway_error message
    else if status == 503
    then if contains_text (to_lower message) "circuit-open"
      then circuit_open_error message
      else model_overloaded_error message
    else if status == 504
    then service_unavailable_error message
    else if leb 500 status
    then provider_failure message
    else internal_server_error message

unfoldable pub map_upstream_error : Option UpstreamError → GatewayError
unfolding map_status provider_failure
map_upstream_error none = provider_failure "upstream provider error"
map_upstream_error (some e) =
    map_status e.status_code (message_or "upstream provider error" e.message)

unfoldable pub map_worker_status : ℕ → String → GatewayError
unfolding bad_request_error invalid_api_key_error key_disabled_error rate_limit_exceeded_error
    bad_gateway_error service_unavailable_error provider_failure internal_server_error
map_worker_status status message =
    if status == 400
    then bad_request_error message
    else if status == 401
    then invalid_api_key_error message
    else if status == 403
    then key_disabled_error message
    else if status == 429
    then rate_limit_exceeded_error message
    else if status == 502
    then bad_gateway_error message
    else if status == 503
    then service_unavailable_error message
    else if leb 500 status
    then provider_failure message
    else internal_server_error message

unfoldable pub map_embedding_worker_error : Option WorkerError → GatewayError
unfolding map_worker_status provider_failure
map_embedding_worker_error none = provider_failure "upstream embedding provider error"
map_embedding_worker_error (some e) =
    map_worker_status e.status_code (message_or "upstream embedding provider error" e.message)
