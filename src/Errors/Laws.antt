-- ===== src/Errors/Laws.antt =====
-- internal/handler/chat.go and embedding.go: the HTTP status that a client sees of a failure upstream.
use high_performance_llm_gat.Prelude.{ℕ, String, ◌≡◌, arith, some, if◌then◌else◌, ◌==◌, ◌||◌}
use high_performance_llm_gat.Provider.{UpstreamError}
use high_performance_llm_gat.Worker.{WorkerError}
use high_performance_llm_gat.Errors.{
  http_status, code_status, type_status, new_error, bad_request_error, invalid_api_key_error,
  key_disabled_error, rate_limit_exceeded_error, bad_gateway_error, circuit_open_error,
  model_overloaded_error, service_unavailable_error, provider_failure, internal_server_error,
}
use high_performance_llm_gat.Errors.Mapping.{
  map_status, map_upstream_error, map_worker_status, map_embedding_worker_error,
}

-- The statuses that are passed on to the client; 504 becomes `timeout`, the rest 500.
abbrev pub relayed : ℕ → ℕ → ℕ
relayed timeout status =
    if status == 400
      || (status == 401 || (status == 403 || (status == 429 || (status == 502 || status == 503))))
    then status
    else if status == 504
    then timeout
    else 500

map_status-relayed : (n : ℕ) (m : String) → http_status (map_status n m) ≡ relayed 503 n
unfolding map_status http_status code_status type_status new_error bad_request_error
    invalid_api_key_error key_disabled_error rate_limit_exceeded_error bad_gateway_error
    circuit_open_error model_overloaded_error service_unavailable_error provider_failure
    internal_server_error
map_status-relayed n m = ground arith

map_worker_status-relayed :
    (n : ℕ) (m : String) → http_status (map_worker_status n m) ≡ relayed 500 n
unfolding map_worker_status http_status code_status type_status new_error bad_request_error
    invalid_api_key_error key_disabled_error rate_limit_exceeded_error bad_gateway_error
    service_unavailable_error provider_failure internal_server_error
map_worker_status-relayed n m = ground arith

-- The chat endpoint passes the statuses 400, 401, 403, 429, 502 and 503 of an upstream error on,
-- answers 503 to 504, and 500 to every other status.
pub map_upstream_error-relayed :
    (e : UpstreamError) → http_status (map_upstream_error (some e)) ≡ relayed 503 e.status_code
unfolding map_upstream_error
map_upstream_error-relayed e = map_status-relayed e.status_code _

-- The embedding endpoint answers an error of the worker with the status that the chat endpoint
-- answers an upstream error of the same status with, whatever the messages, but for the status 504,
-- which becomes 500 here.
pub map_embedding_worker_error-agrees :
    (e : WorkerError) (u : UpstreamError)
    → e.status_code ≡ u.status_code
    → http_status (map_embedding_worker_error (some e))
      ≡ (if u.status_code == 504 then 500 else http_status (map_upstream_error (some u)))
unfolding map_embedding_worker_error map_upstream_error
map_embedding_worker_error-agrees e u same =
    rw (map_worker_status-relayed e.status_code, map_status-relayed u.status_code, same)
      (ground arith)
