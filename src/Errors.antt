-- ===== src/Errors.antt =====
-- pkg/errors/errors.go: the gateway's errors, their constructors and their HTTP status.
pub mod Mapping
pub mod Laws
use high_performance_llm_gat.Prelude.{ℕ, String, List, [], ◌∷◌}

-- `ErrorCode` is a string type in Go: its constants, and any other text.
pub data ErrorCode : Type 0 where
  max_tokens_exceeded request_too_large invalid_request invalid_model invalid_parameters : ErrorCode
  invalid_api_key key_expired missing_api_key : ErrorCode
  key_disabled permission_denied : ErrorCode
  rate_limit_exceeded quota_exceeded : ErrorCode
  internal_error provider_error : ErrorCode
  bad_gateway model_overloaded model_not_available service_unavailable : ErrorCode
  cache_error : ErrorCode
  circuit_open : ErrorCode
  other_code : String → ErrorCode

-- `string(code)`
unfoldable pub code_text : ErrorCode → String
code_text max_tokens_exceeded = "max_tokens_exceeded"
code_text request_too_large = "request_too_large"
code_text invalid_request = "invalid_request"
code_text invalid_model = "invalid_model"
code_text invalid_parameters = "invalid_parameters"
code_text invalid_api_key = "invalid_api_key"
code_text key_expired = "key_expired"
code_text missing_api_key = "missing_api_key"
code_text key_disabled = "key_disabled"
code_text permission_denied = "permission_denied"
code_text rate_limit_exceeded = "rate_limit_exceeded"
code_text quota_exceeded = "quota_exceeded"
code_text internal_error = "internal_error"
code_text provider_error = "provider_error"
code_text bad_gateway = "bad_gateway"
code_text model_overloaded = "model_overloaded"
code_text model_not_available = "model_not_available"
code_text service_unavailable = "service_unavailable"
code_text cache_error = "cache_error"
code_text circuit_open = "circuit_open"
code_text (other_code s) = s

pub data ErrorType : Type 0 where
  invalid_request_error invalid_api_key_type permission_error rate_limit_error : ErrorType
  server_error service_unavailable_type internal_error_type : ErrorType
  other_type : String → ErrorType

pub record GatewayError : Type 0 where
  pub message : String
  pub kind : ErrorType
  pub code : ErrorCode

pub record ErrorResponse : Type 0 where
  pub error : GatewayError

unfoldable pub new_error : String → ErrorType → ErrorCode → GatewayError
new_error m t c = record { message = m; kind = t; code = c }

unfoldable pub to_error_response : GatewayError → ErrorResponse
to_error_response e = record { error = e }

-- The second `switch` of `HTTPStatus`, on the type.
unfoldable pub type_status : ErrorType → ℕ
type_status invalid_request_error = 400
type_status invalid_api_key_type = 401
type_status permission_error = 403
type_status rate_limit_error = 429
type_status server_error = 500
type_status service_unavailable_type = 503
type_status _ = 500

-- The first `switch`, on the code, which falls through to the second.
unfoldable pub code_status : ErrorCode → ErrorType → ℕ
unfolding type_status
code_status invalid_api_key t = 401
code_status key_expired t = 401
code_status missing_api_key t = 401
code_status key_disabled t = 403
code_status permission_denied t = 403
code_status rate_limit_exceeded t = 429
code_status quota_exceeded t = 429
code_status max_tokens_exceeded t = 400
code_status request_too_large t = 400
code_status invalid_request t = 400
code_status invalid_model t = 400
code_status invalid_parameters t = 400
code_status bad_gateway t = 502
code_status model_overloaded t = 503
code_status model_not_available t = 503
code_status service_unavailable t = 503
code_status circuit_open t = 503
code_status _ t = type_status t

unfoldable pub http_status : GatewayError → ℕ
unfolding code_status
http_status e = code_status e.code e.kind

-- The constructors `InvalidAPIKey` to `CacheError`, by the code that each of them sets.
unfoldable pub invalid_api_key_error : String → GatewayError
unfolding new_error
invalid_api_key_error m = new_error m invalid_api_key_type invalid_api_key

unfoldable pub missing_api_key_error : String → GatewayError
unfolding new_error
missing_api_key_error m = new_error m invalid_api_key_type missing_api_key

unfoldable pub key_expired_error : String → GatewayError
unfolding new_error
key_expired_error m = new_error m invalid_api_key_type key_expired

unfoldable pub key_disabled_error : String → GatewayError
unfolding new_error
key_disabled_error m = new_error m permission_error key_disabled

unfoldable pub rate_limit_exceeded_error : String → GatewayError
unfolding new_error
rate_limit_exceeded_error m = new_error m rate_limit_error rate_limit_exceeded

unfoldable pub quota_exceeded_error : String → GatewayError
unfolding new_error
quota_exceeded_error m = new_error m rate_limit_error quota_exceeded

unfoldable pub bad_request_error : String → GatewayError
unfolding new_error
bad_request_error m = new_error m invalid_request_error invalid_request

unfoldable pub max_tokens_exceeded_error : String → GatewayError
unfolding new_error
max_tokens_exceeded_error m = new_error m invalid_request_error max_tokens_exceeded

unfoldable pub request_too_large_error : String → GatewayError
unfolding new_error
request_too_large_error m = new_error m invalid_request_error request_too_large

unfoldable pub invalid_model_error : String → GatewayError
unfolding new_error
invalid_model_error m = new_error m invalid_request_error invalid_model

unfoldable pub internal_server_error : String → GatewayError
unfolding new_error
internal_server_error m = new_error m server_error internal_error

unfoldable pub provider_failure : String → GatewayError
unfolding new_error
provider_failure m = new_error m server_error provider_error

unfoldable pub bad_gateway_error : String → GatewayError
unfolding new_error
bad_gateway_error m = new_error m server_error bad_gateway

unfoldable pub model_overloaded_error : String → GatewayError
unfolding new_error
model_overloaded_error m = new_error m service_unavailable_type model_overloaded

unfoldable pub model_not_available_error : String → GatewayError
unfolding new_error
model_not_available_error m = new_error m service_unavailable_type model_not_available

unfoldable pub service_unavailable_error : String → GatewayError
unfolding new_error
service_unavailable_error m = new_error m service_unavailable_type service_unavailable

unfoldable pub circuit_open_error : String → GatewayError
unfolding new_error
circuit_open_error m = new_error m service_unavailable_type circuit_open

unfoldable pub cache_failure : String → GatewayError
unfolding new_error
cache_failure m = new_error m server_error cache_error
