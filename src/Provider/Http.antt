-- ===== src/Provider/Http.antt =====
-- internal/service/provider/http_provider.go: the client of an API that is compatible with OpenAI's,
-- and openai.go, anthropic.go and minimax.go, which make one for each provider. The spans of
-- OpenTelemetry are left out.
use text.Mathlib.Text.{◌==◌ as str_eq}
use high_performance_llm_gat.Prelude.{
  ℕ, String, Option, none, some, Bool, false, not, ◌||◌, ltb, if◌then◌else◌,
}
use high_performance_llm_gat.Prelude.Text.{
  trim_space, trim_slashes, is_blank, take_text, show, ◌++ₛ◌,
}
use high_performance_llm_gat.Cache.{Reply, ok, fault}
use high_performance_llm_gat.Config.{ProviderConfig}
use high_performance_llm_gat.Provider.{
  ChatCompletionRequest, ChatCompletionResponse, Outcome, answer, failure,
}

-- The HTTP client is left out; its work is the field `exchange` of `Http`.
pub record OpenAiCompatibleProvider : Type 0 where
  pub name : String
  pub base_url : String
  pub api_key : String

-- What the client uses of encoding/json and net/http. `exchange` posts a payload to a URL with an
-- API key and gives the status with the result of reading the body, or the error of the call;
-- `build` gives the error of building the request; `envelope` decodes the two messages of an error.
pub record Http (F W : Type 0) : Type 0 where
  pub marshal : ChatCompletionRequest F → Reply String
  pub build : String → String → Option String
  pub exchange : String → String → String → W → Reply (ℕ × Reply String) × W
  pub unmarshal : String → Reply ChatCompletionResponse
  pub envelope : String → Option (String × String)

unfoldable pub new_open_ai_compatible_provider : String → String → String → OpenAiCompatibleProvider
new_open_ai_compatible_provider name base_url api_key = record {
  name = name;
  base_url = trim_slashes base_url;
  api_key = api_key;
}

unfoldable pub new_openai_provider : ProviderConfig → OpenAiCompatibleProvider
unfolding new_open_ai_compatible_provider
new_openai_provider cfg = new_open_ai_compatible_provider "openai" cfg.base_url cfg.api_key

unfoldable pub new_anthropic_provider : ProviderConfig → OpenAiCompatibleProvider
unfolding new_open_ai_compatible_provider
new_anthropic_provider cfg = new_open_ai_compatible_provider "anthropic" cfg.base_url cfg.api_key

unfoldable pub new_minimax_provider : ProviderConfig → OpenAiCompatibleProvider
unfolding new_open_ai_compatible_provider
new_minimax_provider cfg = new_open_ai_compatible_provider "minimax" cfg.base_url cfg.api_key

-- The first 512 of the text of a body; Go cuts at bytes.
abbrev body_text : String → String
body_text body = take_text 512 (trim_space body)

unfoldable pub extract_upstream_message : (String → Option (String × String)) → ℕ → String → String
extract_upstream_message envelope status body =
    if str_eq body ""
    then "upstream provider returned status " ++ₛ show status
    else elim (envelope body) [
      | none ↦ body_text body
      | some (inner, outer) ↦
          if not (str_eq inner "")
          then inner
          else if not (str_eq outer "")
          then outer
          else body_text body
    ]

-- 200 <= status < 300
abbrev pub is_success : ℕ → Bool
is_success status = if ltb status 200 then false else ltb status 300

module _ {F W : Type 0} (http : Http F W) (p : OpenAiCompatibleProvider) where
  abbrev failed : ℕ → String → String → Option String → Outcome
  failed status message body err = failure (record {
    provider = p.name;
    model = "";
    status_code = status;
    message = message;
    body = body;
    err = err;
  })

  -- A response that was decoded.
  unfoldable pub completed : ChatCompletionRequest F → ChatCompletionResponse → Outcome
  completed req resp = answer (record resp {
    model = if is_blank resp.model then req.model else resp.model;
    provider = p.name;
  })

  unfoldable pub decoded : ChatCompletionRequest F → String → Reply ChatCompletionResponse → Outcome
  unfolding completed
  decoded req body (fault e) = failed 502 "failed to parse upstream response" body (some e)
  decoded req body (ok resp) = completed req resp

  -- What follows the reading of the body.
  unfoldable pub read_body : ChatCompletionRequest F → ℕ → Reply String → Outcome
  unfolding decoded
  read_body req status (fault e) = failed 502 "failed to read upstream response" "" (some e)
  read_body req status (ok body) =
      if not (is_success status)
      then failed status (extract_upstream_message http.envelope status body) body none
      else decoded req body (http.unmarshal body)

  unfoldable pub after_exchange : ChatCompletionRequest F → Reply (ℕ × Reply String) → Outcome
  unfolding read_body
  after_exchange req (fault e) = failed 503 "failed to call upstream provider" "" (some e)
  after_exchange req (ok (status, body)) = read_body req status body

  -- The request with the payload that was marshalled, or the error of marshalling.
  unfoldable pub send : ChatCompletionRequest F → Reply String → W → Outcome × W
  unfolding after_exchange
  send req (fault e) w = (failed 400 "failed to marshal chat request" "" (some e), w)
  send req (ok payload) w =
      let url = p.base_url ++ₛ "/chat/completions" in
      let (reply, w') = http.exchange url p.api_key payload w in
      elim (http.build url payload) [
        | some e ↦ (failed 502 "failed to build upstream request" "" (some e), w)
        | none ↦ (after_exchange req reply, w')
      ]

  -- `ChatCompletion`, a client of the registry.
  unfoldable pub http_chat_completion : ChatCompletionRequest F → W → Outcome × W
  unfolding send
  http_chat_completion req w =
      if str_eq p.base_url "" || str_eq p.api_key ""
      then (failed 503 (p.name ++ₛ " provider is not configured") "" none, w)
      else send req (http.marshal req) w
