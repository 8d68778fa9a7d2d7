-- ===== src/Provider.antt =====
-- internal/service/provider/types.go: requests, responses and errors of the upstream providers.
-- Floating-point numbers are of a type `F` that the development takes as a parameter.
pub mod Http
pub mod HttpLaws
use high_performance_llm_gat.Prelude.{ℕ, String, List, Option, none, some, Bool, if◌then◌else◌}
use high_performance_llm_gat.Prelude.Int.{ℤ}
use text.Mathlib.Text.{◌==◌}
use mathlib.Core.Bool.{not}

pub record ChatMessage : Type 0 where
  pub role : String
  pub content : String
  pub name : String

pub record ChatCompletionRequest (F : Type 0) : Type 0 where
  pub model : String
  pub messages : List ChatMessage
  pub temperature : F
  pub max_tokens : ℤ
  pub top_p : F
  pub stream : Bool
  pub stop : List String

pub record Choice : Type 0 where
  pub index : ℤ
  pub message : ChatMessage
  pub finish_reason : String

pub record Usage : Type 0 where
  pub prompt_tokens : ℤ
  pub completion_tokens : ℤ
  pub total_tokens : ℤ

pub record ChatCompletionResponse : Type 0 where
  pub id : String
  pub object : String
  pub created : ℤ
  pub model : String
  pub choices : List Choice
  pub usage : Usage
  pub provider : String

-- `err` is the text of the wrapped Go error, if there is one.
pub record UpstreamError : Type 0 where
  pub provider : String
  pub model : String
  pub status_code : ℕ
  pub message : String
  pub body : String
  pub err : Option String

-- The result of a call: a response or an error, never both.
pub data Outcome : Type 0 where
  answer : ChatCompletionResponse → Outcome
  failure : UpstreamError → Outcome

wrapped_text : Option String → String
wrapped_text none = "upstream provider error"
wrapped_text (some e) = e

-- `(*UpstreamError).Error`
unfoldable pub error_text : Option UpstreamError → String
unfolding wrapped_text
error_text none = ""
error_text (some e) = if not (e.message == "") then e.message else wrapped_text e.err
