-- ===== src/Chat.antt =====
-- internal/handler/chat.go: the chat endpoint. This file has its types and the translations between
-- the types of the handler, of the providers and of the cache.
pub mod Translate
pub mod Validate
pub mod Accepts
pub mod Stream
pub mod Prompt
pub mod Caching
pub mod Handler
pub mod Recorded
pub mod Recording
pub mod Counted
pub mod Repeat
use text.Mathlib.Text.{◌==◌ as str_eq}
use high_performance_llm_gat.Prelude.{
  String, List, Option, none, some, Bool, ◌||◌, map, if◌then◌else◌,
}
use high_performance_llm_gat.Prelude.Int.{ℤ}
use high_performance_llm_gat.Prelude.Text.{trim_space, to_lower, is_blank}
use high_performance_llm_gat.Prelude.Dict.{lookup}
use high_performance_llm_gat.Config.{WorkflowConfig}
use high_performance_llm_gat.Provider as Provider
use high_performance_llm_gat.Cache.L1 as L1

pub record ChatMessage : Type 0 where
  pub role : String
  pub content : String
  pub name : String

pub record ChatCompletionRequest (F : Type 0) : Type 0 where
  pub model : String
  pub messages : List ChatMessage
  pub temperature : F
  pub max_tokens : ℤ
  pub top_p : F
  pub stream : Bool
  pub stop : List String

pub record Choice : Type 0 where
  pub index : ℤ
  pub message : ChatMessage
  pub finish_reason : String

pub record Usage : Type 0 where
  pub prompt_tokens : ℤ
  pub completion_tokens : ℤ
  pub total_tokens : ℤ

pub record ChatCompletionResponse : Type 0 where
  pub id : String
  pub object : String
  pub created : ℤ
  pub model : String
  pub choices : List Choice
  pub usage : Usage

-- Translations of one message and one choice.
unfoldable pub to_provider_message : ChatMessage → Provider.ChatMessage
to_provider_message m = record { role = m.role; content = m.content; name = m.name }

unfoldable pub to_provider_request :
    {F : Type 0} → ChatCompletionRequest F → Provider.ChatCompletionRequest F
unfolding to_provider_message
to_provider_request req = record {
  model = req.model;
  messages = map to_provider_message req.messages;
  temperature = req.temperature;
  max_tokens = req.max_tokens;
  top_p = req.top_p;
  stream = req.stream;
  stop = req.stop;
}

unfoldable pub from_provider_choice : Provider.Choice → Choice
from_provider_choice c = record {
  index = c.index;
  message = record { role = c.message.role; content = c.message.content; name = c.message.name };
  finish_reason = c.finish_reason;
}

unfoldable pub to_handler_response : Provider.ChatCompletionResponse → ChatCompletionResponse
unfolding from_provider_choice
to_handler_response resp = record {
  id = resp.id;
  object = resp.object;
  created = resp.created;
  model = resp.model;
  choices = map from_provider_choice resp.choices;
  usage = record {
    prompt_tokens = resp.usage.prompt_tokens;
    completion_tokens = resp.usage.completion_tokens;
    total_tokens = resp.usage.total_tokens;
  };
}

unfoldable pub to_cache_message : ChatMessage → L1.Message
to_cache_message m = record { role = m.role; content = m.content; name = m.name }

unfoldable pub to_cache_messages : List ChatMessage → List L1.Message
unfolding to_cache_message
to_cache_messages = map to_cache_message

unfoldable pub to_cache_choice : Choice → L1.Choice
to_cache_choice c = record {
  index = c.index;
  message = record { role = c.message.role; content = c.message.content; name = c.message.name };
  finish_reason = c.finish_reason;
}

unfoldable pub to_cache_response : ChatCompletionResponse → L1.ChatResponse
unfolding to_cache_choice
to_cache_response resp = record {
  id = resp.id;
  object = resp.object;
  created = resp.created;
  model = resp.model;
  choices = map to_cache_choice resp.choices;
  usage = record {
    prompt_tokens = resp.usage.prompt_tokens;
    completion_tokens = resp.usage.completion_tokens;
    total_tokens = resp.usage.total_tokens;
  };
}

unfoldable pub from_cache_choice : L1.Choice → Choice
from_cache_choice c = record {
  index = c.index;
  message = record { role = c.message.role; content = c.message.content; name = c.message.name };
  finish_reason = c.finish_reason;
}

unfoldable pub to_chat_response : L1.ChatResponse → ChatCompletionResponse
unfolding from_cache_choice
to_chat_response resp = record {
  id = resp.id;
  object = resp.object;
  created = resp.created;
  model = resp.model;
  choices = map from_cache_choice resp.choices;
  usage = record {
    prompt_tokens = resp.usage.prompt_tokens;
    completion_tokens = resp.usage.completion_tokens;
    total_tokens = resp.usage.total_tokens;
  };
}

unfoldable pub routed_model_or_request : String → String → String
routed_model_or_request routed request = if is_blank routed then request else routed

-- The headers of a request that the workflow tracing reads.
pub record WorkflowRequestContext : Type 0 where
  pub trace_id : String
  pub session_id : String
  pub step_id : String
  pub step_type : String
  pub tool : String

abbrev is_phase : String → Bool
is_phase s = str_eq s "planning" || str_eq s "execution" || str_eq s "summarization"

unfoldable pub normalize_workflow_step_type : String → String
normalize_workflow_step_type raw = let s = to_lower (trim_space raw) in if is_phase s then s else ""

-- `header` is `c.GetHeader`.
unfoldable pub extract_workflow_request_context : (String → String) → WorkflowRequestContext
unfolding normalize_workflow_step_type
extract_workflow_request_context header = record {
  trace_id = trim_space (header "X-Workflow-Trace-Id");
  session_id = trim_space (header "X-Workflow-Session");
  step_id = trim_space (header "X-Workflow-Step");
  step_type = normalize_workflow_step_type (header "X-Workflow-Phase");
  tool = trim_space (header "X-Workflow-Tool");
}

-- The model that a policy sets.
abbrev set_model : {F : Type 0} → ChatCompletionRequest F → Option String → ChatCompletionRequest F
set_model req none = req
set_model req (some m) = if is_blank m then req else record req { model = trim_space m }

abbrev policy_of : Option (List (String × String)) → String → Option String
policy_of none step = none
policy_of (some policies) step = lookup step policies

unfoldable pub apply_workflow_route_policy :
    {F : Type 0} → WorkflowConfig → ChatCompletionRequest F → String → ChatCompletionRequest F
unfolding normalize_workflow_step_type
apply_workflow_route_policy cfg req raw =
    let step = normalize_workflow_step_type raw in
    if str_eq step "" then req else set_model req (policy_of cfg.route_policies step)
