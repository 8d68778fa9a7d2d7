-- ===== src/Chat/Validate.antt =====
-- chat.go: `validateChatRequest`.
use text.Mathlib.Text.{◌==◌ as str_eq}
use high_performance_llm_gat.Prelude.{
  ℕ, ◌+◌, String, List, [], ◌∷◌, Option, none, some, Bool, not, ◌||◌, ltb, is_empty, length,
  if◌then◌else◌,
}
use high_performance_llm_gat.Prelude.Int.{pos, ltb_ℤ}
use high_performance_llm_gat.Prelude.Text.{is_blank, show, ◌++ₛ◌}
use high_performance_llm_gat.Prelude.Float.{Float}
use high_performance_llm_gat.Chat.{ChatMessage, ChatCompletionRequest}

abbrev pub known_role : String → Bool
known_role r = str_eq r "system" || str_eq r "user" || str_eq r "assistant" || str_eq r "tool"

-- `fmt.Errorf("messages[%d]" + what, i)`
abbrev message_error : ℕ → String → String
message_error i what = "messages[" ++ₛ (show i ++ₛ ("]" ++ₛ what))

-- The loop over the messages, from index `i`; none is no error.
unfoldable pub check_messages : ℕ → List ChatMessage → Option String
check_messages i [] = none
check_messages i (m ∷ ms) =
    let rest = check_messages (i + 1) ms in
    if is_blank m.role
    then some (message_error i ".role is required")
    else if is_blank m.content
    then some (message_error i ".content is required")
    else if not (known_role m.role)
    then some (message_error i ".role is invalid")
    else rest

module _ {F : Type 0} (fl : Float F) where
  -- The checks behind the loop.
  unfoldable pub check_settings : ChatCompletionRequest F → Option String
  check_settings req =
      if fl.lt req.temperature fl.zero || fl.lt (fl.of_nat 2) req.temperature
      then some "temperature must be between 0 and 2"
      else if fl.lt req.top_p fl.zero || fl.lt (fl.of_nat 1) req.top_p
      then some "top_p must be between 0 and 1"
      else if ltb_ℤ req.max_tokens (pos 0)
      then some "max_tokens must be greater than or equal to 0"
      else if ltb 4 (length req.stop)
      then some "stop must contain at most 4 sequences"
      else none

  abbrev or_settings : Option String → Option String → Option String
  or_settings none rest = rest
  or_settings (some e) rest = some e

  unfoldable pub validate_chat_request : ChatCompletionRequest F → Option String
  unfolding check_messages check_settings
  validate_chat_request req =
      if is_blank req.model
      then some "model is required"
      else if is_empty req.messages
      then some "messages are required"
      else or_settings (check_messages 0 req.messages) (check_settings req)
