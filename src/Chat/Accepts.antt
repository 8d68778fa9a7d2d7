-- ===== src/Chat/Accepts.antt =====
-- Which requests `validateChatRequest` accepts.
use high_performance_llm_gat.Prelude.{
  ℕ, ◌+◌, ◌≤◌, ◌≡◌, ◌≢◌, refl, ◌↔◌, List, [], ◌∷◌, none, true, false, length, All, arith, is_empty,
}
use high_performance_llm_gat.Prelude.Int.{neg_part}
use high_performance_llm_gat.Prelude.Text.{is_blank}
use high_performance_llm_gat.Prelude.Float.{Float}
use high_performance_llm_gat.Chat.{ChatMessage, ChatCompletionRequest}
use high_performance_llm_gat.Chat.Validate.{known_role, check_messages, validate_chat_request}

-- A message with one of the four roles and some content.
abbrev pub IsMessage : ChatMessage → Type 0
IsMessage m = (is_blank m.role ≡ false) × (known_role m.role ≡ true) × (is_blank m.content ≡ false)

check_messages-All :
    (i : ℕ) (ms : List ChatMessage) → (check_messages i ms ≡ none) ↔ All IsMessage ms
unfolding check_messages
check_messages-All i [] = (λ h. tt, λ h. refl)
check_messages-All i (m ∷ ms) = (
  λ h. (
    (ground arith, ground arith, ground arith),
    (check_messages-All (i + 1) ms).0 (ground arith),
  ),
  λ h. let rest = (check_messages-All (i + 1) ms).1 h.1 in ground (arith, rest),
)

-- The terms of a valid request.
pub record IsValidRequest {F : Type 0} (fl : Float F) (req : ChatCompletionRequest F) : Type 0 where
  pub model_named : is_blank req.model ≡ false
  pub messages_there : req.messages ≢ []
  pub messages_ok : All IsMessage req.messages
  pub temperature_low : fl.lt req.temperature fl.zero ≡ false
  pub temperature_high : fl.lt (fl.of_nat 2) req.temperature ≡ false
  pub top_p_low : fl.lt req.top_p fl.zero ≡ false
  pub top_p_high : fl.lt (fl.of_nat 1) req.top_p ≡ false
  pub max_tokens_nonneg : neg_part req.max_tokens ≡ 0
  pub few_stops : length req.stop ≤ 4

not_empty : (ms : List ChatMessage) → ms ≢ [] → is_empty ms ≡ false
not_empty [] h = absurd (h refl)
not_empty (m ∷ ms) h = refl

module _ {F : Type 0} (fl : Float F) (req : ChatCompletionRequest F) where
  accepts→valid : validate_chat_request fl req ≡ none → IsValidRequest fl req
  unfolding validate_chat_request
  accepts→valid h = record {
    model_named = ground arith;
    messages_there = λ e. ground arith;
    messages_ok = (check_messages-All 0 req.messages).0 (ground arith);
    temperature_low = ground arith;
    temperature_high = ground arith;
    top_p_low = ground arith;
    top_p_high = ground arith;
    max_tokens_nonneg = ground arith;
    few_stops = ground arith;
  }

  valid→accepts : IsValidRequest fl req → validate_chat_request fl req ≡ none
  unfolding validate_chat_request
  valid→accepts v =
      let messages = (check_messages-All 0 req.messages).1 v.messages_ok in
      ground (arith, messages, not_empty req.messages v.messages_there)

  -- A request is accepted exactly when it names a model, has messages, each with one of the roles
  -- system, user, assistant and tool and with content that is not blank, keeps the temperature within
  -- 0 and 2 and top_p within 0 and 1, has no negative token limit and at most four stop sequences.
  pub validate_chat_request_iff : (validate_chat_request fl req ≡ none) ↔ IsValidRequest fl req
  validate_chat_request_iff = (accepts→valid, valid→accepts)
