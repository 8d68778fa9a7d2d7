-- ===== src/Chat/Translate.antt =====
-- What the translations between the handler's types and the cache's types keep.
use high_performance_llm_gat.Prelude.{List, [], ◌∷◌, map, ◌≡◌, refl, ap}
use high_performance_llm_gat.Chat.{
  Choice, ChatCompletionResponse, to_cache_choice, from_cache_choice, to_cache_response,
  to_chat_response,
}

from_cache_choice-to_cache_choice :
    (cs : List Choice) → map from_cache_choice (map to_cache_choice cs) ≡ cs
unfolding from_cache_choice to_cache_choice
from_cache_choice-to_cache_choice [] = refl
from_cache_choice-to_cache_choice (c ∷ cs) = ap (◌∷◌ c) (from_cache_choice-to_cache_choice cs)

-- A response that goes into the cache comes out of it unchanged.
pub to_chat_response-to_cache_response :
    (resp : ChatCompletionResponse) → to_chat_response (to_cache_response resp) ≡ resp
unfolding to_chat_response to_cache_response
to_chat_response-to_cache_response resp =
    ap (λ (cs : List Choice). record resp { choices = cs })
      (from_cache_choice-to_cache_choice resp.choices)
