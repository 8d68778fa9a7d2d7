-- ===== src/Chat/Caching.antt =====
-- chat.go: what `ChatCompletion` does with the caches, the lookups before the call of the providers
-- and the stores after it. `W` is the world outside the gateway, Redis included.
use high_performance_llm_gat.Prelude.{
  String, List, [], ◌∷◌, Option, none, some, Bool, false, is_empty, if◌then◌else◌,
}
use high_performance_llm_gat.Prelude.Int.{ℤ}
use high_performance_llm_gat.Prelude.Float.{Float}
use high_performance_llm_gat.Config.{Config}
use high_performance_llm_gat.Registry.{System}
use high_performance_llm_gat.Worker.{Transport, Client, healthy}
use high_performance_llm_gat.Cache.{Redis, Reply, ok, fault}
use high_performance_llm_gat.Cache.L1.{L1Cache, generate_cache_key}
use high_performance_llm_gat.Cache.L1 as L1
use high_performance_llm_gat.Cache.L2.{L2Cache, VectorEntry, SearchResult, Ended, ended}
use high_performance_llm_gat.Cache.L2 as L2
use high_performance_llm_gat.Chat.{
  ChatCompletionRequest, ChatCompletionResponse, to_cache_messages, to_cache_response,
  to_chat_response,
}
use high_performance_llm_gat.Chat.Prompt.{Fetched, vector, failure, fetch_semantic_vector}

-- The payload that the cache key is computed from.
pub record KeyPayload (F : Type 0) : Type 0 where
  pub model : String
  pub messages : List L1.Message
  pub temperature : F
  pub max_tokens : ℤ
  pub top_p : F
  pub stop : List String

-- What the handler is given, and what it uses of encoding/json, crypto/sha256 and time.
pub record Env (F W : Type 0) : Type 0 where
  pub float : Float F
  pub config : Config F
  pub l1_cache : Option L1Cache
  pub l2_cache : Option (L2Cache F)
  pub sys : System W
  pub redis : Redis W
  pub transport : Transport F String W
  pub marshal_key : KeyPayload F → Reply String
  pub hash : String → String
  pub marshal_cached : L1.ChatResponse → Reply String
  pub unmarshal_cached : String → Option L1.ChatResponse
  pub marshal_response : ChatCompletionResponse → Reply String
  pub unmarshal_response : String → Option ChatCompletionResponse
  pub marshal_entry : VectorEntry F → Reply String
  pub unmarshal_entry : String → Option (VectorEntry F)
  pub unix_now : W → ℤ

module _ {F W : Type 0} (env : Env F W) where
  unfoldable pub cache_key : ChatCompletionRequest F → String
  cache_key req = generate_cache_key env.marshal_key env.hash req.model (record {
    model = req.model;
    messages = to_cache_messages req.messages;
    temperature = req.temperature;
    max_tokens = req.max_tokens;
    top_p = req.top_p;
    stop = req.stop;
  })

  -- The L1 caching that is switched on.
  abbrev pub l1_of : Option L1Cache
  l1_of = if env.config.cache.enabled then env.l1_cache else none

  abbrev pub l2_of : Option (L2Cache F)
  l2_of = if env.config.cache.enabled then env.l2_cache else none

  abbrev pub cached_response : Reply (Option String) → Option ChatCompletionResponse
  cached_response (fault e) = none
  cached_response (ok none) = none
  cached_response (ok (some text)) = elim (env.unmarshal_cached text) [
    | none ↦ none
    | some out ↦ some (to_chat_response out)
  ]

  unfoldable pub l1_lookup : Option L1Cache → String → W → Option ChatCompletionResponse × W
  l1_lookup none key w = (none, w)
  l1_lookup (some c) key w =
      let (reply, w') = L1.get env.redis c key w in (cached_response reply, w')

  -- `Healthy` on a client that may be nil.
  unfoldable pub worker_healthy : Option Client → W → Bool × Option Client × W
  worker_healthy none w = (false, none, w)
  worker_healthy (some c) w = let (h, c', w') = healthy env.transport c w in (h, some c', w')

  abbrev found_response : Reply (Option (SearchResult F)) → Option ChatCompletionResponse
  found_response (fault e) = none
  found_response (ok none) = none
  found_response (ok (some hit)) = env.unmarshal_response hit.response

  -- The search with a vector that was fetched: the response found, and the vector to keep.
  unfoldable pub l2_search :
      L2Cache F → String → Fetched (List F) × W → Option ChatCompletionResponse × List F × W
  l2_search c model (failure e, w) = (none, [], w)
  l2_search c model (vector v, w) =
      if is_empty v
      then (none, [], w)
      else let (reply, w') = L2.search env.float env.redis env.unmarshal_entry c v model w in
        (found_response reply, v, w')

  -- The L2 lookup: the response, the semantic vector, the client and the world.
  unfoldable pub l2_lookup :
      Option (L2Cache F)
      → ChatCompletionRequest F
      → Option Client
      → W
      → Option ChatCompletionResponse × List F × Option Client × W
  unfolding worker_healthy l2_search
  l2_lookup none req worker w = (none, [], worker, w)
  l2_lookup (some c) req worker w =
      let (h, worker', w1) = worker_healthy worker w in
      let (found, v, w2) =
        l2_search c req.model (fetch_semantic_vector env.transport worker' req.messages w1) in
      if h then (found, v, worker', w2) else (none, [], worker', w1)

  unfoldable pub l1_store : Option L1Cache → String → ChatCompletionResponse → W → W
  l1_store none key resp w = w
  l1_store (some c) key resp w = elim (env.marshal_cached (to_cache_response resp)) [
    | fault e ↦ w
    | ok text ↦ (L1.set env.redis c key text w).1
  ]

  abbrev vector_of : Fetched (List F) → List F
  vector_of (failure e) = []
  vector_of (vector v) = v

  -- The vector to store: the one of the lookup, or one that is fetched now.
  unfoldable pub vector_to_store :
      ChatCompletionRequest F → List F → Option Client → W → List F × Option Client × W
  unfolding worker_healthy
  vector_to_store req (x ∷ v) worker w = (x ∷ v, worker, w)
  vector_to_store req [] worker w =
      let (h, worker', w1) = worker_healthy worker w in
      let (f, w2) = fetch_semantic_vector env.transport worker' req.messages w1 in
      if h then (vector_of f, worker', w2) else ([], worker', w1)

  -- The call of `Store`, whose error is ignored.
  unfoldable pub store_vector :
      L2Cache F → String → String → ChatCompletionResponse → List F → W → Ended W
  store_vector c key model resp [] w = ended none w
  store_vector c key model resp (x ∷ v) w = elim (env.marshal_response resp) [
    | fault e ↦ ended none w
    | ok text ↦
        L2.store env.float env.redis env.unmarshal_entry env.marshal_entry (env.unix_now w) c key
          (x ∷ v) text model w
  ]

  -- The L2 store: the client, and how `Store` ended.
  unfoldable pub l2_store :
      Option (L2Cache F)
      → String
      → ChatCompletionRequest F
      → ChatCompletionResponse
      → List F
      → Option Client
      → W
      → Option Client × Ended W
  unfolding vector_to_store store_vector
  l2_store none key req resp v worker w = (worker, ended none w)
  l2_store (some c) key req resp v none w = (none, ended none w)
  l2_store (some c) key req resp v (some client) w =
      let (v', worker', w') = vector_to_store req v (some client) w in
      (worker', store_vector c key req.model resp v' w')
