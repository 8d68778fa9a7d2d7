-- ===== src/Chat/Repeat.antt =====
-- chat.go: a request and the same request again, when the caches are on and no worker has an address,
-- so that the semantic cache is not asked.
use high_performance_llm_gat.Prelude.{
  String, List, Option, none, some, Bool, true, false, ◌≡◌, refl, ap, ◌∙◌, sym, [], arith,
}
use mathlib.Core.Path.{subst}
use high_performance_llm_gat.Chat.{
  ChatCompletionRequest, ChatCompletionResponse, WorkflowRequestContext, to_cache_response,
  to_chat_response, apply_workflow_route_policy,
}
use high_performance_llm_gat.Prelude.Text.{trim_space}
use high_performance_llm_gat.Chat.Translate.{to_chat_response-to_cache_response}
use high_performance_llm_gat.Chat.Validate.{validate_chat_request}
use high_performance_llm_gat.Chat.Caching.{
  Env, cache_key, l1_of, l2_of, l1_lookup, l2_lookup, l1_store, l2_store, cached_response,
  worker_healthy, vector_to_store, store_vector,
}
use high_performance_llm_gat.Chat.Handler.{
  State, HttpReply, start_vars, json_reply, event_stream, error_reply, panicked, Vars, fail_with,
  answer_with, respond, Forwarded, forwarded, refused, forward_to_provider, Result, finish,
  after_forward, after_l2, after_l1, serve, or_serve, bound, handle_chat,
}
use high_performance_llm_gat.Registry.{Registry}
use high_performance_llm_gat.Worker.{Client, healthy}
use high_performance_llm_gat.Cache.L2.{L2Cache, ended}
use high_performance_llm_gat.Cache.{ok}
use high_performance_llm_gat.Cache.L1.{L1Cache, ChatResponse}
use high_performance_llm_gat.Cache.L1 as L1
use high_performance_llm_gat.Cache.L1Laws.{Answers, get-set, get-world}

-- A response was written, as JSON or as a stream of events.
abbrev pub is_answer : HttpReply → Bool
is_answer (json_reply resp) = true
is_answer (event_stream events) = true
is_answer (error_reply status body) = false
is_answer panicked = false

-- The exact cache is on, and Redis answers without error and keeps its hashes.
pub record IsCaching {F W : Type 0} (env : Env F W) (fields : String → W → List (String × String))
    : Type 0 where
  pub cache : L1Cache
  pub l1_on : l1_of env ≡ some cache
  pub connected : cache.client ≡ true
  pub redis_answers : Answers env.redis fields

-- No worker is configured, or one with no address: `Healthy` is false.
abbrev pub IsIdle : Option Client → Type 0
IsIdle none = Unit
IsIdle (some c) = c.base_url ≡ ""

module _ {F W : Type 0} (env : Env F W) where
  worker_healthy-IsIdle :
      (worker : Option Client) (w : W)
      → IsIdle worker
      → worker_healthy env worker w ≡ (false, worker, w)
  unfolding worker_healthy healthy
  worker_healthy-IsIdle none w h = refl
  worker_healthy-IsIdle (some c) w h = rw h refl

  -- Without a worker the semantic cache is neither searched nor written.
  l2_lookup-IsIdle :
      (c : Option (L2Cache F)) (req : ChatCompletionRequest F) (worker : Option Client) (w : W)
      → IsIdle worker
      → l2_lookup env c req worker w ≡ (none, [], worker, w)
  unfolding l2_lookup
  l2_lookup-IsIdle none req worker w h = refl
  l2_lookup-IsIdle (some c) req worker w h = rw (worker_healthy-IsIdle worker w h, l2_lookup) refl

  vector_to_store-IsIdle :
      (req : ChatCompletionRequest F) (client : Client) (w : W)
      → client.base_url ≡ ""
      → vector_to_store env req [] (some client) w ≡ ([], some client, w)
  unfolding vector_to_store healthy
  vector_to_store-IsIdle req client w h = rw (h, vector_to_store) refl

  l2_store-IsIdle :
      (c : Option (L2Cache F)) (key : String) (req : ChatCompletionRequest F)
      (resp : ChatCompletionResponse) (worker : Option Client) (w : W)
      → IsIdle worker
      → l2_store env c key req resp [] worker w ≡ (worker, ended none w)
  unfolding l2_store store_vector
  l2_store-IsIdle none key req resp worker w h = refl
  l2_store-IsIdle (some c) key req resp none w h = refl
  l2_store-IsIdle (some c) key req resp (some client) w h =
      rw (vector_to_store-IsIdle req client w h, l2_store) refl

module _ {F W : Type 0} (env : Env F W) (fields : String → W → List (String × String))
    (on : IsCaching env fields) where
  -- The exact cache holds the response.
  abbrev Holds : String → ChatCompletionResponse → W → Type 0
  Holds key resp w = l1_lookup env (l1_of env) key w ≡ (some resp, w)

  l1_store_lem :
      (c : L1Cache) (key : String) (resp : ChatCompletionResponse) (w : W) (text : String)
      → env.marshal_cached (to_cache_response resp) ≡ ok text
      → l1_store env (some c) key resp w ≡ (L1.set env.redis c key text w).1
  unfolding l1_store
  l1_store_lem c key resp w text m = rw (m, l1_store) refl

  l1_lookup_lem :
      (c : L1Cache) (key text : String) (out : ChatResponse) (w : W)
      → (L1.get env.redis c key w).0 ≡ ok (some text)
      → (L1.get env.redis c key w).1 ≡ w
      → env.unmarshal_cached text ≡ some out
      → l1_lookup env (some c) key w ≡ (some (to_chat_response out), w)
  unfolding l1_lookup
  l1_lookup_lem c key text out w g same u = rw (g, same, cached_response, u) refl

  -- The JSON of the response, as it is cached, decodes to it.
  abbrev pub Encodes : ChatCompletionResponse → Type 0
  Encodes resp =
      (text : String) × (env.marshal_cached (to_cache_response resp) ≡ ok text)
      × (env.unmarshal_cached text ≡ some (to_cache_response resp))

  -- So do the responses that a call of the providers gives.
  abbrev pub AnswersEncode : Forwarded env → Type 0
  AnswersEncode (forwarded resp provider) = Encodes resp
  AnswersEncode (refused e) = Unit

  l1_store-Holds :
      (key : String) (resp : ChatCompletionResponse) (w : W)
      → Encodes resp
      → Holds key resp (l1_store env (l1_of env) key resp w)
  l1_store-Holds key resp w (text, m, u) =
      let w' = (L1.set env.redis on.cache key text w).1 in
      let found =
        l1_lookup_lem on.cache key text (to_cache_response resp) w'
          (get-set env.redis fields on.redis_answers on.cache key text w on.connected)
          (get-world env.redis fields on.redis_answers on.cache key w') u in
      rw (on.l1_on, l1_store_lem on.cache key resp w text m, found)
        (rw (to_chat_response-to_cache_response resp) refl)

  -- A lookup changes nothing.
  l1_lookup-world : (key : String) (w : W) → (l1_lookup env (l1_of env) key w).1 ≡ w
  unfolding l1_lookup
  l1_lookup-world key w = rw on.l1_on (get-world env.redis fields on.redis_answers on.cache key w)

  -- After an answer the exact cache holds the response that was written.
  abbrev Answered : ChatCompletionRequest F → String → Result env → Type 0
  Answered req key p =
      (resp : ChatCompletionResponse) × (p.0.0 ≡ respond req.stream resp) × Holds key resp p.1.world

  after_forward-Answered :
      (req : ChatCompletionRequest F) (key : String) (vars : Vars) (worker : Option Client)
      (o : Forwarded env × Option (Registry F W) × W)
      → IsIdle worker
      → AnswersEncode o.0
      → is_answer (after_forward env req key [] vars worker o).0.0 ≡ true
      → Answered req key (after_forward env req key [] vars worker o)
  unfolding after_forward finish fail_with answer_with
  after_forward-Answered req key vars worker (refused e, registry, w) idle j h = ground (arith, h)
  after_forward-Answered req key vars worker (forwarded resp provider, registry, w) idle j h =
      let w1 = l1_store env (l1_of env) key resp w in
      rw (l2_store-IsIdle env (l2_of env) key req resp worker w1 idle)
        (resp, refl, l1_store-Holds key resp w j)

  after_l2-Answered :
      (req : ChatCompletionRequest F) (key : String) (vars : Vars) (s : State F W) (w : W)
      → IsIdle s.worker
      → AnswersEncode (forward_to_provider env s.registry req w).0
      → is_answer (after_l2 env req key vars s.registry (none, [], s.worker, w)).0.0 ≡ true
      → Answered req key (after_l2 env req key vars s.registry (none, [], s.worker, w))
  unfolding after_l2
  after_l2-Answered req key vars s w idle j h =
      after_forward-Answered req key vars s.worker _ idle j h

  after_l1-Answered :
      (req : ChatCompletionRequest F) (key : String) (vars : Vars) (s : State F W)
      (o : Option ChatCompletionResponse) (w : W)
      → l1_lookup env (l1_of env) key w ≡ (o, w)
      → IsIdle s.worker
      → AnswersEncode (forward_to_provider env s.registry req w).0
      → is_answer (after_l1 env req key vars s (o, w)).0.0 ≡ true
      → Answered req key (after_l1 env req key vars s (o, w))
  unfolding after_l1 answer_with
  after_l1-Answered req key vars s (some resp) w e idle j h = (resp, refl, e)
  after_l1-Answered req key vars s none w e idle j h =
      let skip = l2_lookup-IsIdle env (l2_of env) req s.worker w idle in
      subst (λ o. Answered req key (after_l2 env req key vars s.registry o)) (sym skip)
        (after_l2-Answered req key vars s w idle j
          (subst (λ o. is_answer (after_l2 env req key vars s.registry o).0.0 ≡ true) skip h))

  lookup_pair :
      (key : String) (w : W)
      → l1_lookup env (l1_of env) key w ≡ ((l1_lookup env (l1_of env) key w).0, w)
  lookup_pair key w = ap (λ x. ((l1_lookup env (l1_of env) key w).0, x)) (l1_lookup-world key w)

  serve-Answered :
      (req : ChatCompletionRequest F) (vars : Vars) (s : State F W)
      → IsIdle s.worker
      → AnswersEncode (forward_to_provider env s.registry req s.world).0
      → is_answer (serve env req vars s).0.0 ≡ true
      → Answered req (cache_key env req) (serve env req vars s)
  unfolding serve
  serve-Answered req vars s idle j h =
      let key = cache_key env req in
      let e = lookup_pair key s.world in
      subst (λ o. Answered req key (after_l1 env req key vars s o)) (sym e)
        (after_l1-Answered req key vars s _ s.world e idle j
          (subst (λ o. is_answer (after_l1 env req key vars s o).0.0 ≡ true) e h))

  -- A request whose response the exact cache holds.
  serve-Holds :
      (req : ChatCompletionRequest F) (vars : Vars) (s : State F W) (resp : ChatCompletionResponse)
      → Holds (cache_key env req) resp s.world
      → serve env req vars s ≡ (answer_with req.stream "cache_l1" true resp vars, s)
  unfolding serve after_l1
  serve-Holds req vars s resp h = rw h refl

  or_serve-repeat :
      (e : Option String) (req : ChatCompletionRequest F) (vars : Vars) (s : State F W)
      → IsIdle s.worker
      → AnswersEncode (forward_to_provider env s.registry req s.world).0
      → is_answer (or_serve env e req vars s).0.0 ≡ true
      → (resp : ChatCompletionResponse) × ((or_serve env e req vars s).0.0
          ≡ respond req.stream resp)
        × (or_serve env e req vars (or_serve env e req vars s).1
            ≡ (answer_with req.stream "cache_l1" true resp vars, (or_serve env e req vars s).1))
  unfolding fail_with
  or_serve-repeat (some e) req vars s idle j h = ground (arith, h)
  or_serve-repeat none req vars s idle j h =
      let (resp, reply, holds) = serve-Answered req vars s idle j h in
      (resp, reply, serve-Holds req vars (serve env req vars s).1 resp holds)

  -- The request, and the same request in the state that it leaves.
  abbrev pub first : WorkflowRequestContext → ChatCompletionRequest F → State F W → Result env
  first meta req s = handle_chat env meta (bound req) s

  abbrev pub again : WorkflowRequestContext → ChatCompletionRequest F → State F W → Result env
  again meta req s = handle_chat env meta (bound req) (first meta req s).1

  -- With the caches on, a Redis that answers without error, no worker or one with no address, and if
  -- the JSON of what the providers would answer decodes to it: a request that is answered with a
  -- response and sent again at once gets the same answer, from the exact cache, and changes nothing:
  -- neither the providers nor the worker are called.
  pub handle_chat-repeat :
      (meta : WorkflowRequestContext) (req : ChatCompletionRequest F) (s : State F W)
      → IsIdle s.worker
      → AnswersEncode
          (forward_to_provider env s.registry
            (apply_workflow_route_policy env.config.workflow req meta.step_type)
            s.world).0
      → is_answer (handle_chat env meta (bound req) s).0.0 ≡ true
      → ((again meta req s).0.0 ≡ (first meta req s).0.0)
        × ((again meta req s).1 ≡ (first meta req s).1)
        × ((again meta req s).0.1.upstream_provider ≡ "cache_l1")
        × ((again meta req s).0.1.cache_hit ≡ true)
  unfolding handle_chat answer_with
  handle_chat-repeat meta req s idle j h =
      let req' = apply_workflow_route_policy env.config.workflow req meta.step_type in
      let vars = record start_vars {
        requested_model = trim_space req.model;
        request_model = req'.model;
      } in
      let (resp, reply, second) =
        or_serve-repeat (validate_chat_request env.float req') req' vars s idle j h in
      (
        ap (λ (p : Result env). p.0.0) second ∙ sym reply,
        ap (λ (p : Result env). p.1) second,
        ap (λ (p : Result env). p.0.1.upstream_provider) second,
        ap (λ (p : Result env). p.0.1.cache_hit) second,
      )
