-- ===== src/Server/Guarded.antt =====
-- main.go: which requests of the chat route reach which handler, and what they leave.
use mathlib.Core.Path.{subst}
use high_performance_llm_gat.Prelude.{
  ℕ, Bool, false, Option-cases, String, Option, none, some, ◌≡◌, ◌⊎◌, inl, inr, refl, arith, ◌↔◌,
  true,
}
use high_performance_llm_gat.Prelude.Int.{pos}
use high_performance_llm_gat.Prelude.Float.{Float}
use high_performance_llm_gat.Errors.{http_status}
use high_performance_llm_gat.Cache.{Redis}
use high_performance_llm_gat.Workflow.{Outside}
use high_performance_llm_gat.RateLimit as RateLimit
use high_performance_llm_gat.RateLimit.{Limits, rate_limit, extract_model}
use high_performance_llm_gat.RateLimit.Admission as Admission
use high_performance_llm_gat.Auth as Auth
use high_performance_llm_gat.Auth.{api_key_auth, KeyMetadata}
use high_performance_llm_gat.Auth.Laws as Laws
use high_performance_llm_gat.Chat.{extract_workflow_request_context}
use high_performance_llm_gat.Chat.Caching.{Env}
use high_performance_llm_gat.Chat.Handler.{Bound}
use high_performance_llm_gat.Chat.Counted.{status_of, chat_endpoint-IsCounted}
use high_performance_llm_gat.Recording.Counted.{IsCounted}
use high_performance_llm_gat.Storage.Connect.{Dial}
use high_performance_llm_gat.Config.{Config}
use high_performance_llm_gat.Server.Startup.{Respects, init_storage-Respects}
use high_performance_llm_gat.Server.{
  Connections, HttpRequest, Gateway, Ending, unauthorized, limited, served, Libraries, after_limits,
  after_auth, chat_route, is_some, init_storage, running, is_debug,
}

-- The session that the headers name.
abbrev pub session_of : HttpRequest → String
session_of req = (extract_workflow_request_context req.header).session_id

module _ {F W : Type 0} where
  -- Nothing of the chat endpoint changed but the world, which Redis is a part of.
  pub record IsSpared (before after : Gateway F W) : Type 0 where
    pub registry : after.state.registry ≡ before.state.registry
    pub worker : after.state.worker ≡ before.state.worker
    pub records : after.records ≡ before.records

  -- A request that is turned away has status 401 or 429 and spares the endpoint, with status 401 the
  -- rate limits too; one that is served is counted once, with the status of its answer.
  abbrev pub IsHandled : Float F → String → Gateway F W → Ending × Gateway F W → Type 0
  IsHandled fl session g (unauthorized e, g') =
      (http_status e ≡ 401) × (g'.limits ≡ g.limits) × IsSpared g g'
  IsHandled fl session g (limited e, g') = (http_status e ≡ 429) × IsSpared g g'
  IsHandled fl session g (served reply, g') =
      IsCounted fl (pos (status_of reply)) session g.records g'.records

module _ {F W : Type 0} (env : Env F W) (lib : Libraries env) (out : Outside F W)
    (c : Connections F W) where
  after_limits-IsHandled :
      (req : HttpRequest) (key : Option KeyMetadata) (b : Bound env) (g : Gateway F W) (w : W)
      (v : Limits F × RateLimit.Verdict)
      → (Admission.status_of v.1 ≡ none) ⊎ (Admission.status_of v.1 ≡ some 429)
      → IsHandled out.float (session_of req) g (
          after_limits env lib out c req key b
            (record g { state = record (g.state) { world = w } })
            v)
  unfolding after_limits
  after_limits-IsHandled req key b g w (limits, RateLimit.pass) h =
      chat_endpoint-IsCounted env out c.postgres _ _ b (record (g.state) { world = w }) g.records
  after_limits-IsHandled req key b g w (limits, RateLimit.reject e) h =
      (ground (arith, h), record { registry = refl; worker = refl; records = refl })

  limits_status :
      (l : Limits F) (model : String) (t1 t2 : ℕ)
      → (Admission.status_of (rate_limit env.float l model t1 t2).1 ≡ none)
        ⊎ (Admission.status_of (rate_limit env.float l model t1 t2).1 ≡ some 429)
  limits_status l model t1 t2 =
      let e = (Admission.rate_limit-verdict env.float l model t1 t2).0 in ground (arith, e)

  after_auth-IsHandled :
      (req : HttpRequest) (g : Gateway F W) (v : Auth.Verdict × W)
      → (Laws.status_of v.0 ≡ none) ⊎ (Laws.status_of v.0 ≡ some 401)
      → IsHandled out.float (session_of req) g (after_auth env lib out c req g v)
  unfolding after_auth
  after_auth-IsHandled req g (Auth.rejected e, w) h =
      (ground (arith, h), refl, record { registry = refl; worker = refl; records = refl })
  after_auth-IsHandled req g (Auth.passed key, w) h =
      let (model, body) = extract_model lib.decode_model req.source in
      after_limits-IsHandled req key (lib.bind body) g w
        (rate_limit env.float g.limits model req.model_time req.global_time)
        (limits_status g.limits model req.model_time req.global_time)

  -- Whatever the request, the services and the state: a request is turned away with status 401 and
  -- leaves the rate limits, the breakers, the worker client and the records as they are, or with
  -- status 429 and leaves all of these but the limits, or it is served and counted once in the
  -- statistics, in the total and for one model, and, if it names a session, in the session's summary:
  -- for the model and for the session as an error if and only if the status of its answer is 400 or
  -- more; a request whose handler panics counts as one with status 200.
  pub chat_route-IsHandled :
      (req : HttpRequest) (g : Gateway F W)
      → IsHandled out.float (session_of req) g (chat_route env lib out c req g)
  unfolding chat_route
  chat_route-IsHandled req g = after_auth-IsHandled req g _ (
      Laws.api_key_auth-status lib.hash lib.hgetall (is_some c.redis) req.authorization
        g.state.world)

-- Whether the request got past the check of its API key.
abbrev pub is_admitted : Ending → Bool
is_admitted (unauthorized e) = false
is_admitted (limited e) = true
is_admitted (served reply) = true

module _ {F W : Type 0} (env : Env F W) (lib : Libraries env) (out : Outside F W) where
  after_limits_admitted :
      (c : Connections F W) (req : HttpRequest) (key : Option KeyMetadata) (b : Bound env)
      (g : Gateway F W) (v : Limits F × RateLimit.Verdict)
      → is_admitted (after_limits env lib out c req key b g v).0 ≡ true
  unfolding after_limits
  after_limits_admitted c req key b g (limits, RateLimit.pass) = refl
  after_limits_admitted c req key b g (limits, RateLimit.reject e) = refl

  after_auth_admitted :
      (c : Connections F W) (req : HttpRequest) (g : Gateway F W) (v : Auth.Verdict × W)
      → (is_admitted (after_auth env lib out c req g v).0 ≡ true) ↔ (Laws.status_of v.0 ≡ none)
  unfolding after_auth
  after_auth_admitted c req g (Auth.rejected e, w) =
      (λ h. ground (arith, h), λ h. ground (arith, h))
  after_auth_admitted c req g (Auth.passed key, w) =
      let (model, body) = extract_model lib.decode_model req.source in
      (
        λ h. refl,
        λ h.
            after_limits_admitted c req key (lib.bind body)
              (record g { state = record (g.state) { world = w } })
              (rate_limit env.float g.limits model req.model_time req.global_time),
      )

  -- With a Redis client a request gets to the rate limits and the chat endpoint if and only if its
  -- Authorization header is `Bearer`, a space and a key for whose hash Redis has a record that is
  -- not empty.
  chat_route_admitted :
      (c : Connections F W) (redis : Redis W) (req : HttpRequest) (g : Gateway F W)
      → c.redis ≡ some redis
      → (is_admitted (chat_route env lib out c req g).0 ≡ true)
        ↔ Laws.IsKnown lib.hash lib.hgetall req.authorization g.state.world
  unfolding chat_route
  chat_route_admitted c redis req g e =
      let auth = api_key_auth lib.hash lib.hgetall true req.authorization g.state.world in
      let route = after_auth_admitted c req g auth in
      let known = Laws.api_key_auth_iff lib.hash lib.hgetall req.authorization g.state.world in
      rw e (λ h. known.0 (route.0 h), λ k. route.1 (known.1 k))

  -- A server whose mode is not debug and that has not exited lets a chat request get past the check
  -- of its key if and only if its Authorization header is `Bearer`, a space and a key for whose hash
  -- Redis has a record that is not empty. Whether the record calls the key active or expired does not
  -- matter.
  pub release-is_admitted :
      (dial : Dial F W) (cfg : Config F) (w w' : W) (c : Connections F W) (req : HttpRequest)
      (g : Gateway F W)
      → is_debug cfg ≡ false
      → init_storage dial cfg w ≡ running c w'
      → (is_admitted (chat_route env lib out c req g).0 ≡ true)
        ↔ Laws.IsKnown lib.hash lib.hgetall req.authorization g.state.world
  release-is_admitted dial cfg w w' c req g mode start =
      let ready : Respects false (running c w') = subst (Respects false) start (
        subst (λ d. Respects d (init_storage dial cfg w)) mode
          (init_storage-Respects dial cfg w)) in
      elim (Option-cases c.redis) [
        | inl missing ↦ absurd (ready.0 missing)
        | inr (redis, e) ↦ chat_route_admitted c redis req g e
      ]
