-- ===== src/Chat/Recorded.antt =====
-- chat.go: what the handler answers against what its deferred function records, and which parts of
-- the gateway a request reaches.
use high_performance_llm_gat.Prelude.{
  ℕ, String, List, Option, none, some, Bool, true, false, ◌≡◌, refl,
}
use high_performance_llm_gat.Prelude.Int.{pos}
use high_performance_llm_gat.Errors.{
  GatewayError, ErrorResponse, bad_request_error, code_text, to_error_response,
}
use high_performance_llm_gat.Chat.{
  ChatCompletionRequest, ChatCompletionResponse, WorkflowRequestContext,
}
use high_performance_llm_gat.Registry.{Registry}
use high_performance_llm_gat.Worker.{Client}
use high_performance_llm_gat.Cache.L2.{Ended}
use high_performance_llm_gat.Cache.L2 as L2
use high_performance_llm_gat.Chat.Caching.{Env}
use high_performance_llm_gat.Chat.Stream.{streaming_events}
use high_performance_llm_gat.Chat.Handler.{
  State, HttpReply, json_reply, event_stream, error_reply, panicked, Vars, start_vars, fail_with,
  answer_with, respond, Forwarded, forwarded, refused, finish, after_forward, after_l2, after_l1,
  serve, or_serve, Bound, bound, unbound, handle_chat,
}

-- The variables tell the model and the tokens of a response.
pub record IsUsage (resp : ChatCompletionResponse) (v : Vars) : Type 0 where
  pub model : v.routed_model ≡ resp.model
  pub prompt : v.prompt_tokens ≡ resp.usage.prompt_tokens
  pub completion : v.completion_tokens ≡ resp.usage.completion_tokens
  pub total : v.total_tokens ≡ resp.usage.total_tokens

-- The variables before an answer, which tell of no model and no tokens.
record IsUnset (v : Vars) : Type 0 where
  code : v.error_code ≡ ""
  model : v.routed_model ≡ ""
  prompt : v.prompt_tokens ≡ pos 0
  completion : v.completion_tokens ≡ pos 0
  total : v.total_tokens ≡ pos 0

-- An error is recorded with its status and its code, and with no model and no tokens.
pub record IsFailure (code : ℕ) (body : ErrorResponse) (v : Vars) : Type 0 where
  pub status : v.status_code ≡ code
  pub error : v.error_code ≡ code_text body.error.code
  pub model : v.routed_model ≡ ""
  pub prompt : v.prompt_tokens ≡ pos 0
  pub completion : v.completion_tokens ≡ pos 0
  pub total : v.total_tokens ≡ pos 0

-- What the deferred function records is what was answered: the status, and for an error the code
-- and no tokens, for a response its model and its tokens, the response being the one whose events
-- were written where the answer is a stream. A request that panics is recorded as 200.
abbrev pub IsRecorded : HttpReply → Vars → Type 0
IsRecorded (json_reply resp) v = (v.status_code ≡ 200) × (v.error_code ≡ "") × IsUsage resp v
IsRecorded (event_stream events) v =
    (v.status_code ≡ 200)
    × (v.error_code ≡ "")
    × ((resp : ChatCompletionResponse) × (events ≡ streaming_events resp) × IsUsage resp v)
IsRecorded (error_reply status body) v = IsFailure status body v
IsRecorded panicked v = v.status_code ≡ 200

fail_with-IsRecorded :
    (e : GatewayError) (v : Vars) → IsUnset v → IsRecorded (fail_with e v).0 (fail_with e v).1
unfolding fail_with to_error_response
fail_with-IsRecorded e v u = record {
  status = refl;
  error = refl;
  model = u.model;
  prompt = u.prompt;
  completion = u.completion;
  total = u.total;
}

answer_with-IsRecorded :
    (stream : Bool) (provider : String) (cached : Bool) (resp : ChatCompletionResponse) (v : Vars)
    → IsUnset v
    → IsRecorded
        (answer_with stream provider cached resp v).0
        (answer_with stream provider cached resp v).1
unfolding answer_with respond
answer_with-IsRecorded true provider cached resp v u = (
  refl,
  u.code,
  (resp, refl, record { model = refl; prompt = refl; completion = refl; total = refl }),
)
answer_with-IsRecorded false provider cached resp v u =
    (refl, u.code, record { model = refl; prompt = refl; completion = refl; total = refl })

answer_with-status :
    (stream : Bool) (provider : String) (cached : Bool) (resp : ChatCompletionResponse) (v : Vars)
    → (answer_with stream provider cached resp v).1.status_code ≡ 200
unfolding answer_with
answer_with-status stream provider cached resp v = refl

named_vars-IsUnset :
    (requested model : String)
    → IsUnset (record start_vars { requested_model = requested; request_model = model })
unfolding start_vars
named_vars-IsUnset requested model = record {
  code = refl;
  model = refl;
  prompt = refl;
  completion = refl;
  total = refl;
}

module _ {F W : Type 0} (env : Env F W) where
  finish-IsRecorded :
      (p : HttpReply × Vars) (r : Option (Registry F W)) (q : Option Client × Ended W)
      → IsRecorded p.0 p.1
      → p.1.status_code ≡ 200
      → IsRecorded (finish env p r q).0.0 (finish env p r q).0.1
  unfolding finish
  finish-IsRecorded p r (worker, L2.ended e w) h k = h
  finish-IsRecorded p r (worker, L2.panicked w) h k = k

  after_forward-IsRecorded :
      (req : ChatCompletionRequest F) (key : String) (v : List F) (vars : Vars)
      (worker : Option Client) (o : Forwarded env × Option (Registry F W) × W)
      → IsUnset vars
      → let p = after_forward env req key v vars worker o in IsRecorded p.0.0 p.0.1
  unfolding after_forward
  after_forward-IsRecorded req key v vars worker (refused e, registry, w) u =
      fail_with-IsRecorded e vars u
  after_forward-IsRecorded req key v vars worker (forwarded resp provider, registry, w) u =
      finish-IsRecorded (answer_with req.stream provider false resp vars) _ _
        (answer_with-IsRecorded req.stream provider false resp vars u)
        (answer_with-status req.stream provider false resp vars)

  after_l2-IsRecorded :
      (req : ChatCompletionRequest F) (key : String) (vars : Vars)
      (registry : Option (Registry F W))
      (o : Option ChatCompletionResponse × List F × Option Client × W)
      → IsUnset vars
      → let p = after_l2 env req key vars registry o in IsRecorded p.0.0 p.0.1
  unfolding after_l2
  after_l2-IsRecorded req key vars registry (some resp, v, worker, w) u =
      answer_with-IsRecorded req.stream "cache_l2" true resp vars u
  after_l2-IsRecorded req key vars registry (none, v, worker, w) u =
      after_forward-IsRecorded req key v vars worker _ u

  after_l1-IsRecorded :
      (req : ChatCompletionRequest F) (key : String) (vars : Vars) (s : State F W)
      (o : Option ChatCompletionResponse × W)
      → IsUnset vars
      → let p = after_l1 env req key vars s o in IsRecorded p.0.0 p.0.1
  unfolding after_l1
  after_l1-IsRecorded req key vars s (some resp, w) u =
      answer_with-IsRecorded req.stream "cache_l1" true resp vars u
  after_l1-IsRecorded req key vars s (none, w) u = after_l2-IsRecorded req key vars s.registry _ u

  or_serve-IsRecorded :
      (e : Option String) (req : ChatCompletionRequest F) (vars : Vars) (s : State F W)
      → IsUnset vars
      → let p = or_serve env e req vars s in IsRecorded p.0.0 p.0.1
  unfolding serve
  or_serve-IsRecorded none req vars s u = after_l1-IsRecorded req _ vars s _ u
  or_serve-IsRecorded (some e) req vars s u = fail_with-IsRecorded (bad_request_error e) vars u

  pub handle_chat-IsRecorded :
      (meta : WorkflowRequestContext) (b : Bound env) (s : State F W)
      → IsRecorded (handle_chat env meta b s).0.0 (handle_chat env meta b s).0.1
  unfolding handle_chat start_vars
  handle_chat-IsRecorded meta (unbound e partial) s =
      fail_with-IsRecorded (bad_request_error e)
        (record start_vars { requested_model = ""; request_model = partial.model })
        (named_vars-IsUnset "" partial.model)
  handle_chat-IsRecorded meta (bound req) s = or_serve-IsRecorded _ _ _ s (named_vars-IsUnset _ _)
