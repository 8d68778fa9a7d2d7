-- ===== src/Chat/Counted.antt =====
-- chat.go: what a request leaves in the statistics and in the tracer, against its answer.
use high_performance_llm_gat.Prelude.{ℕ, String, Option, ◌≡◌, ap}
use high_performance_llm_gat.Prelude.Int.{pos, sub_ℕ}
use high_performance_llm_gat.Storage.{Postgres}
use high_performance_llm_gat.Workflow.{Outside}
use high_performance_llm_gat.Recording.{Records}
use high_performance_llm_gat.Recording.Counted.{IsCounted, record_request-IsCounted}
use high_performance_llm_gat.Chat.{WorkflowRequestContext}
use high_performance_llm_gat.Chat.Caching.{Env}
use high_performance_llm_gat.Chat.Handler.{
  State, HttpReply, json_reply, event_stream, error_reply, panicked, Vars, Bound, handle_chat,
}
use high_performance_llm_gat.Chat.Recorded.{IsRecorded, handle_chat-IsRecorded}
use high_performance_llm_gat.Chat.Recording.{metric_of, trace_of, record_chat, chat_endpoint}

-- The status that the handler sets; a panic leaves the one that was set before it.
abbrev pub status_of : HttpReply → ℕ
status_of (json_reply resp) = 200
status_of (event_stream events) = 200
status_of (error_reply status body) = status
status_of panicked = 200

IsRecorded-status_of :
    (reply : HttpReply) (v : Vars) → IsRecorded reply v → v.status_code ≡ status_of reply
IsRecorded-status_of (json_reply resp) v h = h.0
IsRecorded-status_of (event_stream events) v h = h.0
IsRecorded-status_of (error_reply status body) v h = h.status
IsRecorded-status_of panicked v h = h

module _ {F W : Type 0} (env : Env F W) (out : Outside F W) (postgres : Option (Postgres F W)) where
  -- Whatever the request, the state and the services answer, the request is counted once in the
  -- statistics, in the total and for one model, and, if it names a session, once in the summary of
  -- that session: for the model and for the session as an error if and only if the status of its
  -- answer is 400 or more; one that panics counts as one with status 200.
  pub chat_endpoint-IsCounted :
      (meta : WorkflowRequestContext) (key : String) (b : Bound env) (s : State F W) (r : Records F)
      → let a = chat_endpoint env out postgres meta key b s r in
        IsCounted out.float (pos (status_of a.reply)) meta.session_id r a.records
  unfolding chat_endpoint record_chat metric_of trace_of
  chat_endpoint-IsCounted meta key b s r =
      let start = env.sys.now s.world in
      let before = record s { world = start.1 } in
      let o = handle_chat env meta b before in
      let end = env.sys.now o.1.world in
      let latency = sub_ℕ end.0 start.0 in
      let told =
        ap pos (IsRecorded-status_of o.0.0 o.0.1 (handle_chat-IsRecorded env meta b before)) in
      record_request-IsCounted out postgres key (metric_of o.0.1 latency)
        (trace_of out.float.zero meta o.0.1 latency) (status_of o.0.0) r end.1 told told
