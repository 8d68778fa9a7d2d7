-- ===== src/Embedding/Counted.antt =====
-- embedding.go: the answer of the embedding endpoint, and what it leaves in the records.
use high_performance_llm_gat.Prelude.{ℕ, String, Option, none, some, ◌≡◌, refl, ap, arith}
use high_performance_llm_gat.Prelude.Int.{pos, sub_ℕ}
use high_performance_llm_gat.Registry.{System}
use high_performance_llm_gat.Storage.{Postgres}
use high_performance_llm_gat.Worker as Worker
use high_performance_llm_gat.Worker.{
  Client, Settings, Transport, Generated, done, failed, generate, new_client,
}
use high_performance_llm_gat.Worker.Retry.{HasResult, generate-bounded}
use high_performance_llm_gat.Workflow.{Outside}
use high_performance_llm_gat.Recording.{Records}
use high_performance_llm_gat.Recording.Counted.{IsCounted, record_request-IsCounted}
use high_performance_llm_gat.Chat.{WorkflowRequestContext}
use high_performance_llm_gat.Embedding.{
  EmbeddingRequest, EmbeddingReply, json_reply, error_reply, panicked, Vars, Bound, bound, unbound,
  fail_with, after_generate, call_worker, handle_embedding, metric_of, trace_of, embedding_handler,
}

-- The status of an answer; no answer is a panic.
abbrev pub status_of : {F : Type 0} → EmbeddingReply F → ℕ
status_of (json_reply resp) = 200
status_of (error_reply status body) = status
status_of panicked = 500

abbrev pub IsAnswer : {F : Type 0} → EmbeddingReply F → Type 0
IsAnswer (json_reply resp) = Unit
IsAnswer (error_reply status body) = Unit
IsAnswer panicked = ⊥

-- What the deferred function reads after an answer.
IsRecorded : {F : Type 0} → EmbeddingReply F × Vars → Type 0
IsRecorded p = IsAnswer p.0 × (p.1.status_code ≡ status_of p.0)

after_generate-IsRecorded :
    {F : Type 0} (v : Vars) (o : Option (Generated F))
    → HasResult o
    → IsRecorded (after_generate v o)
unfolding IsRecorded after_generate fail_with
after_generate-IsRecorded v none h = absurd h
after_generate-IsRecorded v (some (failed e)) h = (tt, refl)
after_generate-IsRecorded v (some (done resp)) h = (tt, refl)

-- The client that the server makes of the settings, or nil.
abbrev pub client_of : Option Settings → Option Client
client_of none = none
client_of (some cfg) = some (new_client cfg)

module _ {F I W : Type 0} (t : Transport F I W) where
  generate-HasResult :
      (cfg : Settings) (req : Worker.Request I) (w : W)
      → HasResult (generate t (some (new_client cfg)) req w).0
  generate-HasResult cfg req w =
      (generate-bounded t cfg req w (λ w. 0) (λ url p w. omega arith) (λ b w. omega arith)).0

  call_worker-IsRecorded :
      (worker : Option Settings) (req : EmbeddingRequest I) (v : Vars) (w : W)
      → IsRecorded (call_worker t (client_of worker) req v w).0
  unfolding IsRecorded call_worker fail_with
  call_worker-IsRecorded none req v w = (tt, refl)
  call_worker-IsRecorded (some cfg) req v w =
      after_generate-IsRecorded v _
        (generate-HasResult cfg (record { input = req.input; model = req.model }) w)

  handle_embedding-IsRecorded :
      (worker : Option Settings) (b : Bound I) (w : W)
      → IsRecorded (handle_embedding t (client_of worker) b w).0
  unfolding IsRecorded handle_embedding fail_with
  handle_embedding-IsRecorded worker (unbound e partial) w = (tt, refl)
  handle_embedding-IsRecorded worker (bound req) w = call_worker-IsRecorded worker _ _ w

module _ {F I W : Type 0} (sys : System W) (t : Transport F I W) (out : Outside F W)
    (postgres : Option (Postgres F W)) where
  -- Whatever the worker's settings, the request and what the worker sends, the endpoint answers with
  -- embeddings or with an error and never panics, and the request is counted once in the statistics,
  -- in the total and for one model, and, if it names a session, once in the summary of that session:
  -- for the model and for the session as an error if and only if the status of the answer is 400 or
  -- more.
  pub embedding_handler-IsCounted :
      (worker : Option Settings) (meta : WorkflowRequestContext) (key : String) (b : Bound I)
      (r : Records F) (w : W)
      → let a = embedding_handler sys t out postgres (client_of worker) meta key b r w in
        IsAnswer a.reply × IsCounted out.float (pos (status_of a.reply)) meta.session_id r a.records
  unfolding IsRecorded embedding_handler metric_of trace_of
  embedding_handler-IsCounted worker meta key b r w =
      let start = sys.now w in
      let o = handle_embedding t (client_of worker) b start.1 in
      let end = sys.now o.1 in
      let latency = sub_ℕ end.0 start.0 in
      let recorded = handle_embedding-IsRecorded t worker b start.1 in
      (
        recorded.0,
        record_request-IsCounted out postgres key (metric_of o.0.1 latency)
            (trace_of out.float.zero meta o.0.1 latency) (status_of o.0.0) r end.1
            (ap pos recorded.1) (ap pos recorded.1),
      )
