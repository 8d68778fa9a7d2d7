-- ===== src/Server/Embeddings.antt =====
-- main.go: what a request of /v1/embeddings leaves.
use high_performance_llm_gat.Prelude.{
  String, List, Option, none, some, ◌≡◌, ◌⊎◌, inl, inr, refl, arith,
}
use high_performance_llm_gat.Prelude.Int.{pos}
use high_performance_llm_gat.Prelude.Float.{Float}
use high_performance_llm_gat.Errors.{GatewayError, http_status}
use high_performance_llm_gat.Cache.{Reply}
use high_performance_llm_gat.Registry.{System}
use high_performance_llm_gat.Worker.{Settings, Transport}
use high_performance_llm_gat.Workflow.{Outside}
use high_performance_llm_gat.Recording.{Records}
use high_performance_llm_gat.Recording.Counted.{IsCounted}
use high_performance_llm_gat.Auth as Auth
use high_performance_llm_gat.Auth.Laws as Laws
use high_performance_llm_gat.Chat.{extract_workflow_request_context}
use high_performance_llm_gat.Embedding.{EmbeddingReply, Bound}
use high_performance_llm_gat.Embedding.Counted.{
  client_of, status_of, IsAnswer, embedding_handler-IsCounted,
}
use high_performance_llm_gat.Server.{
  Connections, key_id, is_some, after_embedding_auth, embedding_route,
}

-- A request is turned away with status 401 and leaves the records, or it gets an answer and is
-- counted once, with the status of its answer.
abbrev pub IsHandled :
    {F W : Type 0}
    → Float F
    → String
    → Records F
    → (GatewayError ⊎ EmbeddingReply F) × Records F × W
    → Type 0
IsHandled fl session r (inl e, r', w) = (http_status e ≡ 401) × (r' ≡ r)
IsHandled fl session r (inr reply, r', w) =
    IsAnswer reply × IsCounted fl (pos (status_of reply)) session r r'

module _ {F I W : Type 0} (sys : System W) (t : Transport F I W) (out : Outside F W)
    (c : Connections F W) (hash : String → String)
    (hgetall : String → W → Reply (List (String × String)) × W) where
  after_embedding_auth-IsHandled :
      (worker : Option Settings) (header : String → String) (b : Bound I) (r : Records F)
      (v : Auth.Verdict × W)
      → (Laws.status_of v.0 ≡ none) ⊎ (Laws.status_of v.0 ≡ some 401)
      → IsHandled out.float
          (extract_workflow_request_context header).session_id
          r
          (after_embedding_auth sys t out c hash hgetall (client_of worker) header b r v)
  after_embedding_auth-IsHandled worker header b r (Auth.rejected e, w) h =
      (ground (arith, h), refl)
  after_embedding_auth-IsHandled worker header b r (Auth.passed key, w) h =
      embedding_handler-IsCounted sys t out c.postgres worker
        (extract_workflow_request_context header) (key_id key) b r w

  -- Whatever the worker's settings, the request and what the worker sends, a request of
  -- /v1/embeddings is turned away with status 401 and leaves the records as they are, or it is
  -- answered with embeddings or with an error, never by a panic, and is counted once in the
  -- statistics, in the total and for one model, and, if it names a session, once in the summary of
  -- that session: for the model and for the session as an error if and only if the status of the
  -- answer is 400 or more.
  pub embedding_route-IsHandled :
      (worker : Option Settings) (header : String → String) (b : Bound I) (r : Records F) (w : W)
      → IsHandled out.float
          (extract_workflow_request_context header).session_id
          r
          (embedding_route sys t out c hash hgetall (client_of worker) header b r w)
  unfolding embedding_route
  embedding_route-IsHandled worker header b r w =
      after_embedding_auth-IsHandled worker header b r _
        (Laws.api_key_auth-status hash hgetall (is_some c.redis) (header "Authorization") w)
