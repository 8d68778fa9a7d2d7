-- ===== src/Provider/HttpLaws.antt =====
-- http_provider.go: what the client makes of an HTTP exchange.
use text.Mathlib.Text.{◌==◌ as str_eq}
use high_performance_llm_gat.Prelude.{
  ℕ, ◌+◌, ◌≤◌, ◌≡◌, refl, String, Bool, true, false, ◌||◌, arith, if◌then◌else◌, Option-cases,
  Bool-cases, inl, inr,
}
use high_performance_llm_gat.Prelude.Text.{is_blank, ◌++ₛ◌}
use high_performance_llm_gat.Cache.{Reply, ok, fault}
use high_performance_llm_gat.Provider.{
  ChatCompletionRequest, ChatCompletionResponse, Outcome, answer, failure,
}
use high_performance_llm_gat.Provider.Http.{
  OpenAiCompatibleProvider, Http, is_success, completed, decoded, read_body, after_exchange, send,
  http_chat_completion,
}

-- The provider has no address or no key.
abbrev pub unconfigured : OpenAiCompatibleProvider → Bool
unconfigured p = str_eq p.base_url "" || str_eq p.api_key ""

module _ {F W : Type 0} (http : Http F W) (p : OpenAiCompatibleProvider) where
  -- A response that was read of a reply: a reply with a status of success, whose body decodes to the
  -- response, less the provider's name and the model that was asked for where it names none.
  pub record IsRead (req : ChatCompletionRequest F) (r : Reply (ℕ × Reply String))
      (resp : ChatCompletionResponse) : Type 0 where
    pub status : ℕ
    pub body : String
    pub raw : ChatCompletionResponse
    pub replied : r ≡ ok (status, ok body)
    pub success : is_success status ≡ true
    pub decodes : http.unmarshal body ≡ ok raw
    pub named : resp ≡ record raw {
      model = if is_blank raw.model then req.model else raw.model;
      provider = p.name;
    }

  -- An error names the provider and has no status of success.
  abbrev IsFrom : ChatCompletionRequest F → Reply (ℕ × Reply String) → Outcome → Type 0
  IsFrom req r (answer resp) = IsRead req r resp
  IsFrom req r (failure e) = (e.provider ≡ p.name) × (is_success e.status_code ≡ false)

  decoded-IsFrom :
      (req : ChatCompletionRequest F) (status : ℕ) (body : String)
      (r : Reply ChatCompletionResponse)
      → is_success status ≡ true
      → http.unmarshal body ≡ r
      → IsFrom req (ok (status, ok body)) (decoded http p req body r)
  unfolding decoded completed
  decoded-IsFrom req status body (fault e) good d = (refl, refl)
  decoded-IsFrom req status body (ok raw) good d = record {
    status = status;
    body = body;
    raw = raw;
    replied = refl;
    success = good;
    decodes = d;
    named = refl;
  }

  read_body-IsFrom :
      (req : ChatCompletionRequest F) (status : ℕ) (body : Reply String)
      → IsFrom req (ok (status, body)) (read_body http p req status body)
  unfolding read_body
  read_body-IsFrom req status (fault e) = (refl, refl)
  read_body-IsFrom req status (ok body) = elim (Bool-cases (is_success status)) [
    | inl good ↦ rw good (decoded-IsFrom req status body (http.unmarshal body) good refl)
    | inr bad ↦ rw bad (refl, bad)
  ]

  after_exchange-IsFrom :
      (req : ChatCompletionRequest F) (r : Reply (ℕ × Reply String))
      → IsFrom req r (after_exchange http p req r)
  unfolding after_exchange
  after_exchange-IsFrom req (fault e) = (refl, refl)
  after_exchange-IsFrom req (ok (status, body)) = read_body-IsFrom req status body

  -- A response was read of the reply to the request's JSON, which was posted with the provider's key
  -- to its address; an error names the provider and has no status of success.
  abbrev pub IsNamed : ChatCompletionRequest F → W → Outcome → Type 0
  IsNamed req w (answer resp) =
      (payload : String) × (http.marshal req ≡ ok payload)
      × IsRead req (http.exchange (p.base_url ++ₛ "/chat/completions") p.api_key payload w).0 resp
  IsNamed req w (failure e) = (e.provider ≡ p.name) × (is_success e.status_code ≡ false)

  IsFrom-IsNamed :
      (req : ChatCompletionRequest F) (payload : String) (w : W) (o : Outcome)
      → http.marshal req ≡ ok payload
      → IsFrom req (http.exchange (p.base_url ++ₛ "/chat/completions") p.api_key payload w).0 o
      → IsNamed req w o
  IsFrom-IsNamed req payload w (answer resp) m h = (payload, m, h)
  IsFrom-IsNamed req payload w (failure e) m h = h

  -- One call sends one request at most: `calls` counts the requests that the world has seen.
  record IsOneCall (calls : W → ℕ) (req : ChatCompletionRequest F) (w : W) (o : Outcome × W)
      : Type 0 where
    named : IsNamed req w o.0
    once : calls o.1 ≤ calls w + 1

  send-IsOneCall :
      (calls : W → ℕ) (req : ChatCompletionRequest F) (r : Reply String) (w : W)
      → http.marshal req ≡ r
      → ((url key payload : String) (w : W)
          → calls (http.exchange url key payload w).1 ≤ calls w + 1)
      → IsOneCall calls req w (send http p req r w)
  unfolding send
  send-IsOneCall calls req (fault e) w m h = record { named = (refl, refl); once = omega arith }
  send-IsOneCall calls req (ok payload) w m h =
      let url = p.base_url ++ₛ "/chat/completions" in
      let (reply, w') = http.exchange url p.api_key payload w in
      elim (Option-cases (http.build url payload)) [
        | inr (e, built) ↦ rw (built, send) (record { named = (refl, refl); once = omega arith })
        | inl built ↦
            rw (built, send)
              (record {
                named = IsFrom-IsNamed req payload w _ m (after_exchange-IsFrom req reply);
                once = h url p.api_key payload w;
              })
      ]

  -- A call of a provider gives a response only if the reply to the request's JSON has a status from
  -- 200 to 299 and a body that decodes: it is the decoded response under the provider's name, with
  -- the model that was asked for if it names none. Or it gives an error that names the provider and
  -- has no such status. It sends one request at most, and none if the provider has no address or no
  -- key: an exchange adds one to the calls at most.
  pub http_chat_completion-IsNamed :
      (calls : W → ℕ) (req : ChatCompletionRequest F) (w : W)
      → ((url key payload : String) (w : W)
          → calls (http.exchange url key payload w).1 ≤ calls w + 1)
      → IsNamed req w (http_chat_completion http p req w).0
        × (calls (http_chat_completion http p req w).1
            ≤ calls w + (if unconfigured p then 0 else 1))
  unfolding http_chat_completion
  http_chat_completion-IsNamed calls req w h = elim (Bool-cases (unconfigured p)) [
    | inl bare ↦ rw bare ((refl, refl), omega arith)
    | inr set ↦
        let sent = send-IsOneCall calls req (http.marshal req) w refl h in
        rw set (sent.named, sent.once)
  ]
