-- ===== src/Worker.antt =====
-- internal/service/embeddingworker/client.go: the embedding worker's client, with its retries and
-- its cached health check. `W` is the state of the world outside the client, and times and
-- durations are in nanoseconds.
pub mod Retry
pub mod Health
use Prim.Native.String
use text.Mathlib.Text.{◌==◌ as str_eq}
use high_performance_llm_gat.Prelude.{
  ℕ, zero, suc, ◌+◌, ◌*◌, String, List, Option, none, some, Bool, true, false, not, ◌&&◌, ◌||◌,
  ◌==◌, leb, ltb, if◌then◌else◌,
}
use high_performance_llm_gat.Prelude.Int.{ℤ, pos, negsuc, ltb_ℤ, scale, wrap}
use high_performance_llm_gat.Prelude.Text.{trim_space, trim_slashes, is_blank, take_text, ◌++ₛ◌}
use high_performance_llm_gat.Breaker.{positive_or, second}

pub record Usage : Type 0 where
  pub prompt_tokens : ℤ
  pub completion_tokens : ℤ
  pub total_tokens : ℤ

pub record DataEntry (F : Type 0) : Type 0 where
  pub object : String
  pub embedding : List F
  pub index : ℤ

pub record Response (F : Type 0) : Type 0 where
  pub object : String
  pub entries : List (DataEntry F)
  pub model : String
  pub usage : Usage

-- The input is an arbitrary JSON value, of a type `I`.
pub record Request (I : Type 0) : Type 0 where
  pub input : I
  pub model : String

-- `err` is the text of the wrapped Go error, if there is one.
pub record WorkerError : Type 0 where
  pub status_code : ℕ
  pub message : String
  pub err : Option String

abbrev worker_text : Option String → String
worker_text none = "embedding worker error"
worker_text (some e) = e

-- `(*WorkerError).Error`
unfoldable pub worker_error_text : Option WorkerError → String
worker_error_text none = ""
worker_error_text (some e) = if not (str_eq e.message "") then e.message else worker_text e.err

abbrev pub retry_status : ℕ → Bool
retry_status s = s == 429 || s == 500 || s == 502 || s == 503 || s == 504

abbrev wrapped : Option String → Bool
wrapped none = false
wrapped (some e) = true

unfoldable pub retryable : WorkerError → Bool
retryable e = wrapped e.err || retry_status e.status_code

-- A Go result with an error.
pub data Reply (A : Type 0) : Type 0 where
  ok : A → Reply A
  fault : String → Reply A

pub record Settings : Type 0 where
  pub address : String
  pub timeout : ℤ
  pub retry_max : ℤ
  pub retry_backoff : ℤ
  pub health_ttl : ℤ

-- The client's fields, less the HTTP client, whose timeout is kept.
pub record Client : Type 0 where
  pub base_url : String
  pub http_timeout : ℕ
  pub retry_max : ℕ
  pub retry_backoff : ℕ
  pub health_ttl : ℕ
  pub last_health_at : ℕ
  pub last_health_value : Bool

unfoldable pub new_client : Settings → Client
new_client cfg = record {
  base_url = trim_slashes (trim_space cfg.address);
  http_timeout = positive_or (5 * second) cfg.timeout;
  retry_max = positive_or 3 cfg.retry_max;
  retry_backoff = positive_or 300_000_000 cfg.retry_backoff;
  health_ttl = positive_or (10 * second) cfg.health_ttl;
  last_health_at = 0;
  last_health_value = false;
}

-- What the client uses of encoding/json, net/http and time. `exchange` is `httpClient.Do` on a POST
-- with the status and the reading of the body; `status_of` is a GET, none for a request that cannot
-- be built or sent; `sleep` waits for a timer, and false means that the context ended first.
pub record Transport (F I W : Type 0) : Type 0 where
  pub encode : Request I → Reply String
  pub build : String → String → Option String
  pub exchange : String → String → W → Reply (ℕ × Reply String) × W
  pub decode : String → Reply (Response F)
  pub envelope : String → Option (String × String)
  pub status_of : String → W → Option ℕ × W
  pub sleep : ℤ → W → Bool × W
  pub now : W → ℕ × W

abbrev pub worker_failure : ℕ → String → Option String → WorkerError
worker_failure status message err = record { status_code = status; message = message; err = err }

-- The text of a body that is no envelope with a message.
abbrev body_text : String → String
body_text body = take_text 512 (trim_space body)

unfoldable pub parse_worker_error_message : (String → Option (String × String)) → String → String
parse_worker_error_message envelope body =
    if str_eq body ""
    then "embedding worker returned empty error response"
    else elim (envelope body) [
      | none ↦ body_text body
      | some (inner, outer) ↦
          if not (str_eq inner "")
          then inner
          else if not (str_eq outer "")
          then outer
          else body_text body
    ]

-- A call of the worker: a response or an error.
pub data Generated (F : Type 0) : Type 0 where
  done : Response F → Generated F
  failed : WorkerError → Generated F

-- `generateOnce` once the body has been read.
unfoldable pub read_reply : {F I W : Type 0} → Transport F I W → ℕ → Reply String → Generated F
read_reply t status (fault e) =
    failed (worker_failure 502 "failed to read embedding worker response" (some e))
read_reply t status (ok body) =
    if not (status == 200)
    then failed (worker_failure status (parse_worker_error_message t.envelope body) none)
    else elim (t.decode body) [
      | ok out ↦ done out
      | fault e ↦ failed (worker_failure 502 "failed to parse embedding worker response" (some e))
    ]

unfoldable pub after_exchange :
    {F I W : Type 0} → Transport F I W → Reply (ℕ × Reply String) → Generated F
unfolding read_reply
after_exchange t (fault e) = failed (worker_failure 503 "failed to call embedding worker" (some e))
after_exchange t (ok (status, body)) = read_reply t status body

unfoldable pub generate_once :
    {F I W : Type 0} → Transport F I W → Client → Request I → W → Generated F × W
unfolding after_exchange
generate_once t c req w = elim (t.encode req) [
  | fault e ↦ (failed (worker_failure 400 "failed to marshal embedding request" (some e)), w)
  | ok payload ↦
      let url = c.base_url ++ₛ "/embeddings" in
      let (reply, w') = t.exchange url payload w in
      elim (t.build url payload) [
        | some e ↦
            (failed (worker_failure 502 "failed to build embedding worker request" (some e)), w)
        | none ↦ (after_exchange t reply, w')
      ]
]

-- `backoff = backoff * 2`, and 2 s if that is more.
unfoldable pub next_backoff : ℤ → ℤ
next_backoff b =
    let twice = wrap (scale 2 b) in
    if ltb_ℤ (pos (2 * second)) twice then pos (2 * second) else twice

abbrev pub cancelled : WorkerError
cancelled = worker_failure 503 "embedding worker request cancelled" (some "context ended")

-- The loop of `Generate`, with `n` attempts left. `none` is the result nil, nil, which stands after
-- no attempt at all.
unfoldable pub retry :
    {F I W : Type 0}
    → Transport F I W
    → Client
    → Request I
    → ℕ
    → Option WorkerError
    → ℤ
    → W
    → Option (Generated F) × W
retry t c req zero none backoff w = (none, w)
retry t c req zero (some e) backoff w = (some (failed e), w)
retry t c req (suc n) last backoff w =
    let (result, w') = generate_once t c req w in
    elim result [
      | done resp ↦ (some (done resp), w')
      | failed e ↦ elim (not (retryable e) || n == 0) [
        | true ↦ (some (failed e), w')
        | false ↦
            let (fired, w'') = t.sleep backoff w' in
            elim fired [
              | false ↦ (some (failed cancelled), w'')
              | true ↦ retry t c req n (some e) (next_backoff backoff) w''
            ]
      ]
    ]

abbrev pub default_model : String → String
default_model m = if is_blank m then "text-embedding-ada-002" else m

-- `Generate`; the client may be nil.
unfoldable pub generate :
    {F I W : Type 0} → Transport F I W → Option Client → Request I → W → Option (Generated F) × W
unfolding retry
generate t none req w =
    (some (failed (worker_failure 503 "embedding worker is not configured" none)), w)
generate t (some c) req w =
    if str_eq c.base_url ""
    then (some (failed (worker_failure 503 "embedding worker is not configured" none)), w)
    else retry t c (record req { model = default_model req.model }) c.retry_max none
        (pos c.retry_backoff) w

abbrev reachable : Option ℕ → Bool
reachable none = false
reachable (some status) = ltb status 500

unfoldable pub probe_health : {F I W : Type 0} → Transport F I W → Client → W → Bool × W
probe_health t c w =
    let (first, w1) = t.status_of (c.base_url ++ₛ "/health") w in
    let (other, w2) = t.status_of (c.base_url ++ₛ "/healthz") w1 in
    if reachable first then (true, w1) else (reachable other, w2)

-- `Healthy` on a client that is not nil; the two sections under the lock are one step each, and one
-- request runs at a time.
unfoldable pub healthy : {F I W : Type 0} → Transport F I W → Client → W → Bool × Client × W
unfolding probe_health
healthy t c w =
    if str_eq c.base_url ""
    then (false, c, w)
    else let (now, w1) = t.now w in
      let (value, w2) = probe_health t c w1 in
      if not (c.last_health_at == 0) && ltb now (c.last_health_at + c.health_ttl)
      then (c.last_health_value, c, w1)
      else (value, record c { last_health_at = now; last_health_value = value }, w2)
