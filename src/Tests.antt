-- ===== src/Tests.antt =====
-- The theorems at concrete inputs: a gateway with two models, a Redis that keeps one hash, and a
-- worker that answers its second call.
mod Fixed
mod Units
mod Routing
mod Store
mod Caches
mod Gateway
mod Records
mod Outer
use high_performance_llm_gat.Prelude.{
  ℕ, zero, suc, ◌+◌, ◌*◌, ◌≡◌, ◌≢◌, String, List, [], ◌∷◌, Option, none, some, Bool, true, false,
  ltb, leb, ◌==◌, arith,
}
use high_performance_llm_gat.Prelude.Int.{pos_part, ℤ, pos}
use high_performance_llm_gat.Prelude.Float.{Float, IsStrict}
use high_performance_llm_gat.Config.{ModelConfig, ProviderConfig, CacheConfig, Config}
use high_performance_llm_gat.Chat as Chat
use high_performance_llm_gat.Provider.{
  ChatMessage, ChatCompletionRequest, ChatCompletionResponse, Outcome, UpstreamError, answer,
  failure,
}
use high_performance_llm_gat.Registry.{System, Registry, Client}

-- Whole numbers in place of floating-point numbers.
abbrev whole : Float ℕ
whole = record {
  zero = 0;
  of_nat = λ n. n;
  of_int = pos_part;
  add = λ a b. a + b;
  mul = λ a b. a * b;
  div = λ a b. a;
  sqrt = λ a. a;
  lt = ltb;
  le = leb;
  eq = ◌==◌;
}

whole-IsStrict : IsStrict whole
whole-IsStrict = record { irrefl = λ a. ground arith; trans = λ a b c h k. ground arith }

-- A clock that the world counts; the lowest number is drawn always.
abbrev counting : System ℕ
counting = record { now = λ w. (w + 100, w + 1); rand_intn = λ n w. (0, w) }

abbrev reply : String → ChatCompletionResponse
reply name = record {
  id = "1";
  object = "chat.completion";
  created = pos 7;
  model = name;
  choices = [];
  usage = record { prompt_tokens = pos 3; completion_tokens = pos 4; total_tokens = pos 7 };
  provider = name;
}

abbrev overloaded : UpstreamError
overloaded = record {
  provider = "";
  model = "";
  status_code = 503;
  message = "busy";
  body = "";
  err = none;
}

abbrev answering : Client ℕ ℕ
answering req w = (answer (reply req.model), w + 10)

abbrev failing : Client ℕ ℕ
failing req w = (failure overloaded, w + 10)

abbrev model_of : String → String → String → ℕ → ModelConfig
model_of name provider fallback weight = record {
  name = name;
  provider = provider;
  weight = pos weight;
  fallback = fallback;
  max_context = pos 0;
  tokenizer = "";
  is_active = true;
}

abbrev no_key : ProviderConfig
no_key = record { api_key = ""; base_url = "" }

abbrev cache_config : CacheConfig ℕ
cache_config = record {
  enabled = true;
  similarity_threshold = 1;
  ttl = pos 60;
  l1_ttl = pos 60;
  max_cache_size = pos 2;
}

abbrev plain_config : Config ℕ
plain_config = record {
  server = record { host = ""; port = pos 8080; mode = "debug" };
  logger = record { level = "info"; format = "json"; output_path = "" };
  database = record { host = ""; port = pos 5432; user = ""; password = ""; db_name = "" };
  redis = record { address = "localhost"; password = ""; db = pos 0 };
  python_worker = record {
    address = "";
    timeout = pos 0;
    retry_max = pos 0;
    retry_backoff = pos 0;
    health_ttl = pos 0;
  };
  providers = record { openai = no_key; anthropic = no_key; minimax = no_key };
  cache = cache_config;
  rate_limit = record { global_qps = pos 10; burst = pos 2; max_tokens = pos 0; model_limits = [] };
  models = [];
  workflow = record { replay_log_path = ""; route_policies = none };
  monitoring = record {
    prometheus = record { enabled = false; port = pos 0 };
    jaeger = record { enabled = false; endpoint = "" };
    otlp = record { enabled = false; endpoint = ""; insecure = false };
  };
}

-- A request of the chat endpoint.
abbrev question : Chat.ChatCompletionRequest ℕ
question = record {
  model = "gpt-4o";
  messages = record { role = "user"; content = "hello"; name = "" } ∷ [];
  temperature = 1;
  max_tokens = pos 9;
  top_p = 1;
  stream = false;
  stop = [];
}
