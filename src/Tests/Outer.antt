-- ===== src/Tests/Outer.antt =====
-- The outer parts of the gateway: a provider over HTTP, the start in release mode, chat requests
-- with a key, the usage in the database, a new key and the requests that a registry sends.
use high_performance_llm_gat.Prelude.{
  ℕ, ◌+◌, ◌≤◌, ◌≡◌, ◌≢◌, ◌↔◌, refl, String, List, [], ◌∷◌, Option, none, some, Bool, true, false,
  arith, length, if◌then◌else◌,
}
use high_performance_llm_gat.Prelude.Int.{pos}
use high_performance_llm_gat.Cache.{ok}
use high_performance_llm_gat.Config.{Config}
use high_performance_llm_gat.Tests.{no_key, model_of, whole, reply, question, plain_config}
use high_performance_llm_gat.Tests.Store.{Table, table_redis}
use high_performance_llm_gat.Tests.Gateway.{gateway, start}
use high_performance_llm_gat.Tests.Records.{outside, fresh}
use high_performance_llm_gat.Provider.Http.{Http, OpenAiCompatibleProvider, http_chat_completion}
use high_performance_llm_gat.Provider.HttpLaws.{IsNamed, unconfigured, http_chat_completion-IsNamed}
use high_performance_llm_gat.Chat.{to_provider_request}
use high_performance_llm_gat.Chat.Handler.{bound}
use high_performance_llm_gat.RateLimit.{new_limits}
use high_performance_llm_gat.Auth.Laws.{IsKnown}
use high_performance_llm_gat.Storage.{
  Postgres, UsageSnapshot, UsageModelStats, row, no_row, get_usage_snapshot,
}
use high_performance_llm_gat.Storage.Usage.{Tells, get_usage_snapshot-Tells}
use high_performance_llm_gat.Storage.Connect.{Dial}
use high_performance_llm_gat.Server.{
  Connections, running, init_storage, HttpRequest, Gateway, Libraries, chat_route, is_debug,
}
use high_performance_llm_gat.Server.Guarded.{
  IsHandled, session_of, is_admitted, chat_route-IsHandled, release-is_admitted,
}
use high_performance_llm_gat.Server.{registry_of}
use high_performance_llm_gat.Server.Requests.{chat_completion-registry_of_calls}
use high_performance_llm_gat.Registry.{System}
use high_performance_llm_gat.Registry.Order.{build_route_queue}
use high_performance_llm_gat.Registry.Route.{chat_completion, model_or_default}
use high_performance_llm_gat.Admin.{CreateKeyRequest, CreatedKey, create_api_key, new_key}
use high_performance_llm_gat.Admin as Admin
use high_performance_llm_gat.Admin.Keys.{create_api_key-stored}

-- An API that answers every request; the world counts them.
abbrev api : Http ℕ ℕ
api = record {
  marshal = λ req. ok req.model;
  build = λ url payload. none;
  exchange = λ url key payload w. (ok (200, ok payload), w + 1);
  unmarshal = λ body. ok (reply body);
  envelope = λ body. none;
}

abbrev openai : OpenAiCompatibleProvider
openai = record { name = "openai"; base_url = "https://api"; api_key = "k" }

http_chat_completion-IsNamed_example :
    IsNamed api openai
      (to_provider_request question)
      0
      (http_chat_completion api openai (to_provider_request question) 0).0
    × ((http_chat_completion api openai (to_provider_request question) 0).1
        ≤ 0 + (if unconfigured openai then 0 else 1))
http_chat_completion-IsNamed_example =
    http_chat_completion-IsNamed api openai (λ w. w) (to_provider_request question) 0
      (λ url key payload w. omega arith)

abbrev usage : UsageModelStats ℕ
usage = record {
  requests = pos 2;
  errors = pos 1;
  total_tokens = pos 7;
  avg_latency_ms = 5;
  last_status = pos 200;
  last_updated_at = "2026-01-01T00:00:00Z";
}

-- A database with the usage of one model, which takes every statement.
abbrev database : Postgres ℕ Table
database = record {
  exec = λ statement w. (none, w);
  key_by_hash = λ hash w. (no_row, w);
  add_key = λ hash name limit w. (no_row, w);
  all_keys = λ w. (ok (record { scanned = []; ended = none }), w);
  totals =
      λ w. (row (record { total_requests = pos 2; total_tokens = pos 7; cache_hit_rate = 0 }), w);
  by_model = λ w. (ok (record { scanned = ok ("gpt-4o", usage) ∷ []; ended = none }), w);
}

abbrev stored : UsageSnapshot ℕ
stored = record {
  total_requests = pos 2;
  total_tokens = pos 7;
  total_cost = 0;
  cache_hit_rate = 0;
  models = ("gpt-4o", usage) ∷ [];
}

read : (get_usage_snapshot whole (some database) []).0 ≡ ok stored
unfolding get_usage_snapshot high_performance_llm_gat.Prelude.Dict.insert
read = refl

get_usage_snapshot-Tells_example : Tells whole database [] stored
get_usage_snapshot-Tells_example = get_usage_snapshot-Tells whole database [] stored read

abbrev dial : Dial ℕ Table
dial = record {
  redis_client = λ cfg. table_redis;
  redis_ping = λ cfg w. (none, w);
  sql_open = λ dsn. ok database;
  sql_ping = λ dsn w. (none, w);
}

abbrev release : Config ℕ
release = record plain_config { server = record { host = ""; port = pos 8080; mode = "release" } }

abbrev connected : Connections ℕ Table
connected = record { redis = some table_redis; postgres = some database }

-- Every key that is asked for has the records of the table.
abbrev libraries : Libraries gateway
libraries = record {
  hash = λ key. key;
  hgetall = λ key w. (ok w, w);
  decode_model = λ body. some "gpt-4o";
  bind = λ body. bound question;
}

abbrev request : String → HttpRequest
request authorization = record {
  authorization = authorization;
  header = λ name. "s";
  source = record {
    query_model = "";
    form_model = "";
    content_type = "application/json";
    body = some (some "{}");
  };
  model_time = 5;
  global_time = 5;
}

abbrev one_key : Gateway ℕ Table
one_key = record {
  limits = new_limits whole release.rate_limit 0;
  state = record start { world = ("id", "7") ∷ [] };
  records = fresh;
}

chat_route-IsHandled_example :
    IsHandled whole
      (session_of (request "Bearer sk-1"))
      one_key
      (chat_route gateway libraries outside connected (request "Bearer sk-1") one_key)
chat_route-IsHandled_example =
    chat_route-IsHandled gateway libraries outside connected (request "Bearer sk-1") one_key

in_release : is_debug release ≡ false
in_release = refl

started : init_storage dial release [] ≡ running connected []
unfolding init_storage
started = refl

release-is_admitted_example :
    (is_admitted (chat_route gateway libraries outside connected (request "Bearer sk-1") one_key).0
      ≡ true)
    ↔ IsKnown libraries.hash libraries.hgetall "Bearer sk-1" one_key.state.world
release-is_admitted_example =
    release-is_admitted gateway libraries outside dial release [] [] connected
      (request "Bearer sk-1") one_key in_release started

-- A clock and a random source that send nothing.
abbrev still : System ℕ
still = record { now = λ w. (100, w); rand_intn = λ n w. (0, w) }

abbrev one_model : Config ℕ
one_model = record plain_config {
  providers = record {
    openai = record { api_key = "k"; base_url = "https://api/" };
    anthropic = no_key;
    minimax = no_key;
  };
  models = model_of "gpt-4o" "openai" "" 1 ∷ [];
}

chat_completion-registry_of_calls_example :
    (chat_completion still (registry_of still api one_model) (to_provider_request question) 0).2
    ≤ 0
      + length
          (build_route_queue still
            (registry_of still api one_model)
            (model_or_default (to_provider_request question).model)
            0).0
chat_completion-registry_of_calls_example =
    chat_completion-registry_of_calls still api (λ w. w) (λ w. omega arith) (λ n w. omega arith)
      (λ url key payload w. omega arith) one_model (to_provider_request question) 0

-- A database that remembers the hash of the last key.
abbrev remembering : Postgres ℕ (Option String)
remembering = record {
  exec = λ statement w. (none, w);
  key_by_hash = λ hash w. (no_row, w);
  add_key = λ hash name limit w. (
    row (record {
      id = "1";
      key_hash = hash;
      name = name;
      rate_limit = limit;
      is_active = true;
      expires_at = none;
      created_at = none;
      updated_at = none;
    }),
    some hash,
  );
  all_keys = λ w. (ok (record { scanned = []; ended = none }), w);
  totals = λ w. (no_row, w);
  by_model = λ w. (ok (record { scanned = []; ended = none }), w);
}

abbrev random_bytes : ℕ → Option String → List ℕ × Option String
random_bytes n w = (255 ∷ 16 ∷ [], w)

abbrev team : CreateKeyRequest
team = record { name = "team"; rate_limit = pos 5 }

abbrev made : CreatedKey
made = record {
  id = "1";
  key = new_key (255 ∷ 16 ∷ []);
  name = "team";
  rate_limit = pos 5;
  is_active = true;
}

create_api_key-stored_example :
    (create_api_key random_bytes (some remembering) (Admin.bound team) none).1 ≡ some made.key
create_api_key-stored_example =
    create_api_key-stored random_bytes remembering (λ w. w) team none made
      (λ hash name limit w. refl) (unfold create_api_key in refl)
