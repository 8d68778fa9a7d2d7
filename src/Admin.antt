-- ===== src/Admin.antt =====
-- internal/handler/admin.go: the administration's handlers and the list of models. `Answer` has what
-- is written as JSON.
pub mod Keys
use text.Mathlib.Text.{◌==◌ as str_eq}
use Prim.Native.Char.{Char, nul}
use Prim.Native.String as Text
use high_performance_llm_gat.Prelude.{
  ℕ, ◌/◌, ◌%◌, String, List, [], ◌∷◌, Option, none, some, Bool, map, if◌then◌else◌,
}
use high_performance_llm_gat.Prelude.Int.{ℤ, pos, ltb_ℤ}
use high_performance_llm_gat.Prelude.Text.{trim_space, to_lower, take_text, char_or, ◌++ₛ◌}
use high_performance_llm_gat.Prelude.Float.{Float}
use high_performance_llm_gat.Cache.{Reply, ok, fault}
use high_performance_llm_gat.Config.{ModelConfig}
use high_performance_llm_gat.Errors.{GatewayError, bad_request_error, internal_server_error}
use high_performance_llm_gat.Stats as Stats
use high_performance_llm_gat.Stats.{UsageStats, snapshot}
use high_performance_llm_gat.Storage as Storage
use high_performance_llm_gat.Storage.{ApiKey, Postgres, get_usage_snapshot}
use high_performance_llm_gat.Workflow.{WorkflowSummary, WorkflowTracer}
use high_performance_llm_gat.Workflow.Tracer.{get_summary, list_summaries}

pub record CreateKeyRequest : Type 0 where
  pub name : String
  pub rate_limit : ℤ

-- The answer to the creation of a key, with the key itself.
pub record CreatedKey : Type 0 where
  pub id : String
  pub key : String
  pub name : String
  pub rate_limit : ℤ
  pub is_active : Bool

-- A model of the list, whose other fields are constant.
pub record ListedModel : Type 0 where
  pub id : String
  pub owned_by : String

-- The answers; `panicked` is one of the recovery middleware, `not_found` the one with status 404.
pub data Answer (F : Type 0) : Type 0 where
  refused : GatewayError → Answer F
  created : CreatedKey → Answer F
  keys : List ApiKey → Answer F
  deleted : Answer F
  stored_stats : Storage.UsageSnapshot F → Answer F
  memory_stats : Stats.UsageSnapshot F → Answer F
  workflow_summary : WorkflowSummary F → Answer F
  not_found : Answer F
  workflow_summaries : List (WorkflowSummary F) → Answer F
  models : List ListedModel → Answer F
  panicked : Answer F

-- A body that was bound, or the error of `ShouldBindJSON`.
pub data Bound : Type 0 where
  bound : CreateKeyRequest → Bound
  unbound : String → Bound

-- `AdminAuth` on the header X-Admin-Key: the error, if the request does not go on.
unfoldable pub admin_auth : String → Option GatewayError
admin_auth admin_key =
    if str_eq admin_key "" then some (bad_request_error "Missing admin key") else none

abbrev pub hex_digit : ℕ → Char
hex_digit n = char_or "0123456789abcdef" n nul

-- hex.EncodeToString
unfoldable pub hex : List ℕ → String
unfolding char_or
hex [] = ""
hex (b ∷ bytes) = Text.◌∷◌ (hex_digit (b / 16)) (Text.◌∷◌ (hex_digit (b % 16)) (hex bytes))

-- `generateRandomString`, given the bytes of `rand.Read`.
unfoldable pub generate_random_string : ℕ → List ℕ → String
unfolding hex
generate_random_string length bytes = take_text length (hex bytes)

unfoldable pub hash_key : String → String
hash_key key = to_lower key

-- The key that is made of 32 random bytes.
unfoldable pub new_key : List ℕ → String
unfolding generate_random_string
new_key bytes = "sk-" ++ₛ generate_random_string 32 bytes

abbrev positive_or_20 : Option ℤ → ℤ
positive_or_20 none = pos 20
positive_or_20 (some n) = if ltb_ℤ (pos 0) n then n else pos 20

-- The limit of a query; `atoi` is `strconv.Atoi`.
unfoldable pub limit_of : (String → Option ℤ) → String → ℤ
limit_of atoi query =
    let raw = trim_space query in if str_eq raw "" then pos 20 else positive_or_20 (atoi raw)

abbrev listed_model : ModelConfig → ListedModel
listed_model m = record { id = m.name; owned_by = m.provider }

module _ {F : Type 0} where
  abbrev pub created_reply : String → Reply ApiKey → Answer F
  created_reply api_key (fault e) = refused (internal_server_error "Failed to create API key")
  created_reply api_key (ok key) = created (record {
    id = key.id;
    key = api_key;
    name = key.name;
    rate_limit = key.rate_limit;
    is_active = key.is_active;
  })

  abbrev listed_reply : Reply (List ApiKey) → Answer F
  listed_reply (fault e) = refused (internal_server_error "Failed to list API keys")
  listed_reply (ok l) = keys l

  abbrev deleted_reply : Option String → Answer F
  deleted_reply (some e) = refused (internal_server_error "Failed to delete API key")
  deleted_reply none = deleted

  abbrev stats_or_memory : Float F → UsageStats F → Reply (Storage.UsageSnapshot F) → Answer F
  stats_or_memory fl stats (ok s) = stored_stats s
  stats_or_memory fl stats (fault e) = memory_stats (snapshot fl stats)

module _ {F W : Type 0} where
  -- `CreateAPIKey`; `random` is `rand.Read`. A method of a nil client panics.
  unfoldable pub create_api_key :
      (ℕ → W → List ℕ × W) → Option (Postgres F W) → Bound → W → Answer F × W
  unfolding new_key hash_key Storage.create_api_key
  create_api_key random pg (unbound e) w = (refused (bad_request_error e), w)
  create_api_key random none (bound req) w = (panicked, (random 32 w).1)
  create_api_key random (some pg) (bound req) w =
      let (bytes, w1) = random 32 w in
      let api_key = new_key bytes in
      let (r, w2) = Storage.create_api_key pg (hash_key api_key) req.name req.rate_limit w1 in
      (created_reply api_key r, w2)

  unfoldable pub list_api_keys : Option (Postgres F W) → W → Answer F × W
  unfolding Storage.list_api_keys
  list_api_keys none w = (panicked, w)
  list_api_keys (some pg) w = let (r, w') = Storage.list_api_keys pg w in (listed_reply r, w')

  unfoldable pub delete_api_key : Option (Postgres F W) → String → W → Answer F × W
  unfolding Storage.delete_api_key
  delete_api_key none id w =
      if str_eq id "" then (refused (bad_request_error "Key ID is required"), w) else (panicked, w)
  delete_api_key (some pg) id w =
      let (e, w') = Storage.delete_api_key pg id w in
      if str_eq id ""
      then (refused (bad_request_error "Key ID is required"), w)
      else (deleted_reply e, w')

  unfoldable pub get_stats : Float F → Option (Postgres F W) → UsageStats F → W → Answer F × W
  unfolding get_usage_snapshot snapshot
  get_stats fl none stats w = (memory_stats (snapshot fl stats), w)
  get_stats fl (some pg) stats w =
      let (r, w') = get_usage_snapshot fl (some pg) w in (stats_or_memory fl stats r, w')

module _ {F : Type 0} where
  abbrev summary_or_not_found : Option (WorkflowSummary F) → Answer F
  summary_or_not_found none = not_found
  summary_or_not_found (some s) = workflow_summary s

  -- `GetWorkflowSummary` on the parameter session_id.
  unfoldable pub get_workflow_summary : WorkflowTracer F → String → Answer F
  unfolding get_summary
  get_workflow_summary tracer param =
      let session_id = trim_space param in
      if str_eq session_id ""
      then refused (bad_request_error "session_id is required")
      else summary_or_not_found (get_summary tracer session_id)

  -- `ListWorkflowSummaries` on the query parameter limit.
  unfoldable pub list_workflow_summaries :
      (String → Option ℤ) → WorkflowTracer F → String → Answer F
  unfolding limit_of list_summaries
  list_workflow_summaries atoi tracer query =
      workflow_summaries (list_summaries tracer (limit_of atoi query))

  unfoldable pub list_models : List ModelConfig → Answer F
  list_models ms = models (map listed_model ms)
