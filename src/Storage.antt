-- ===== src/Storage.antt =====
-- internal/storage/postgres.go: the client of PostgreSQL. `W` is the world outside the gateway, the
-- database included; a time is a text in the form that the client returns it in.
pub mod Connect
pub mod Usage
use text.Mathlib.Text.{◌==◌ as str_eq}
use high_performance_llm_gat.Prelude.{
  String, List, [], ◌∷◌, Option, none, some, Bool, if◌then◌else◌,
}
use high_performance_llm_gat.Prelude.Int.{ℤ, pos, ltb_ℤ}
use high_performance_llm_gat.Prelude.Dict.{insert}
use high_performance_llm_gat.Prelude.Float.{Float}
use high_performance_llm_gat.Cache.{Reply, ok, fault}

pub record RequestLog : Type 0 where
  pub endpoint : String
  pub api_key_id : String
  pub model : String
  pub status_code : ℤ
  pub latency_ms : ℤ
  pub cache_hit : Bool
  pub total_tokens : ℤ

pub record UsageModelStats (F : Type 0) : Type 0 where
  pub requests : ℤ
  pub errors : ℤ
  pub total_tokens : ℤ
  pub avg_latency_ms : F
  pub last_status : ℤ
  pub last_updated_at : String

pub record UsageSnapshot (F : Type 0) : Type 0 where
  pub total_requests : ℤ
  pub total_tokens : ℤ
  pub total_cost : F
  pub cache_hit_rate : F
  pub models : List (String × UsageModelStats F)

-- A null time is none.
pub record ApiKey : Type 0 where
  pub id : String
  pub key_hash : String
  pub name : String
  pub rate_limit : ℤ
  pub is_active : Bool
  pub expires_at : Option String
  pub created_at : Option String
  pub updated_at : Option String

-- The statements that are executed for their effect, with the values of their placeholders.
pub data Statement : Type 0 where
  create_request_logs : Statement
  index_by_time : Statement
  index_by_model : Statement
  delete_key : String → Statement
  insert_log : RequestLog → Statement

-- The result of `QueryRowContext` and `Scan`; `no_row` is sql.ErrNoRows.
pub data Row (A : Type 0) : Type 0 where
  row : A → Row A
  no_row : Row A
  row_fault : String → Row A

-- The rows of `QueryContext`, each scanned, and the error that ended them, if one did.
pub record Rows (A : Type 0) : Type 0 where
  pub scanned : List (Reply A)
  pub ended : Option String

pub record Totals (F : Type 0) : Type 0 where
  pub total_requests : ℤ
  pub total_tokens : ℤ
  pub cache_hit_rate : F

-- What the database answers to the queries of the source.
pub record Postgres (F W : Type 0) : Type 0 where
  pub exec : Statement → W → Option String × W
  pub key_by_hash : String → W → Row ApiKey × W
  pub add_key : String → String → ℤ → W → Row ApiKey × W
  pub all_keys : W → Reply (Rows ApiKey) × W
  pub totals : W → Row (Totals F) × W
  pub by_model : W → Reply (Rows (String × UsageModelStats F)) × W

abbrev pub not_initialized : String
not_initialized = "postgres client is not initialized"

module _ {A : Type 0} where
  -- An `ErrNoRows` that is an answer and one that is an error.
  abbrev pub row_or_nil : Row A → Reply (Option A)
  row_or_nil (row a) = ok (some a)
  row_or_nil no_row = ok none
  row_or_nil (row_fault e) = fault e

  abbrev pub row_or_fault : Row A → Reply A
  row_or_fault (row a) = ok a
  row_or_fault no_row = fault "sql: no rows in result set"
  row_or_fault (row_fault e) = fault e

  abbrev cons_reply : A → Reply (List A) → Reply (List A)
  cons_reply a (fault e) = fault e
  cons_reply a (ok l) = ok (a ∷ l)

  -- The loop over the rows, which stops at the first that cannot be scanned.
  unfoldable pub scan_rows : List (Reply A) → Reply (List A)
  scan_rows [] = ok []
  scan_rows (fault e ∷ rest) = fault e
  scan_rows (ok a ∷ rest) = cons_reply a (scan_rows rest)

  -- The rows of a query whose `rows.Err` is not asked for.
  abbrev pub scan_unchecked : Reply (Rows A) → Reply (List A)
  scan_unchecked (fault e) = fault e
  scan_unchecked (ok rows) = scan_rows rows.scanned

  abbrev ended_with : Option String → Reply (List A) → Reply (List A)
  ended_with e (fault e') = fault e'
  ended_with none (ok l) = ok l
  ended_with (some e) (ok l) = fault e

  abbrev pub scan_checked : Reply (Rows A) → Reply (List A)
  scan_checked (fault e) = fault e
  scan_checked (ok rows) = ended_with rows.ended (scan_rows rows.scanned)

abbrev pub at_least_0 : ℤ → ℤ
at_least_0 n = if ltb_ℤ n (pos 0) then pos 0 else n

abbrev pub or_unknown : String → String
or_unknown s = if str_eq s "" then "unknown" else s

-- What `InsertRequestLog` does to an entry.
unfoldable pub normalize_entry : RequestLog → RequestLog
normalize_entry entry = record entry {
  endpoint = or_unknown entry.endpoint;
  model = or_unknown entry.model;
  latency_ms = at_least_0 entry.latency_ms;
  total_tokens = at_least_0 entry.total_tokens;
}

-- The statements of `EnsureRequestLogSchema`.
abbrev pub ddl : List Statement
ddl = create_request_logs ∷ index_by_time ∷ index_by_model ∷ []

module _ {F : Type 0} where
  -- The map that the rows by model fill.
  unfoldable pub models_of :
      List (String × UsageModelStats F)
      → List (String × UsageModelStats F)
      → List (String × UsageModelStats F)
  models_of [] m = m
  models_of ((model, s) ∷ rows) m = models_of rows (insert model s m)

  abbrev with_models :
      F → Totals F → Reply (List (String × UsageModelStats F)) → Reply (UsageSnapshot F)
  with_models zero t (fault e) = fault e
  with_models zero t (ok rows) = ok (record {
    total_requests = t.total_requests;
    total_tokens = t.total_tokens;
    total_cost = zero;
    cache_hit_rate = t.cache_hit_rate;
    models = models_of rows [];
  })

module _ {F W : Type 0} where
  unfoldable pub get_api_key_by_hash : Postgres F W → String → W → Reply (Option ApiKey) × W
  get_api_key_by_hash p key_hash w = let (r, w') = p.key_by_hash key_hash w in (row_or_nil r, w')

  unfoldable pub create_api_key : Postgres F W → String → String → ℤ → W → Reply ApiKey × W
  create_api_key p key_hash name rate_limit w =
      let (r, w') = p.add_key key_hash name rate_limit w in (row_or_fault r, w')

  unfoldable pub list_api_keys : Postgres F W → W → Reply (List ApiKey) × W
  unfolding scan_rows
  list_api_keys p w = let (r, w') = p.all_keys w in (scan_unchecked r, w')

  unfoldable pub delete_api_key : Postgres F W → String → W → Option String × W
  delete_api_key p id w = p.exec (delete_key id) w

  -- The loop over `ddl`.
  unfoldable pub exec_all : Postgres F W → List Statement → W → Option String × W
  exec_all p [] w = (none, w)
  exec_all p (stmt ∷ rest) w =
      let (e, w') = p.exec stmt w in elim e [ some e' ↦ (some e', w') | none ↦ exec_all p rest w' ]

  unfoldable pub ensure_request_log_schema : Option (Postgres F W) → W → Option String × W
  unfolding exec_all
  ensure_request_log_schema none w = (some not_initialized, w)
  ensure_request_log_schema (some p) w = exec_all p ddl w

  unfoldable pub insert_request_log : Option (Postgres F W) → RequestLog → W → Option String × W
  unfolding normalize_entry
  insert_request_log none entry w = (some not_initialized, w)
  insert_request_log (some p) entry w = p.exec (insert_log (normalize_entry entry)) w

  abbrev after_totals : Float F → Postgres F W → Reply (Totals F) × W → Reply (UsageSnapshot F) × W
  after_totals fl p (fault e, w) = (fault e, w)
  after_totals fl p (ok t, w) =
      let (r, w') = p.by_model w in (with_models fl.zero t (scan_checked r), w')

  unfoldable pub get_usage_snapshot :
      Float F → Option (Postgres F W) → W → Reply (UsageSnapshot F) × W
  unfolding scan_rows models_of
  get_usage_snapshot fl none w = (fault not_initialized, w)
  get_usage_snapshot fl (some p) w =
      let (r, w') = p.totals w in after_totals fl p (row_or_fault r, w')
