-- ===== src/Tests/Caches.antt =====
-- The caches and the worker's client at concrete inputs.
use mathlib.Core.List.{Perm}
use text.Mathlib.TextEquality.{eq_iff}
use text.Mathlib.Text.{◌==◌ as str_eq}
use high_performance_llm_gat.Prelude.{
  ℕ, suc, ◌==◌, if◌then◌else◌, ◌+◌, ◌≤◌, ◌<◌, ◌≡◌, ◌≢◌, refl, String, List, [], ◌∷◌, ◌++◌, map,
  Option, none, some, Bool, true, false, arith, length, All,
}
use high_performance_llm_gat.Prelude.Int.{pos}
use high_performance_llm_gat.Tests.{whole, whole-IsStrict}
use high_performance_llm_gat.Tests.Store.{Table, table_redis, all_fields, table-Answers}
use high_performance_llm_gat.Cache.{Reply, ok}
use high_performance_llm_gat.Cache.L1.{L1Cache}
use high_performance_llm_gat.Cache.L1 as L1
use high_performance_llm_gat.Cache.L1Laws.{set-bounded, get-set}
use high_performance_llm_gat.Cache.L2.{
  L2Cache, VectorEntry, SearchResult, Aged, evict_count, search, store, evict_if_needed, ended,
  panicked,
}
use high_performance_llm_gat.Cache.L2Laws.{readings, Dominates, IsSound, search-best}
use high_performance_llm_gat.Cache.L2Evict.{Older, evict_if_needed-oldest, store-panics}
use high_performance_llm_gat.Worker.{
  Client, Settings, new_client, Request, Response, Transport, Generated, done, failed, generate,
  generate_once, healthy, probe_health,
}
use high_performance_llm_gat.Worker as Worker
use high_performance_llm_gat.Worker.Retry.{HasResult, generate-bounded}
use high_performance_llm_gat.Worker.Health.{healthy-cached}

abbrev exact : L1Cache
exact = record { client = true; ttl = pos 60; max_size = pos 2; key_prefix = "l1" }

abbrev full : Table
full = ("a", "1") ∷ ("b", "2") ∷ []

set-bounded_example : length (all_fields "l1" (L1.set table_redis exact "c" "3" full).1) ≤ 2
set-bounded_example =
    set-bounded table_redis all_fields table-Answers exact "c" "3" full 2 refl (omega arith)
      (omega arith)

get-set_example :
    (L1.get table_redis exact "c" (L1.set table_redis exact "c" "3" full).1).0 ≡ ok (some "3")
get-set_example = get-set table_redis all_fields table-Answers exact "c" "3" full refl

-- Every value decodes to a vector of one number.
abbrev decode : String → Option (VectorEntry ℕ)
decode text = some (record { vector = 4 ∷ []; response = text; model = "gpt-4o"; created = pos 5 })

abbrev unreadable : String → Option (VectorEntry ℕ)
unreadable text = none

abbrev semantic : L2Cache ℕ
semantic = record {
  client = true;
  similarity_threshold = 1;
  ttl = pos 60;
  max_size = pos 2;
  key_prefix = "l2";
  vector_dim = pos 1;
}

abbrev match : SearchResult ℕ
match = record { response = "1"; similarity = 12; key = "a" }

found : (search whole table_redis decode semantic (3 ∷ []) "gpt-4o" full).0 ≡ ok (some match)
unfolding search high_performance_llm_gat.Prelude.Dict.lookup
    high_performance_llm_gat.Cache.L2.consider
found = refl

search-best_example :
    All
      (Dominates whole table_redis decode semantic (3 ∷ []) "gpt-4o" (some match))
      (readings whole table_redis decode semantic (3 ∷ []) "gpt-4o" ("a" ∷ "b" ∷ []) full)
    × IsSound whole table_redis decode semantic
        (3 ∷ [])
        "gpt-4o"
        (readings whole table_redis decode semantic (3 ∷ []) "gpt-4o" ("a" ∷ "b" ∷ []) full)
        (some match)
search-best_example =
    search-best whole table_redis decode semantic (3 ∷ []) "gpt-4o" ("a" ∷ "b" ∷ []) full full
      (some match) whole-IsStrict refl refl found

-- Entries of two ages.
abbrev dated : String → Option (VectorEntry ℕ)
dated text = some (record {
  vector = 4 ∷ [];
  response = text;
  model = "gpt-4o";
  created = if str_eq text "1" then pos 9 else pos 2;
})

abbrev aged : List Aged
aged = record { key = "a"; created = pos 9 } ∷ record { key = "b"; created = pos 2 } ∷ []

aged_read :
    high_performance_llm_gat.Cache.L2.read_entries whole table_redis dated ("a" ∷ "b" ∷ []) full
    ≡ (aged, full)
unfolding high_performance_llm_gat.Cache.L2.read_entries
    high_performance_llm_gat.Prelude.Dict.lookup
aged_read = refl

evict_if_needed-oldest_example :
    (removed : List Aged) × (kept : List Aged) × (evict_if_needed whole table_redis dated semantic
        full
      ≡ ended none (table_redis.del (map (λ e. e.key) removed) full).1)
    × (length removed ≡ evict_count (length aged))
    × Perm (removed ++ kept) aged
    × All (λ d. All (Older d) kept) removed
evict_if_needed-oldest_example =
    evict_if_needed-oldest whole table_redis dated semantic ("a" ∷ "b" ∷ []) aged full full full 2
      refl (omega arith) (omega arith) refl aged_read (ground arith)

encode : VectorEntry ℕ → Reply String
encode e = ok e.response

store-panics_example :
    store whole table_redis unreadable encode (pos 9) semantic "c" (3 ∷ []) "3" "gpt-4o" full
    ≡ panicked full
unfolding high_performance_llm_gat.Cache.L2.read_entries
    high_performance_llm_gat.Prelude.Dict.lookup
store-panics_example =
    store-panics whole table_redis unreadable encode (pos 9) semantic "c" "3" "gpt-4o" (3 ∷ [])
      ("a" ∷ "b" ∷ []) full full 2 refl refl (omega arith) (omega arith) refl refl

abbrev embedded : Response ℕ
embedded = record {
  object = "list";
  entries = [];
  model = "m";
  usage = record { prompt_tokens = pos 1; completion_tokens = pos 0; total_tokens = pos 1 };
}

-- The world counts the calls; the first is answered with 503, the later ones with 200.
abbrev second_time : Transport ℕ String ℕ
second_time = record {
  encode = λ req. Worker.ok "{}";
  build = λ url payload. none;
  exchange = λ url payload w. (Worker.ok (if w == 0 then 503 else 200, Worker.ok "body"), w + 1);
  decode = λ body. Worker.ok embedded;
  envelope = λ body. none;
  status_of = λ url w. (some 200, w);
  sleep = λ b w. (true, w);
  now = λ w. (w + 100, w);
}

abbrev settings : Settings
settings = record {
  address = "http://worker";
  timeout = pos 0;
  retry_max = pos 2;
  retry_backoff = pos 0;
  health_ttl = pos 0;
}

abbrev input : Request String
input = record { input = "text"; model = "m" }

generate-bounded_example :
    HasResult (generate second_time (some (new_client settings)) input 0).0
    × ((generate second_time (some (new_client settings)) input 0).1
        ≤ 0 + (new_client settings).retry_max)
generate-bounded_example =
    generate-bounded second_time settings input 0 (λ w. w) (λ url payload w. omega arith)
      (λ b w. omega arith)

abbrev ready : Client
ready = record {
  base_url = "http://worker";
  http_timeout = 5;
  retry_max = 2;
  retry_backoff = 3;
  health_ttl = 10;
  last_health_at = 0;
  last_health_value = false;
}

has_address : ready.base_url ≢ ""
has_address e = ground (arith, (eq_iff "http://worker" "").1 e)

healthy-cached_example :
    ((healthy second_time ready 1).0 ≡ (probe_health second_time ready 1).0)
    × (healthy second_time (healthy second_time ready 1).1 2
        ≡ ((healthy second_time ready 1).0, (healthy second_time ready 1).1, 2))
healthy-cached_example =
    healthy-cached second_time ready 1 1 2 2 101 102 has_address (omega arith) refl refl refl
      (omega arith)
