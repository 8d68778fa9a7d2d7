-- ===== src/Cache/L1.antt =====
-- internal/service/cache/l1.go: the exact cache, one Redis hash whose fields are request hashes.
use high_performance_llm_gat.Prelude.{
  ℕ, ◌/◌, String, List, [], ◌∷◌, Option, none, some, Bool, ltb, if◌then◌else◌, length, take,
}
use high_performance_llm_gat.Prelude.Int.{ℤ, pos, ltb_ℤ, leb_ℤ, scale, wrap}
use high_performance_llm_gat.Breaker.{second}
use high_performance_llm_gat.Cache.{Reply, ok, fault, Redis}

pub record Message : Type 0 where
  pub role : String
  pub content : String
  pub name : String

pub record Choice : Type 0 where
  pub index : ℤ
  pub message : Message
  pub finish_reason : String

pub record Usage : Type 0 where
  pub prompt_tokens : ℤ
  pub completion_tokens : ℤ
  pub total_tokens : ℤ

pub record ChatResponse : Type 0 where
  pub id : String
  pub object : String
  pub created : ℤ
  pub model : String
  pub choices : List Choice
  pub usage : Usage

-- `client` says whether the Redis client is there.
pub record L1Cache : Type 0 where
  pub client : Bool
  pub ttl : ℤ
  pub max_size : ℤ
  pub key_prefix : String

pub record L1CacheConfig : Type 0 where
  pub enabled : Bool
  pub ttl : ℤ
  pub max_size : ℤ
  pub key_prefix : String

-- `time.Duration(cfg.TTL) * time.Second`
abbrev pub seconds : ℤ → ℤ
seconds n = wrap (scale second n)

unfoldable pub new_l1_cache : Bool → L1CacheConfig → L1Cache
new_l1_cache client cfg = record {
  client = client;
  ttl = seconds cfg.ttl;
  max_size = cfg.max_size;
  key_prefix = cfg.key_prefix;
}

-- `GenerateCacheKey`: `marshal` is json.Marshal of the payload, and `hash` SHA-256 in hexadecimal.
unfoldable pub generate_cache_key :
    {P : Type 0} → (P → Reply String) → (String → String) → String → P → String
generate_cache_key marshal hash model payload = elim (marshal payload) [
  | ok bytes ↦ hash bytes
  | fault e ↦ hash model
]

module _ {R : Type 0} (redis : Redis R) where
  unfoldable pub get : L1Cache → String → R → Reply (Option String) × R
  get c key r = if c.client then redis.hget c.key_prefix key r else (ok none, r)

  -- The loop that deletes the first keys; the errors of HDEL are not read.
  unfoldable pub delete_keys : String → List String → R → R
  delete_keys prefix [] r = r
  delete_keys prefix (k ∷ ks) r = delete_keys prefix ks (redis.hdel prefix k r).1

  -- A tenth of the keys, and one at least.
  abbrev pub delete_count : ℕ → ℕ
  delete_count n = if ltb (n / 10) 1 then 1 else n / 10

  unfoldable pub evict_keys : L1Cache → Reply (List String) × R → Option String × R
  unfolding delete_keys
  evict_keys c (fault e, r) = (some e, r)
  evict_keys c (ok keys, r) =
      (none, delete_keys c.key_prefix (take (delete_count (length keys)) keys) r)

  unfoldable pub evict_counted : L1Cache → Reply ℕ × R → Option String × R
  unfolding evict_keys
  evict_counted c (fault e, r) = (some e, r)
  evict_counted c (ok count, r) =
      if leb_ℤ c.max_size (pos count) then evict_keys c (redis.hkeys c.key_prefix r) else (none, r)

  unfoldable pub evict_if_needed : L1Cache → R → Option String × R
  unfolding evict_counted
  evict_if_needed c r =
      if leb_ℤ c.max_size (pos 0) then (none, r) else evict_counted c (redis.hlen c.key_prefix r)

  -- What follows HSET.
  unfoldable pub after_hset : L1Cache → Option String × R → Option String × R
  after_hset c (some e, r) = (some e, r)
  after_hset c (none, r) =
      if ltb_ℤ (pos 0) c.ttl then redis.expire c.key_prefix c.ttl r else (none, r)

  unfoldable pub set : L1Cache → String → String → R → Option String × R
  unfolding evict_if_needed after_hset
  set c key value r =
      if c.client
      then after_hset c (redis.hset c.key_prefix key value (evict_if_needed c r).1)
      else (none, r)

  unfoldable pub delete : L1Cache → String → R → Option String × R
  delete c key r = if c.client then redis.hdel c.key_prefix key r else (none, r)

  unfoldable pub clear : L1Cache → R → Option String × R
  clear c r = if c.client then redis.del (c.key_prefix ∷ []) r else (none, r)
