-- ===== src/Cache/L2.antt =====
-- internal/service/cache/l2.go: the semantic cache, one Redis key for each stored vector.
use high_performance_llm_gat.Prelude.{
  ℕ, zero, suc, ◌/◌, String, List, [], ◌∷◌, map, Option, none, some, Bool, true, not, ◌&&◌, ◌||◌,
  ltb, ◌==◌, if◌then◌else◌, length, is_empty,
}
use text.Mathlib.Text.{◌==◌ as str_eq}
use high_performance_llm_gat.Prelude.Int.{ℤ, pos, leb_ℤ}
use high_performance_llm_gat.Prelude.Text.{◌++ₛ◌}
use high_performance_llm_gat.Prelude.Float.{Float}
use high_performance_llm_gat.Prelude.Sorting.{sort_by}
use high_performance_llm_gat.Cache.{Reply, ok, fault, Redis}
use high_performance_llm_gat.Cache.L1.{seconds}

-- `client` says whether the Redis client is there.
pub record L2Cache (F : Type 0) : Type 0 where
  pub client : Bool
  pub similarity_threshold : F
  pub ttl : ℤ
  pub max_size : ℤ
  pub key_prefix : String
  pub vector_dim : ℤ

pub record L2CacheConfig (F : Type 0) : Type 0 where
  pub enabled : Bool
  pub similarity_threshold : F
  pub ttl : ℤ
  pub max_size : ℤ
  pub key_prefix : String
  pub vector_dim : ℤ

unfoldable pub new_l2_cache : {F : Type 0} → Bool → L2CacheConfig F → L2Cache F
new_l2_cache client cfg = record {
  client = client;
  similarity_threshold = cfg.similarity_threshold;
  ttl = seconds cfg.ttl;
  max_size = cfg.max_size;
  key_prefix = cfg.key_prefix;
  vector_dim = cfg.vector_dim;
}

pub record VectorEntry (F : Type 0) : Type 0 where
  pub vector : List F
  pub response : String
  pub model : String
  pub created : ℤ

pub record SearchResult (F : Type 0) : Type 0 where
  pub response : String
  pub similarity : F
  pub key : String

-- The sums of a loop over two vectors of one length: the dot product and the two squared norms.
pub record Sums (F : Type 0) : Type 0 where
  pub dot_product : F
  pub norm_a : F
  pub norm_b : F

-- The loop of `cosineSimilarity`, which ends with the shorter vector.
unfoldable pub sums : {F : Type 0} → Float F → Sums F → List F → List F → Sums F
sums fl s [] b = s
sums fl s (x ∷ a) [] = s
sums fl s (x ∷ a) (y ∷ b) =
    sums fl
      (record {
        dot_product = fl.add s.dot_product (fl.mul x y);
        norm_a = fl.add s.norm_a (fl.mul x x);
        norm_b = fl.add s.norm_b (fl.mul y y);
      })
      a b

unfoldable pub cosine_similarity : {F : Type 0} → Float F → List F → List F → F
unfolding sums
cosine_similarity fl a b =
    let start = fl.zero in
    let s = sums fl (record { dot_product = start; norm_a = start; norm_b = start }) a b in
    if not (length a == length b)
    then fl.zero
    else if fl.eq s.norm_a fl.zero || fl.eq s.norm_b fl.zero
    then fl.zero
    else fl.div s.dot_product (fl.mul (fl.sqrt s.norm_a) (fl.sqrt s.norm_b))

unfoldable pub square_sum : {F : Type 0} → Float F → F → List F → F
square_sum fl n [] = n
square_sum fl n (x ∷ v) = square_sum fl (fl.add n (fl.mul x x)) v

unfoldable pub normalize_vector : {F : Type 0} → Float F → List F → List F
unfolding square_sum
normalize_vector fl v =
    let norm = fl.sqrt (square_sum fl fl.zero v) in
    if fl.eq norm fl.zero then v else map (λ x. fl.div x norm) v

unfoldable pub format_vector_key : String → String
format_vector_key hash = "l2:vector:" ++ₛ hash

-- A readable entry of the cache: its key and its time.
pub record Aged : Type 0 where
  pub key : String
  pub created : ℤ

abbrev pub older : Aged → Aged → Bool
older d e = leb_ℤ d.created e.created

-- sort.Slice by `Created`
unfoldable pub sort_aged : List Aged → List Aged
sort_aged es = sort_by older es

abbrev pub evict_count : ℕ → ℕ
evict_count n = if ltb (n / 10) 1 then 1 else n / 10

-- The first `n` keys; none is Go's panic at an index out of range.
unfoldable pub first_keys : ℕ → List Aged → Option (List String)
first_keys zero es = some []
first_keys (suc n) [] = none
first_keys (suc n) (e ∷ es) = elim (first_keys n es) [ none ↦ none | some ks ↦ some (e.key ∷ ks) ]

-- The victims of an eviction: none is a panic.
unfoldable pub victims : List Aged → Option (List String)
unfolding sort_aged first_keys
victims es = first_keys (evict_count (length es)) (sort_aged es)

-- The end of a method that may panic: its error, if there is one, or the panic, and what Redis is
-- then.
pub data Ended (R : Type 0) : Type 0 where
  ended : Option String → R → Ended R
  panicked : R → Ended R

-- `decode` is json.Unmarshal of an entry, none on an error, and `encode` json.Marshal.
module _ {F R : Type 0} (fl : Float F) (redis : Redis R)
    (decode : String → Option (VectorEntry F)) where
  -- An entry of which the reply to GET has been decoded; none where the loop continues.
  abbrev pub decoded : Reply (Option String) → Option (VectorEntry F)
  decoded (fault e) = none
  decoded (ok none) = none
  decoded (ok (some text)) = decode text

  -- `model != "" && entry.Model != model`
  abbrev pub other_model : String → String → Bool
  other_model model m = not (str_eq model "") && not (str_eq m model)

  -- `bestMatch == nil || similarity > bestSimilarity`
  abbrev pub improves : F → Option (SearchResult F) → Bool
  improves s none = true
  improves s (some b) = fl.lt b.similarity s

  -- What one entry makes of the best match.
  unfoldable pub consider :
      L2Cache F
      → List F
      → String
      → String
      → VectorEntry F
      → Option (SearchResult F)
      → Option (SearchResult F)
  unfolding cosine_similarity
  consider c query model key entry best =
      let s = cosine_similarity fl query entry.vector in
      if other_model model entry.model
      then best
      else if fl.le c.similarity_threshold s && improves s best
      then some (record { response = entry.response; similarity = s; key = key })
      else best

  abbrev pub consider_read :
      L2Cache F
      → List F
      → String
      → String
      → Option (VectorEntry F)
      → Option (SearchResult F)
      → Option (SearchResult F)
  consider_read c query model key none best = best
  consider_read c query model key (some entry) best = consider c query model key entry best

  -- The loop of `Search` over the keys.
  unfoldable pub search_keys :
      L2Cache F
      → List F
      → String
      → List String
      → Option (SearchResult F)
      → R
      → Option (SearchResult F) × R
  search_keys c query model [] best r = (best, r)
  search_keys c query model (k ∷ ks) best r =
      let (reply, r') = redis.get k r in
      search_keys c query model ks (consider_read c query model k (decoded reply) best) r'

  abbrev pub pattern_of : L2Cache F → String
  pattern_of c = c.key_prefix ++ₛ ":*"

  unfoldable pub search_listed :
      L2Cache F → List F → String → Reply (List String) × R → Reply (Option (SearchResult F)) × R
  unfolding search_keys
  search_listed c query model (fault e, r) = (fault e, r)
  search_listed c query model (ok keys, r) =
      let (best, r') = search_keys c query model keys none r in (ok best, r')

  unfoldable pub search : L2Cache F → List F → String → R → Reply (Option (SearchResult F)) × R
  unfolding search_listed
  search c query model r =
      if c.client then search_listed c query model (redis.keys (pattern_of c) r) else (ok none, r)

  abbrev add_aged : String → Option (VectorEntry F) → List Aged → List Aged
  add_aged k none es = es
  add_aged k (some entry) es = record { key = k; created = entry.created } ∷ es

  -- The entries that can be read and decoded.
  unfoldable pub read_entries : List String → R → List Aged × R
  read_entries [] r = ([], r)
  read_entries (k ∷ ks) r =
      let (reply, r') = redis.get k r in
      let (rest, r'') = read_entries ks r' in (add_aged k (decoded reply) rest, r'')

  abbrev drop_keys : Option (List String) × R → Ended R
  drop_keys (none, r) = panicked r
  drop_keys (some ks, r) = ended none (redis.del ks r).1

  -- `evictIfNeeded`
  unfoldable pub evict_listed : L2Cache F → Reply (List String) × R → Ended R
  unfolding read_entries victims
  evict_listed c (fault e, r) = ended (some e) r
  evict_listed c (ok keys, r) =
      let (entries, r') = read_entries keys r in
      if leb_ℤ c.max_size (pos (length keys)) then drop_keys (victims entries, r') else ended none r

  unfoldable pub evict_if_needed : L2Cache F → R → Ended R
  unfolding evict_listed
  evict_if_needed c r =
      if leb_ℤ c.max_size (pos 0)
      then ended none r
      else evict_listed c (redis.keys (pattern_of c) r)

  -- `Store` once there is room; `encode` is json.Marshal and `now` the time in seconds.
  unfoldable pub store_entry :
      (VectorEntry F → Reply String) → L2Cache F → String → VectorEntry F → R → Option String × R
  store_entry encode c key entry r = elim (encode entry) [
    | fault e ↦ (some e, r)
    | ok text ↦ redis.set (c.key_prefix ++ₛ (":" ++ₛ key)) text c.ttl r
  ]

  abbrev ended_of : Option String × R → Ended R
  ended_of (e, r) = ended e r

  -- The error of the eviction is ignored.
  abbrev then_store : (R → Option String × R) → Ended R → Ended R
  then_store next (panicked r) = panicked r
  then_store next (ended e r) = ended_of (next r)

  -- `Store`
  unfoldable pub store :
      (VectorEntry F → Reply String)
      → ℤ
      → L2Cache F
      → String
      → List F
      → String
      → String
      → R
      → Ended R
  unfolding evict_if_needed store_entry
  store encode now c key vector response model r =
      let entry : VectorEntry F = record {
        vector = vector;
        response = response;
        model = model;
        created = now;
      } in
      if c.client
      then then_store (store_entry encode c key entry) (evict_if_needed c r)
      else ended none r

  unfoldable pub delete : L2Cache F → String → R → Option String × R
  delete c key r =
      if c.client then redis.del ((c.key_prefix ++ₛ (":" ++ₛ key)) ∷ []) r else (none, r)

  unfoldable pub clear_listed : Reply (List String) × R → Option String × R
  clear_listed (fault e, r) = (some e, r)
  clear_listed (ok keys, r) = if is_empty keys then (none, r) else redis.del keys r

  unfoldable pub clear : L2Cache F → R → Option String × R
  unfolding clear_listed
  clear c r = if c.client then clear_listed (redis.keys (pattern_of c) r) else (none, r)
