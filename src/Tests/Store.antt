-- ===== src/Tests/Store.antt =====
-- A Redis that keeps the one hash of the exact cache as an association list.
use high_performance_llm_gat.Prelude.{
  suc, ◌≡◌, ◌≢◌, refl, ap, String, List, [], ◌∷◌, none, arith, length, All,
}
use high_performance_llm_gat.Prelude.Dict.{lookup, insert, erase}
use text.Mathlib.TextPositions.{eq_refl}
use high_performance_llm_gat.Cache.{Redis, ok}
use high_performance_llm_gat.Cache.L1Laws.{Answers}

abbrev pub Table : Type 0
Table = List (String × String)

abbrev pub names : Table → List String
names [] = []
names ((k, v) ∷ m) = k ∷ names m

abbrev pub table_redis : Redis Table
table_redis = record {
  hget = λ k f m. (ok (lookup f m), m);
  hset = λ k f v m. (none, insert f v m);
  hdel = λ k f m. (none, erase f m);
  hlen = λ k m. (ok (length m), m);
  hkeys = λ k m. (ok (names m), m);
  expire = λ k t m. (none, m);
  del = λ ks m. (none, []);
  keys = λ p m. (ok (names m), m);
  get = λ k m. (ok (lookup k m), m);
  set = λ k v t m. (none, insert k v m);
}

abbrev pub all_fields : String → Table → Table
all_fields k m = m

length-names : (m : Table) → length (names m) ≡ length m
length-names [] = refl
length-names ((k, v) ∷ m) = ap suc (length-names m)

All-found-cons :
    (k v : String) (m : Table) (fs : List String)
    → All (λ f. lookup f m ≢ none) fs
    → All (λ f. lookup f ((k, v) ∷ m) ≢ none) fs
unfolding lookup
All-found-cons k v m [] h = tt
All-found-cons k v m (f ∷ fs) h = (ground (arith, h.0), All-found-cons k v m fs h.1)

All-found : (m : Table) → All (λ f. lookup f m ≢ none) (names m)
unfolding lookup
All-found [] = tt
All-found ((k, v) ∷ m) = (ground (arith, eq_refl k), All-found-cons k v m (names m) (All-found m))

pub table-Answers : Answers table_redis all_fields
table-Answers = record {
  hget_reply = λ k f m. refl;
  hset_reply = λ k f v m. refl;
  hset_fields = λ k f v m. refl;
  hdel_fields = λ k f m. refl;
  hlen_reply = λ k m. refl;
  hkeys_reply = λ k m. (names m, refl, length-names m, All-found m);
  expire_fields = λ k t m. refl;
}
