-- ===== src/Cache/L1Laws.antt =====
-- The exact cache on a Redis that answers: its size, and what can be read back.
use native.Mathlib.Nat.{le_trans}
use high_performance_llm_gat.Prelude.{
  ℕ, suc, ◌+◌, ◌-◌, ◌≤◌, ◌<◌, ◌≡◌, ◌≢◌, refl, ap, ◌∙◌, String, List, [], ◌∷◌, Option, none, some,
  true, false, arith, length, take, All, Bool-cases, inl, inr,
}
use high_performance_llm_gat.Prelude.Int.{ℤ, pos, leb_ℤ}
use high_performance_llm_gat.Prelude.Dict.{lookup, insert, erase, lookup-insert_self}
use high_performance_llm_gat.Cache.{ok, Redis}
use high_performance_llm_gat.Cache.L1.{
  L1Cache, delete_count, get, set, delete_keys, evict_keys, evict_counted, evict_if_needed,
  after_hset,
}

-- Redis's documented behaviour on a hash, while it answers without error and no key expires:
-- `fields` gives the fields of a hash. HKEYS lists the fields that the hash has, in some order, and
-- EXPIRE leaves the fields as they are.
pub record Answers {R : Type 0} (redis : Redis R) (fields : String → R → List (String × String))
    : Type 0 where
  pub hget_reply : (k f : String) (r : R) → redis.hget k f r ≡ (ok (lookup f (fields k r)), r)
  pub hset_reply : (k f v : String) (r : R) → (redis.hset k f v r).0 ≡ none
  pub hset_fields :
      (k f v : String) (r : R) → fields k (redis.hset k f v r).1 ≡ insert f v (fields k r)
  pub hdel_fields : (k f : String) (r : R) → fields k (redis.hdel k f r).1 ≡ erase f (fields k r)
  pub hlen_reply : (k : String) (r : R) → redis.hlen k r ≡ (ok (length (fields k r)), r)
  pub hkeys_reply :
      (k : String) (r : R)
      → (ks : List String) × (redis.hkeys k r ≡ (ok ks, r))
        × (length ks ≡ length (fields k r))
        × All (λ f. lookup f (fields k r) ≢ none) ks
  pub expire_fields : (k : String) (t : ℤ) (r : R) → fields k (redis.expire k t r).1 ≡ fields k r

length-insert-le :
    (k v : String) (m : List (String × String)) → length (insert k v m) ≤ length m + 1
unfolding insert
length-insert-le k v [] = omega arith
length-insert-le k v ((j, w) ∷ m) = ground (arith, length-insert-le k v m)

length-erase-le : (k : String) (m : List (String × String)) → length (erase k m) ≤ length m
unfolding erase
length-erase-le k [] = omega arith
length-erase-le k ((j, w) ∷ m) = ground (arith, length-erase-le k m)

length-erase-lt :
    (k : String) (m : List (String × String)) → lookup k m ≢ none → length (erase k m) < length m
unfolding erase lookup
length-erase-lt k [] h = absurd (h refl)
length-erase-lt k ((j, w) ∷ m) h = ground (arith, length-erase-le k m, length-erase-lt k m)

module _ {R : Type 0} (redis : Redis R) (fields : String → R → List (String × String))
    (a : Answers redis fields) where
  delete_keys-le :
      (p : String) (ks : List String) (r : R)
      → length (fields p (delete_keys redis p ks r)) ≤ length (fields p r)
  unfolding delete_keys
  delete_keys-le p [] r = omega arith
  delete_keys-le p (k ∷ ks) r = omega (
    arith,
    delete_keys-le p ks (redis.hdel p k r).1,
    ap length (a.hdel_fields p k r),
    length-erase-le k (fields p r),
  )

  -- To delete one key that is there, and more, leaves fewer fields.
  delete_keys-lt :
      (p k : String) (ks : List String) (r : R)
      → lookup k (fields p r) ≢ none
      → length (fields p (delete_keys redis p (k ∷ ks) r)) < length (fields p r)
  unfolding delete_keys
  delete_keys-lt p k ks r h = omega (
    arith,
    delete_keys-le p ks (redis.hdel p k r).1,
    ap length (a.hdel_fields p k r),
    length-erase-lt k (fields p r) h,
  )

  evict_keys-lt :
      (c : L1Cache) (ks : List String) (r : R)
      → 0 < length ks
      → All (λ f. lookup f (fields c.key_prefix r) ≢ none) ks
      → length (fields c.key_prefix (evict_keys redis c (ok ks, r)).1)
        < length (fields c.key_prefix r)
  unfolding evict_keys
  evict_keys-lt c [] r p h = absurd (omega arith)
  evict_keys-lt c (k ∷ ks) r p h =
      let n = delete_count redis (length (k ∷ ks)) in
      let e : n ≡ suc (n - 1) = ground arith in
      rw e (delete_keys-lt c.key_prefix k (take (n - 1) ks) r h.0)

  -- An eviction leaves fewer fields than the maximum.
  evict_if_needed-lt :
      (c : L1Cache) (r : R) (n : ℕ)
      → c.max_size ≡ pos n
      → 0 < n
      → length (fields c.key_prefix r) ≤ n
      → length (fields c.key_prefix (evict_if_needed redis c r).1) < n
  unfolding evict_if_needed evict_counted
  evict_if_needed-lt c r n e p h =
      let (ks, reply, same, there) = a.hkeys_reply c.key_prefix r in
      rw (a.hlen_reply c.key_prefix r, evict_if_needed)
        (elim (Bool-cases (leb_ℤ c.max_size (pos (length (fields c.key_prefix r))))) [
          | inl full ↦
              let pos_max : leb_ℤ c.max_size (pos 0) ≡ false = ground arith in
              rw (pos_max, full, reply) (le_trans (evict_keys-lt c ks r (ground arith) there) h)
          | inr room ↦
              let pos_max : leb_ℤ c.max_size (pos 0) ≡ false = ground arith in
              rw (pos_max, room) (ground arith)
        ])

  after_hset-fields :
      (c : L1Cache) (r : R) (x : Option String × R)
      → x.0 ≡ none
      → fields c.key_prefix (after_hset redis c x).1 ≡ fields c.key_prefix x.1
  unfolding after_hset
  after_hset-fields c r (some e, s) h = absurd (cc)
  after_hset-fields c r (none, s) h = ground (arith, a.expire_fields c.key_prefix c.ttl s)

  -- `Set` inserts the field into what the eviction left.
  set-fields :
      (c : L1Cache) (key value : String) (r : R)
      → c.client ≡ true
      → fields c.key_prefix (set redis c key value r).1
        ≡ insert key value (fields c.key_prefix (evict_if_needed redis c r).1)
  unfolding set
  set-fields c key value r e =
      let left = (evict_if_needed redis c r).1 in
      rw (e, set)
        (after_hset-fields c r (redis.hset c.key_prefix key value left)
            (a.hset_reply c.key_prefix key value left)
          ∙ a.hset_fields c.key_prefix key value left)

  -- On a Redis that answers without error and where no key expires, a cache with a positive maximum
  -- that holds no more entries than that still holds no more after any `Set`.
  pub set-bounded :
      (c : L1Cache) (key value : String) (r : R) (n : ℕ)
      → c.max_size ≡ pos n
      → 0 < n
      → length (fields c.key_prefix r) ≤ n
      → length (fields c.key_prefix (set redis c key value r).1) ≤ n
  set-bounded c key value r n e p h = elim (Bool-cases c.client) [
    | inl on ↦
        let less = evict_if_needed-lt c r n e p h in
        rw (set-fields c key value r on) (
          omega
            (arith, length-insert-le key value (fields c.key_prefix (evict_if_needed redis c r).1)))
    | inr off ↦ unfold set in rw (off, set) h
  ]

  get-fields :
      (c : L1Cache) (key : String) (r : R)
      → c.client ≡ true
      → (get redis c key r).0 ≡ ok (lookup key (fields c.key_prefix r))
  unfolding get
  get-fields c key r e = ground (arith, a.hget_reply c.key_prefix key r)

  -- On a cache with a Redis client and a Redis that answers without error, `Get` after `Set` of the
  -- same key returns the value, whatever was evicted.
  pub get-set :
      (c : L1Cache) (key value : String) (r : R)
      → c.client ≡ true
      → (get redis c key (set redis c key value r).1).0 ≡ ok (some value)
  get-set c key value r e =
      let m = fields c.key_prefix (evict_if_needed redis c r).1 in
      get-fields c key (set redis c key value r).1 e
      ∙ ap (λ (l : List (String × String)). ok (lookup key l)) (set-fields c key value r e)
      ∙ ap ok (lookup-insert_self key value m)

  -- To look up a key leaves Redis as it was.
  pub get-world : (c : L1Cache) (key : String) (r : R) → (get redis c key r).1 ≡ r
  unfolding get
  get-world c key r = ground (arith, a.hget_reply c.key_prefix key r)
