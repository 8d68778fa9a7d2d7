-- ===== src/Cache/L2Evict.antt =====
-- The semantic cache: which entries an eviction removes, and when it fails.
use mathlib.Core.List.{Perm}
use mathlib.Core.Path.{subst}
use high_performance_llm_gat.Prelude.{
  ℕ, zero, suc, ◌≤◌, ◌<◌, ◌≡◌, ◌≢◌, refl, sym, ap, ◌∙◌, String, List, [], ◌∷◌, ◌++◌, map, Option,
  none, some, true, false, arith, length, take, drop, take-append-drop, All, Bool-cases, inl, inr,
}
use high_performance_llm_gat.Prelude.Int.{ℤ, pos, leb_ℤ}
use high_performance_llm_gat.Prelude.Float.{Float}
use high_performance_llm_gat.Prelude.Sorting.{IsOrder, length-sort_by, sort_by-perm, split-sort_by}
use high_performance_llm_gat.Cache.{Reply, ok, Redis}
use high_performance_llm_gat.Cache.L2.{
  L2Cache, VectorEntry, Aged, older, sort_aged, evict_count, first_keys, victims, read_entries,
  evict_listed, evict_if_needed, store, pattern_of, ended, panicked,
}

-- The first entry is no younger than the second.
abbrev pub Older : Aged → Aged → Type 0
Older d e = older d e ≡ true

older-IsOrder : IsOrder older
older-IsOrder = record { total = λ d e h. ground arith; trans = λ d e f h k. ground arith }

first_keys-take :
    (n : ℕ) (es : List Aged) → n ≤ length es → first_keys n es ≡ some (map (λ e. e.key) (take n es))
unfolding first_keys
first_keys-take zero es h = refl
first_keys-take (suc n) [] h = absurd (omega arith)
first_keys-take (suc n) (e ∷ es) h = rw (first_keys-take n es (omega arith))

length_pos : (es : List Aged) → es ≢ [] → 0 < length es
length_pos [] h = absurd (h refl)
length_pos (e ∷ es) h = omega arith

length-take : (n : ℕ) (es : List Aged) → n ≤ length es → length (take n es) ≡ n
length-take zero es h = refl
length-take (suc n) [] h = absurd (omega arith)
length-take (suc n) (e ∷ es) h = ap suc (length-take n es (omega arith))

-- If an entry can be read, an eviction removes the oldest ones, a tenth of them and one at least:
-- the readable entries are those removed and those kept, and none that is removed is younger than
-- one that is kept.
victims-oldest :
    (es : List Aged)
    → es ≢ []
    → (removed : List Aged) × (kept : List Aged) × (victims es ≡ some (map (λ e. e.key) removed))
      × (length removed ≡ evict_count (length es))
      × Perm (removed ++ kept) es
      × All (λ d. All (Older d) kept) removed
unfolding victims sort_aged
victims-oldest es h =
    let sorted = sort_aged es in
    let n = evict_count (length es) in
    let fits : n ≤ length sorted = ground (arith, length-sort_by older es, length_pos es h) in
    (
      take n sorted,
      drop n sorted,
      first_keys-take n sorted fits,
      length-take n sorted fits,
      subst (λ x. Perm x es) (sym (take-append-drop n sorted)) (sort_by-perm older es),
      split-sort_by older older-IsOrder n es,
    )

module _ {F R : Type 0} (fl : Float F) (redis : Redis R)
    (decode : String → Option (VectorEntry F)) where
  -- A cache that holds its maximum of keys, of which some can be read as entries, removes by DEL the
  -- oldest of these, a tenth of them and one at least: the readable entries are those removed and
  -- those kept, and none that is removed is younger than one that is kept. Nothing else is sent after
  -- the reads.
  pub evict_if_needed-oldest :
      (c : L2Cache F) (keys : List String) (es : List Aged) (r r' r'' : R) (n : ℕ)
      → c.max_size ≡ pos n
      → 0 < n
      → n ≤ length keys
      → redis.keys (pattern_of fl redis decode c) r ≡ (ok keys, r')
      → read_entries fl redis decode keys r' ≡ (es, r'')
      → es ≢ []
      → (removed : List Aged) × (kept : List Aged) × (evict_if_needed fl redis decode c r
          ≡ ended none (redis.del (map (λ e. e.key) removed) r'').1)
        × (length removed ≡ evict_count (length es))
        × Perm (removed ++ kept) es
        × All (λ d. All (Older d) kept) removed
  unfolding evict_if_needed evict_listed
  evict_if_needed-oldest c keys es r r' r'' n max p full listed read some_entry =
      let pos_max : leb_ℤ c.max_size (pos 0) ≡ false = ground arith in
      let over : leb_ℤ c.max_size (pos (length keys)) ≡ true = ground arith in
      let (removed, kept, picked, number, perm, oldest) = victims-oldest es some_entry in
      (removed, kept, rw (pos_max, listed, over, read, picked) refl, number, perm, oldest)

  -- A cache that holds its maximum of keys, of which none can be read as an entry, fails in the next
  -- `Store`: the eviction reads past the end of an empty list, which is a panic in Go, after the reads
  -- and before the entry is set.
  pub store-panics :
      (encode : VectorEntry F → Reply String) (now : ℤ) (c : L2Cache F)
      (key response model : String) (vector : List F) (keys : List String) (r r' : R) (n : ℕ)
      → c.client ≡ true
      → c.max_size ≡ pos n
      → 0 < n
      → n ≤ length keys
      → redis.keys (pattern_of fl redis decode c) r ≡ (ok keys, r')
      → (read_entries fl redis decode keys r').0 ≡ []
      → store fl redis decode encode now c key vector response model r
        ≡ panicked (read_entries fl redis decode keys r').1
  unfolding store evict_if_needed evict_listed victims
      high_performance_llm_gat.Prelude.Sorting.sort_by
  store-panics encode now c key response model vector keys r r' n on max p full listed unread =
      let pos_max : leb_ℤ c.max_size (pos 0) ≡ false = ground arith in
      let over : leb_ℤ c.max_size (pos (length keys)) ≡ true = ground arith in
      rw (on, pos_max, listed, over, unread, victims) refl
