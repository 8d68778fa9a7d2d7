-- ===== src/Cache/L2Laws.antt =====
-- The semantic cache: which entry a search returns.
use mathlib.Core.Path.{subst}
use high_performance_llm_gat.Prelude.{
  ◌≡◌, refl, sym, ◌∙◌, String, List, [], ◌∷◌, Option, none, some, Bool, true, false, not, ◌&&◌,
  arith, All, Bool-cases, inl, inr, ◌⊎◌,
}
use high_performance_llm_gat.Prelude.Float.{Float, IsStrict}
use high_performance_llm_gat.Cache.{ok, Redis}
use high_performance_llm_gat.Cache.L2.{
  L2Cache, VectorEntry, SearchResult, cosine_similarity, other_model, improves, decoded, consider,
  consider_read, search_keys, search_listed, search, pattern_of,
}

module _ {F R : Type 0} (fl : Float F) (redis : Redis R) (decode : String → Option (VectorEntry F))
    (c : L2Cache F) (query : List F) (model : String) where
  -- What the loop of `Search` reads: each key with the entry that is decoded there.
  unfoldable pub readings : List String → R → List (String × Option (VectorEntry F))
  readings [] r = []
  readings (k ∷ ks) r =
      let (reply, r') = redis.get k r in (k, decoded fl redis decode reply) ∷ readings ks r'

  -- An entry of the model that was asked for whose similarity reaches the threshold.
  abbrev pub hits : VectorEntry F → Bool
  hits e =
      not (other_model fl redis decode model e.model)
      && fl.le c.similarity_threshold (cosine_similarity fl query e.vector)

  -- The match is no worse than the entry, if that is a hit.
  abbrev pub Dominates : Option (SearchResult F) → String × Option (VectorEntry F) → Type 0
  Dominates best (k, none) = Unit
  Dominates best (k, some e) =
      (hits e && improves fl redis decode (cosine_similarity fl query e.vector) best) ≡ false

  -- The match is one of the hits that were read.
  abbrev pub IsFrom : List (String × Option (VectorEntry F)) → SearchResult F → Type 0
  IsFrom [] b = ⊥
  IsFrom ((k, none) ∷ l) b = IsFrom l b
  IsFrom ((k, some e) ∷ l) b =
      ((hits e ≡ true)
        × (b.key ≡ k)
        × (b.response ≡ e.response)
        × (b.similarity ≡ cosine_similarity fl query e.vector))
      ⊎ IsFrom l b

  -- The fold of the loop over what it reads.
  unfoldable pub best_of :
      List (String × Option (VectorEntry F)) → Option (SearchResult F) → Option (SearchResult F)
  best_of [] best = best
  best_of ((k, e) ∷ l) best = best_of l (consider_read fl redis decode c query model k e best)

  search_keys-best_of :
      (ks : List String) (best : Option (SearchResult F)) (r : R)
      → (search_keys fl redis decode c query model ks best r).0 ≡ best_of (readings ks r) best
  unfolding search_keys best_of readings
  search_keys-best_of [] best r = refl
  search_keys-best_of (k ∷ ks) best r = search_keys-best_of ks _ (redis.get k r).1

  -- `b` is at least as good as `a`: whatever `a` dominates `b` dominates.
  AtLeast : Option (SearchResult F) → Option (SearchResult F) → Type 0
  AtLeast a b =
      (s : F) → improves fl redis decode s a ≡ false → improves fl redis decode s b ≡ false

  module _ (strict : IsStrict fl) where
    consider-AtLeast :
        (k : String) (e : VectorEntry F) (best : Option (SearchResult F))
        → AtLeast best (consider fl redis decode c query model k e best)
    unfolding AtLeast consider
    consider-AtLeast k e none s h = absurd (cc)
    consider-AtLeast k e (some b) s h =
        ground (arith, h, strict.trans b.similarity (cosine_similarity fl query e.vector) s)

    consider-Dominates :
        (k : String) (e : VectorEntry F) (best : Option (SearchResult F))
        → Dominates (consider fl redis decode c query model k e best) (k, some e)
    unfolding consider
    consider-Dominates k e none =
        ground (arith, strict.irrefl (cosine_similarity fl query e.vector))
    consider-Dominates k e (some b) =
        ground (arith, strict.irrefl (cosine_similarity fl query e.vector))

    AtLeast-Dominates :
        (a b : Option (SearchResult F)) (x : String × Option (VectorEntry F))
        → AtLeast a b
        → Dominates a x
        → Dominates b x
    unfolding AtLeast
    AtLeast-Dominates a b (k, none) h d = tt
    AtLeast-Dominates a b (k, some e) h d =
        let s = cosine_similarity fl query e.vector in
        elim (Bool-cases (improves fl redis decode s a)) [
          | inl worse ↦ ground arith
          | inr fine ↦ ground (arith, h s fine)
        ]

    best_of-AtLeast :
        (l : List (String × Option (VectorEntry F))) (best : Option (SearchResult F))
        → AtLeast best (best_of l best)
    unfolding AtLeast best_of
    best_of-AtLeast [] best s h = h
    best_of-AtLeast ((k, none) ∷ l) best s h = best_of-AtLeast l best s h
    best_of-AtLeast ((k, some e) ∷ l) best s h =
        best_of-AtLeast l (consider fl redis decode c query model k e best) s
          (consider-AtLeast k e best s h)

    best_of-Dominates :
        (l : List (String × Option (VectorEntry F))) (best : Option (SearchResult F))
        → All (Dominates (best_of l best)) l
    unfolding best_of
    best_of-Dominates [] best = tt
    best_of-Dominates ((k, none) ∷ l) best = (tt, best_of-Dominates l best)
    best_of-Dominates ((k, some e) ∷ l) best =
        let best' = consider fl redis decode c query model k e best in
        (
          AtLeast-Dominates best' (best_of l best') (k, some e) (best_of-AtLeast l best')
              (consider-Dominates k e best),
          best_of-Dominates l best',
        )

  consider-IsFrom :
      (k : String) (e : VectorEntry F) (l : List (String × Option (VectorEntry F)))
      (best : Option (SearchResult F)) (b : SearchResult F)
      → consider fl redis decode c query model k e best ≡ some b
      → (best ≡ some b) ⊎ IsFrom ((k, some e) ∷ l) b
  unfolding consider
  consider-IsFrom k e l best b h = elim (Bool-cases (hits e)) [
    | inl hit ↦
        elim (Bool-cases (improves fl redis decode (cosine_similarity fl query e.vector) best)) [
          | inl better ↦ inr (inl (hit, ground arith, ground arith, ground arith))
          | inr worse ↦ inl (ground arith)
        ]
    | inr miss ↦ inl (ground arith)
  ]

  best_of-IsFrom :
      (l : List (String × Option (VectorEntry F))) (best : Option (SearchResult F))
      (b : SearchResult F)
      → best_of l best ≡ some b
      → (best ≡ some b) ⊎ IsFrom l b
  unfolding best_of
  best_of-IsFrom [] best b h = inl h
  best_of-IsFrom ((k, none) ∷ l) best b h = best_of-IsFrom l best b h
  best_of-IsFrom ((k, some e) ∷ l) best b h =
      elim (best_of-IsFrom l (consider fl redis decode c query model k e best) b h) [
        | inl here ↦ consider-IsFrom k e l best b here
        | inr later ↦ inr (inr later)
      ]

  -- What a match says of the entries that were read.
  abbrev pub IsSound : List (String × Option (VectorEntry F)) → Option (SearchResult F) → Type 0
  IsSound l none = Unit
  IsSound l (some b) = IsFrom l b

  -- A search on a Redis that lists its keys returns a match only from the entries that it reads,
  -- with that entry's key, response and similarity, of the model that was asked for and at the
  -- threshold or above; and no entry that it reads is a hit that is better than the match, nor is
  -- there any hit if there is no match.
  pub search-best :
      (keys : List String) (r r' : R) (out : Option (SearchResult F))
      → IsStrict fl
      → c.client ≡ true
      → redis.keys (pattern_of fl redis decode c) r ≡ (ok keys, r')
      → (search fl redis decode c query model r).0 ≡ ok out
      → All (Dominates out) (readings keys r') × IsSound (readings keys r') out
  unfolding search search_listed
  search-best keys r r' out strict on listed found =
      let l = readings keys r' in
      let e : best_of l none ≡ out =
        sym (search_keys-best_of keys none r') ∙ ground (arith, listed) in
      (subst (λ x. All (Dominates x) l) e (best_of-Dominates strict l none), sound l out e)
    where
      sound :
          (l : List (String × Option (VectorEntry F))) (out : Option (SearchResult F))
          → best_of l none ≡ out
          → IsSound l out
      sound l none h = tt
      sound l (some b) h = elim (best_of-IsFrom l none b h) [
        | inl e ↦ absurd (cc)
        | inr from ↦ from
      ]
