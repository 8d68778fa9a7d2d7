-- ===== src/Registry/Weights.antt =====
-- The weighted order: it loses no route, and each route is drawn in proportion to its weight.
use mathlib.Core.List.{Perm}
use mathlib.Core.List.Perm
use high_performance_llm_gat.Prelude.{
  ℕ, zero, suc, ◌+◌, ◌-◌, ◌<◌, ◌≡◌, refl, inl, inr, List, [], ◌∷◌, some, arith, leb, length,
  get_elem?, Bool-cases, Option-cases,
}
use high_performance_llm_gat.Prelude.Int.{pos, pos_part, +ℤ-pos, int_half}
use high_performance_llm_gat.Registry.{RouteCandidate, Registry, System, rand}
use high_performance_llm_gat.Registry.Order.{
  total_weight, scan, or_last, weighted_pick_index, pick_at, order_from, weighted_order,
}

scan-lt :
    (i pick : ℕ) (cs : List RouteCandidate) (j : ℕ) → scan i pick cs ≡ some j → j < i + length cs
unfolding scan
scan-lt i pick [] j h = cc
scan-lt i pick (c ∷ cs) j h =
    ground (arith, scan-lt (i + 1) pick cs j, scan-lt (i + 1) (pick - pos_part c.weight) cs j)

or_last-scan-lt :
    (pick : ℕ) (cs : List RouteCandidate) → 0 < length cs → or_last (scan 0 pick cs) cs < length cs
or_last-scan-lt pick cs h = elim (Option-cases (scan 0 pick cs)) [
  | inl e ↦ rw e (omega arith)
  | inr (j, e) ↦ rw e (omega (arith, scan-lt 0 pick cs j e))
]

pick_at-perm {ℓ} :
    {A : Type ℓ} (i : ℕ) (xs : List A)
    → i < length xs
    → (x : A) × (rest : List A) × (pick_at i xs ≡ some (x, rest))
      × (length rest + 1 ≡ length xs)
      × Perm (x ∷ rest) xs
unfolding pick_at
pick_at-perm i [] h = elim h [ ]
pick_at-perm zero (x ∷ xs) h = (x, xs, refl, omega arith, Perm.refl (x ∷ xs))
pick_at-perm (suc i) (y ∷ xs) h =
    let (x, rest, e, n, p) = pick_at-perm i xs (omega arith) in
    (x, y ∷ rest, rw e, omega arith, Perm.trans (Perm.swap y x rest) (Perm.cons y p))

-- The weights of a list of routes, those that are not positive counted as 0.
abbrev pub weight_sum : List RouteCandidate → ℕ
weight_sum [] = 0
weight_sum (c ∷ cs) = pos_part c.weight + weight_sum cs

-- The weights in front of index `i`.
abbrev pub weight_before : ℕ → List RouteCandidate → ℕ
weight_before zero cs = 0
weight_before (suc i) [] = 0
weight_before (suc i) (c ∷ cs) = pos_part c.weight + weight_before i cs

weight_sum_pos :
    (i : ℕ) (cs : List RouteCandidate) (c : RouteCandidate)
    → get_elem? cs i ≡ some c
    → 0 < pos_part c.weight
    → 0 < weight_sum cs
weight_sum_pos i [] c h lt = cc
weight_sum_pos zero (d ∷ cs) c h lt = ground arith
weight_sum_pos (suc i) (d ∷ cs) c h lt = omega (arith, weight_sum_pos i cs c h lt)

total_weight-sum :
    (t : ℕ) (cs : List RouteCandidate)
    → t + weight_sum cs < int_half
    → total_weight (pos t) cs ≡ pos (t + weight_sum cs)
unfolding total_weight
total_weight-sum t [] h = ground arith
total_weight-sum t (c ∷ cs) h = ground (
  arith,
  total_weight-sum (t + pos_part c.weight) cs,
  total_weight-sum t cs,
  +ℤ-pos t (pos_part c.weight),
)

scan-weight_before :
    (i k j : ℕ) (cs : List RouteCandidate) (c : RouteCandidate)
    → get_elem? cs i ≡ some c
    → k < pos_part c.weight
    → scan j (weight_before i cs + k) cs ≡ some (j + i)
unfolding scan
scan-weight_before i k j [] c h lt = cc
scan-weight_before zero k j (d ∷ cs) c h lt = ground arith
scan-weight_before (suc i) k j (d ∷ cs) c h lt =
    let a = pos_part d.weight in
    let b = weight_before i cs in
    let before : a + b + k - a ≡ b + k = omega arith in
    ground (arith, scan-weight_before i k (j + 1) cs c, before)

module _ {F W : Type 0} (sys : System W) (r : Registry F W) where
  weighted_pick_index-lt :
      (cs : List RouteCandidate) (w : W)
      → 0 < length cs
      → (weighted_pick_index sys r cs w).0 < length cs
  unfolding weighted_pick_index
  weighted_pick_index-lt cs w h =
      ground (arith, or_last-scan-lt (rand sys r (pos_part (total_weight (pos 0) cs)) w).0 cs)

  order_from-perm :
      (n : ℕ) (pool : List RouteCandidate) (w : W)
      → length pool ≡ n
      → Perm (order_from sys r n pool w).0 pool
  unfolding order_from
  order_from-perm zero [] w h = Perm.refl []
  order_from-perm zero (c ∷ cs) w h = absurd (omega arith)
  order_from-perm (suc n) pool w h =
      let (i, w') = weighted_pick_index sys r pool w in
      let (c, rest, e, m, p) = pick_at-perm i pool (weighted_pick_index-lt pool w (omega arith)) in
      rw (e, order_from) (Perm.trans (Perm.cons c (order_from-perm n rest w' (omega arith))) p)

  -- Whatever is drawn, the weighted order is a permutation of the candidates: none is lost and none
  -- is tried twice.
  pub weighted_order-perm :
      (cs : List RouteCandidate) (w : W) → Perm (weighted_order sys r cs w).0 cs
  unfolding weighted_order
  weighted_order-perm cs w = elim (Bool-cases (leb (length cs) 1)) [
    | inl few ↦ rw few (Perm.refl cs)
    | inr many ↦ rw many (order_from-perm (length cs) cs w refl)
  ]

  -- Let the weights of the candidates sum up in range. If the random source is asked for a number
  -- below the sum and gives one of the `weight` numbers that start at the sum of the weights in
  -- front of candidate `i`, then `i` is picked: a share of the draws equal to the weight of `i`.
  pub weighted_pick_index-share :
      (cs : List RouteCandidate) (c : RouteCandidate) (i k : ℕ) (w w' : W)
      → weight_sum cs < int_half
      → get_elem? cs i ≡ some c
      → k < pos_part c.weight
      → rand sys r (weight_sum cs) w ≡ (weight_before i cs + k, w')
      → weighted_pick_index sys r cs w ≡ (i, w')
  unfolding weighted_pick_index
  weighted_pick_index-share cs c i k w w' range at lt drawn =
      let total : total_weight (pos 0) cs ≡ pos (weight_sum cs) =
        ground (arith, total_weight-sum 0 cs) in
      let some_weight : 0 < weight_sum cs = weight_sum_pos i cs c at (omega arith) in
      let hit : scan 0 (weight_before i cs + k) cs ≡ some (0 + i) =
        scan-weight_before i k 0 cs c at lt in
      ground arith
