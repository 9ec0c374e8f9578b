-- ===== src/Topology/Strategies/Bounds.antt =====
-- The range of the scores of pkg/noderesourcetopology: from 0 to 100.
use plugins_improve.Prelude.{
  ℕ, suc, ◌+◌, ◌-◌, ◌*◌, ◌/◌, ◌^◌, ◌≤◌, ◌<◌, ℤ, pos, negsuc, pos_part, quot64, add64_small,
  sub64_small, mul64_small, true, false, Option, some, [], ◌∷◌, String, ◌≡◌, ◌⊎◌, inl, inr, ap, ◌∙◌,
  arith, All, lookup, lookup_or, Option-cases, Bool-cases,
}
use plugins_improve.Quantities.{QuantityApi, ResourceList, is_more}
use plugins_improve.Topology.Numa.{Helpers}
use plugins_improve.Topology.Strategies.{
  ResourceToWeightMap, weight, least_allocated_score, most_allocated_score, weigh, weighted,
  least_allocated_score_strategy, most_allocated_score_strategy,
}

div_le_100 : (a c : ℕ) → 0 < c → a ≤ 100 * c → a / c ≤ 100
div_le_100 a c p h = grind arith

times_le : (a b c : ℕ) → a ≤ b → a * c ≤ b * c
times_le a b c h = grind arith

weight_of_value :
    (rw_map : ResourceToWeightMap) (r : String) (w : ℤ)
    → lookup r rw_map ≡ some w
    → (k : ℕ) × (weight rw_map r ≡ pos (suc k))
unfolding weight
weight_of_value rw_map r (pos n) e = (n - 1, ground (arith, e))
weight_of_value rw_map r (negsuc n) e = (0, ground (arith, e))

weight_pos : (rw_map : ResourceToWeightMap) (r : String) → (w : ℕ) × (weight rw_map r ≡ pos (suc w))
unfolding weight
weight_pos rw_map r = elim (Option-cases (lookup r rw_map)) [
  | inl e ↦ (0, ground (arith, e))
  | inr (w, e) ↦ weight_of_value rw_map r w e
]

module _ {api : QuantityApi} (helpers : Helpers api) where
  open api use {Q, zero_q, cmp}
  open helpers use {is_zero, value}

  -- The values of a request and of a capacity are read without overflow, a capacity that is not zero
  -- has a positive value, and the values are in the order of the quantities.
  abbrev pub Counted : Q → Q → Type 0
  Counted requested capacity =
      (r : ℕ) × (c : ℕ) × (value requested ≡ pos r)
      × (value capacity ≡ pos c)
      × (r * 100 < 2 ^ 63)
      × (c * 100 < 2 ^ 63)
      × ((is_zero capacity ≡ true) ⊎ (0 < c))
      × ((is_more (cmp requested capacity) ≡ true) ⊎ (r ≤ c))

  abbrev pub InRange : Option ℤ → Type 0
  InRange o = (s : ℕ) × (o ≡ some (pos s)) × (s ≤ 100)

  least_value :
      (requested capacity : Q) (r c : ℕ)
      → value requested ≡ pos r
      → value capacity ≡ pos c
      → c * 100 < 2 ^ 63
      → 0 < c
      → r ≤ c
      → is_zero capacity ≡ false
      → is_more (cmp requested capacity) ≡ false
      → least_allocated_score helpers requested capacity ≡ some (pos ((c - r) * 100 / c))
  unfolding least_allocated_score quot64
  least_value requested capacity r c vr vc bc p l z m =
      rw (z, m, vr, vc, sub64_small c r l (omega arith), mul64_small (c - r) 100 (omega arith))
        (ground arith)

  most_value :
      (requested capacity : Q) (r c : ℕ)
      → value requested ≡ pos r
      → value capacity ≡ pos c
      → r * 100 < 2 ^ 63
      → 0 < c
      → is_zero capacity ≡ false
      → is_more (cmp requested capacity) ≡ false
      → most_allocated_score helpers requested capacity ≡ some (pos (r * 100 / c))
  unfolding most_allocated_score quot64
  most_value requested capacity r c vr vc br p z m =
      rw (z, m, vr, vc, mul64_small r 100 br) (ground arith)

  least_allocated_score-InRange :
      (requested capacity : Q)
      → Counted requested capacity
      → InRange (least_allocated_score helpers requested capacity)
  unfolding least_allocated_score
  least_allocated_score-InRange requested capacity (r, c, vr, vc, br, bc, h, o) =
      elim (Bool-cases (is_zero capacity)) [
        | inl z ↦ (0, ground (arith, z), omega arith)
        | inr z ↦ elim (Bool-cases (is_more (cmp requested capacity))) [
          | inl m ↦ (0, ground (arith, z, m), omega arith)
          | inr m ↦
              let p : 0 < c = ground arith in
              let l : r ≤ c = ground arith in
              (
                (c - r) * 100 / c,
                least_value requested capacity r c vr vc bc p l z m,
                div_le_100 ((c - r) * 100) c p (omega arith),
              )
        ]
      ]

  most_allocated_score-InRange :
      (requested capacity : Q)
      → Counted requested capacity
      → InRange (most_allocated_score helpers requested capacity)
  unfolding most_allocated_score
  most_allocated_score-InRange requested capacity (r, c, vr, vc, br, bc, h, o) =
      elim (Bool-cases (is_zero capacity)) [
        | inl z ↦ (0, ground (arith, z), omega arith)
        | inr z ↦ elim (Bool-cases (is_more (cmp requested capacity))) [
          | inl m ↦ (0, ground (arith, z, m), omega arith)
          | inr m ↦
              let p : 0 < c = ground arith in
              let l : r ≤ c = ground arith in
              (
                r * 100 / c,
                most_value requested capacity r c vr vc br p z m,
                div_le_100 (r * 100) c p (omega arith),
              )
        ]
      ]

  -- The sum of the weights of the requested resources.
  abbrev pub total_weight : ResourceToWeightMap → ResourceList Q → ℕ
  total_weight rw_map [] = 0
  total_weight rw_map (e ∷ es) = pos_part (weight rw_map e.0) + total_weight rw_map es

  module _ (score : Q → Q → Option ℤ)
      (bounded : (requested capacity : Q)
        → Counted requested capacity
        → InRange (score requested capacity)) where
    weigh_step :
        (rw_map : ResourceToWeightMap) (allocatable : ResourceList Q) (name : String)
        (requested : Q) (rest : ResourceList Q) (acc w s v : ℕ)
        → score requested (lookup_or name zero_q allocatable) ≡ some (pos s)
        → weight rw_map name ≡ pos (suc v)
        → s * suc v < 2 ^ 63
        → acc + s * suc v < 2 ^ 63
        → w + suc v < 2 ^ 63
        → weigh helpers score rw_map allocatable ((name, requested) ∷ rest) (pos acc, pos w)
          ≡ weigh helpers score rw_map allocatable rest (pos (acc + s * suc v), pos (w + suc v))
    unfolding weigh
    weigh_step rw_map allocatable name requested rest acc w s v e g b c d = ground (
      arith,
      e,
      g,
      mul64_small s (suc v) b,
      add64_small acc (s * suc v) c,
      add64_small w (suc v) d,
    )

    weigh_bounded :
        (rw_map : ResourceToWeightMap) (allocatable requested : ResourceList Q) (acc w : ℕ)
        → All (λ e. Counted e.1 (lookup_or e.0 zero_q allocatable)) requested
        → acc ≤ 100 * w
        → (w + total_weight rw_map requested) * 100 < 2 ^ 63
        → (acc' : ℕ) × (weigh helpers score rw_map allocatable requested (pos acc, pos w)
            ≡ some (pos acc', pos (w + total_weight rw_map requested)))
          × (acc' ≤ 100 * (w + total_weight rw_map requested))
    unfolding weigh
    weigh_bounded rw_map allocatable [] acc w h k b = (acc, ground arith, omega arith)
    weigh_bounded rw_map allocatable ((name, requested) ∷ rest) acc w h k b =
        let (s, e, f) = bounded requested (lookup_or name zero_q allocatable) h.0 in
        let (v, g) = weight_pos rw_map name in
        let n : pos_part (weight rw_map name) ≡ suc v = ground (arith, g) in
        let m : s * suc v ≤ 100 * suc v = times_le s 100 (suc v) f in
        let (acc', i, j) =
          weigh_bounded rw_map allocatable rest (acc + s * suc v) (w + suc v) h.1 (omega arith)
            (omega arith) in
        (
          acc',
          weigh_step rw_map allocatable name requested rest acc w s v e g (omega arith)
                (omega arith) (omega arith)
              ∙ (i ∙ ap (λ (t : ℕ). some (pos acc', pos t)) (omega arith)),
          omega arith,
        )

    weighted_bounded :
        (rw_map : ResourceToWeightMap) (allocatable : ResourceList Q) (r : String × Q)
        (rest : ResourceList Q)
        → All (λ e. Counted e.1 (lookup_or e.0 zero_q allocatable)) (r ∷ rest)
        → total_weight rw_map (r ∷ rest) * 100 < 2 ^ 63
        → InRange
            (weighted helpers (weigh helpers score rw_map allocatable (r ∷ rest) (pos 0, pos 0)))
    unfolding quot64
    weighted_bounded rw_map allocatable r rest h b =
        let (acc, e, f) =
          weigh_bounded rw_map allocatable (r ∷ rest) 0 0 h (omega arith) (omega arith) in
        let (v, g) = weight_pos rw_map r.0 in
        let w = total_weight rw_map (r ∷ rest) in
        let p : 0 < 0 + w = ground (arith, g) in
        (acc / (0 + w), rw e (ground arith), div_le_100 acc (0 + w) p f)

  -- A request of one resource at least has a score from 0 to 100 on a NUMA node, by the strategy of the
  -- least and by that of the most allocated, with no panic and no overflow: where the values of the
  -- requests and capacities times 100, and 100 times the sum of the weights, are in the range of int64.
  pub strategies_bounded :
      (rw_map : ResourceToWeightMap) (allocatable : ResourceList Q) (r : String × Q)
      (rest : ResourceList Q)
      → All (λ e. Counted e.1 (lookup_or e.0 zero_q allocatable)) (r ∷ rest)
      → total_weight rw_map (r ∷ rest) * 100 < 2 ^ 63
      → InRange (least_allocated_score_strategy helpers (r ∷ rest) allocatable rw_map)
        × InRange (most_allocated_score_strategy helpers (r ∷ rest) allocatable rw_map)
  unfolding least_allocated_score_strategy most_allocated_score_strategy
  strategies_bounded rw_map allocatable r rest h b = (
    weighted_bounded (least_allocated_score helpers) least_allocated_score-InRange rw_map
        allocatable r rest h b,
    weighted_bounded (most_allocated_score helpers) most_allocated_score-InRange rw_map allocatable
        r rest h b,
  )
