-- ===== src/Scores/Allocatable/Opposite.antt =====
-- The two modes of pkg/noderesources/allocatable.go.
use plugins_improve.Prelude.{
  ℕ, zero, suc, ◌+◌, ◌*◌, ◌/◌, ◌^◌, ◌<◌, ℤ, pos, negsuc, sub_ℕ, wrap64, ◌+ℤ◌, ◌*ℤ◌, add64, mul64,
  quot64, add64_small, mul64_small, All, List, [], ◌∷◌, String, map, lookup_or, some, ◌≡◌, arith,
}
use plugins_improve.Scores.Allocatable.{Weights, least, most, score, weigh_from, resource_scorer}

-- `-n`.
abbrev pub opposite : ℕ → ℤ
opposite n = sub_ℕ 0 n

mul64-opposite : (c w : ℕ) → c * w < 2 ^ 63 → mul64 (opposite c) (pos w) ≡ opposite (c * w)
unfolding mul64 ◌*ℤ◌ wrap64
mul64-opposite c w k = ground arith

add64-opposite : (a b : ℕ) → a + b < 2 ^ 63 → add64 (opposite a) (opposite b) ≡ opposite (a + b)
unfolding add64 ◌+ℤ◌ wrap64
add64-opposite a b k = ground arith

minus_one : (c : ℕ) → c < 2 ^ 63 → mul64 (negsuc 0) (pos c) ≡ opposite c
unfolding mul64 ◌*ℤ◌ wrap64
minus_one c h = ground arith

quot64-opposite : (n w : ℕ) → quot64 (opposite n) (pos w) ≡ opposite (n / w)
unfolding quot64
quot64-opposite zero w = ground arith
quot64-opposite (suc n) w = ground arith

module _ (allocatable : List (String × ℤ)) (capacity : String → ℕ)
    (known : (name : String) → lookup_or name (pos 0) allocatable ≡ pos (capacity name)) where
  -- The weights as they stand in the plugin's map.
  abbrev pub in_map : List (String × ℕ) → Weights
  in_map = map {B = String × ℤ} (λ e. (e.0, pos e.1))

  unfoldable pub total : List (String × ℕ) → ℕ
  total [] = 0
  total (e ∷ es) = capacity e.0 * e.1 + total es

  unfoldable pub weight_sum : List (String × ℕ) → ℕ
  weight_sum [] = 0
  weight_sum (e ∷ es) = e.1 + weight_sum es

  weigh_from-most :
      (es : List (String × ℕ)) (a b : ℕ)
      → a + total es < 2 ^ 63
      → b + weight_sum es < 2 ^ 63
      → weigh_from most allocatable (in_map es) (pos a, pos b)
        ≡ (pos (a + total es), pos (b + weight_sum es))
  unfolding weigh_from score total weight_sum
  weigh_from-most [] a b h k = ground arith
  weigh_from-most (e ∷ es) a b h k =
      let n = capacity e.0 * e.1 in
      ground (
        arith,
        known e.0,
        mul64_small (capacity e.0) e.1 (omega (arith, h)),
        add64_small a n (omega (arith, h)),
        add64_small b e.1 (omega (arith, k)),
        weigh_from-most es (a + n) (b + e.1) (omega (arith, h)) (omega (arith, k)),
      )

  weigh_from-least :
      (es : List (String × ℕ)) (a b : ℕ)
      → All (λ e. capacity e.0 < 2 ^ 63) es
      → a + total es < 2 ^ 63
      → b + weight_sum es < 2 ^ 63
      → weigh_from least allocatable (in_map es) (opposite a, pos b)
        ≡ (opposite (a + total es), pos (b + weight_sum es))
  unfolding weigh_from score total weight_sum
  weigh_from-least [] a b c h k = ground arith
  weigh_from-least (e ∷ es) a b (c, cs) h k =
      let n = capacity e.0 * e.1 in
      let one : mul64 (negsuc 0) (pos (capacity e.0)) ≡ opposite (capacity e.0) =
        minus_one (capacity e.0) c in
      ground (
        arith,
        known e.0,
        one,
        mul64-opposite (capacity e.0) e.1 (omega (arith, h)),
        add64-opposite a n (omega (arith, h)),
        add64_small b e.1 (omega (arith, k)),
        weigh_from-least es (a + n) (b + e.1) cs (omega (arith, h)) (omega (arith, k)),
      )

  -- For non-negative capacities and weights, with a positive sum of weights and no overflow, the score
  -- of the most allocatable is the weighted average of the capacities, rounded down, and the score of
  -- the least allocatable is exactly its opposite, so that the two modes order any nodes in opposite
  -- ways.
  pub resource_scorer-opposite :
      (es : List (String × ℕ))
      → All (λ e. capacity e.0 < 2 ^ 63) es
      → total es < 2 ^ 63
      → weight_sum es < 2 ^ 63
      → 0 < weight_sum es
      → (resource_scorer (in_map es) most allocatable ≡ some (pos (total es / weight_sum es)))
        × (resource_scorer (in_map es) least allocatable
            ≡ some (opposite (total es / weight_sum es)))
  unfolding resource_scorer quot64
  resource_scorer-opposite es c h k p = (
    rw (weigh_from-most es 0 0 (omega (arith, h)) (omega (arith, k))) (ground (arith, p)),
    rw (weigh_from-least es 0 0 c (omega (arith, h)) (omega (arith, k)))
        (ground (arith, p, quot64-opposite (total es) (weight_sum es))),
  )
