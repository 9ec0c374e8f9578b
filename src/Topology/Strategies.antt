-- ===== src/Topology/Strategies.antt =====
-- The strategies that score one NUMA node: least_allocated.go, most_allocated.go and
-- balanced_allocation.go of pkg/noderesourcetopology. `none` is a panic.
pub mod Bounds
use plugins_improve.Prelude.{
  ℕ, ℤ, pos, ltb_ℤ, eqb_ℤ, add64, sub64, mul64, quot64, Bool, true, false, Option, none, some, List,
  [], ◌∷◌, ◌++◌, String, lookup, lookup_or, if◌then◌else◌,
}
use plugins_improve.Floats.{Float64}
use plugins_improve.Quantities.{QuantityApi, ResourceList, is_more}
use plugins_improve.Topology.Numa.{Helpers}

-- `resourceToWeightMap`.
abbrev pub ResourceToWeightMap : Type 0
ResourceToWeightMap = List (String × ℤ)

abbrev pub default_weight : ℤ
default_weight = pos 1

unfoldable pub weight : ResourceToWeightMap → String → ℤ
weight rw_map r = elim (lookup r rw_map) [
  | none ↦ default_weight
  | some w ↦ if ltb_ℤ w (pos 1) then default_weight else w
]

abbrev pub max_node_score : ℤ
max_node_score = pos 100

module _ {api : QuantityApi} (helpers : Helpers api) where
  open api use {Q, zero_q, cmp}
  open helpers use {is_zero, value}

  -- The division is by a capacity that is not zero; a value that rounds to zero would panic.
  unfoldable pub least_allocated_score : Q → Q → Option ℤ
  least_allocated_score requested numa_capacity =
      if is_zero numa_capacity
      then some (pos 0)
      else if is_more (cmp requested numa_capacity)
      then some (pos 0)
      else if eqb_ℤ (value numa_capacity) (pos 0)
      then none
      else some (
          quot64 (mul64 (sub64 (value numa_capacity) (value requested)) max_node_score)
            (value numa_capacity))

  unfoldable pub most_allocated_score : Q → Q → Option ℤ
  most_allocated_score requested numa_capacity =
      if is_zero numa_capacity
      then some (pos 0)
      else if is_more (cmp requested numa_capacity)
      then some (pos 0)
      else if eqb_ℤ (value numa_capacity) (pos 0)
      then none
      else some (quot64 (mul64 (value requested) max_node_score) (value numa_capacity))

  -- The loop that both strategies have: the weighted sum of the scores and the sum of the weights.
  unfoldable pub weigh :
      (Q → Q → Option ℤ)
      → ResourceToWeightMap
      → ResourceList Q
      → ResourceList Q
      → ℤ × ℤ
      → Option (ℤ × ℤ)
  weigh score rw_map allocatable [] sums = some sums
  weigh score rw_map allocatable ((name, requested) ∷ rest) (numa_node_score, weight_sum) =
      elim (score requested (lookup_or name zero_q allocatable)) [
        | none ↦ none
        | some resource_score ↦ weigh score rw_map allocatable rest (
          add64 numa_node_score (mul64 resource_score (weight rw_map name)),
          add64 weight_sum (weight rw_map name),
        )
      ]

  abbrev pub weighted : Option (ℤ × ℤ) → Option ℤ
  weighted none = none
  weighted (some (numa_node_score, weight_sum)) =
      if eqb_ℤ weight_sum (pos 0) then none else some (quot64 numa_node_score weight_sum)

  unfoldable pub least_allocated_score_strategy :
      ResourceList Q → ResourceList Q → ResourceToWeightMap → Option ℤ
  unfolding weigh
  least_allocated_score_strategy requested allocatable rw_map =
      weighted (weigh least_allocated_score rw_map allocatable requested (pos 0, pos 0))

  unfoldable pub most_allocated_score_strategy :
      ResourceList Q → ResourceList Q → ResourceToWeightMap → Option ℤ
  unfolding weigh
  most_allocated_score_strategy requested allocatable rw_map =
      weighted (weigh most_allocated_score rw_map allocatable requested (pos 0, pos 0))

  module _ (float : Float64) where
    open float use {F, of_int, to_int, sub, mul, div, less}

    unfoldable pub fraction_of_capacity : Q → Q → F
    fraction_of_capacity requested capacity =
        if eqb_ℤ (value capacity) (pos 0)
        then of_int (pos 1)
        else div (of_int (value requested)) (of_int (value capacity))

    -- The loop; `none` is the early return of 0.
    unfoldable pub resource_fractions : ResourceList Q → ResourceList Q → Option (List F)
    unfolding fraction_of_capacity
    resource_fractions allocatable [] = some []
    resource_fractions allocatable ((name, requested) ∷ rest) =
        let fraction = fraction_of_capacity requested (lookup_or name zero_q allocatable) in
        elim (less (of_int (pos 1)) fraction) [
          | true ↦ none
          | false ↦ elim (resource_fractions allocatable rest) [
            | none ↦ none
            | some fractions ↦ some (fraction ∷ fractions)
          ]
        ]

    -- `variance` is gonum's.
    unfoldable pub balanced_allocation_score_strategy :
        (List F → F) → ResourceList Q → ResourceList Q → ResourceToWeightMap → Option ℤ
    unfolding resource_fractions
    balanced_allocation_score_strategy variance requested allocatable rw_map =
        elim (resource_fractions allocatable requested) [
          | none ↦ some (pos 0)
          | some fractions ↦
              some
                (to_int (mul (sub (of_int (pos 1)) (variance fractions)) (of_int max_node_score)))
        ]
