-- ===== src/Scores/Allocatable.antt =====
-- pkg/noderesources: the score by the allocatable resources of a node (allocatable.go and
-- resource_allocation.go). `none` is a panic.
pub mod Opposite
use plugins_improve.Prelude.{
  ℕ, ◌^◌, ℤ, pos, negsuc, add64, mul64, quot64, ltb_ℤ, leb_ℤ, eqb_ℤ, Bool, true, false, Option,
  none, some, List, [], ◌∷◌, String, str_eq, lookup, lookup_or, insert, if◌then◌else◌,
}
use plugins_improve.Status.{Status, success, error}
use plugins_improve.Quantities.{ResourceList, PodSpec}
use plugins_improve.Capacity.Resource.{Resource}

-- `config.ModeType`.
pub data Mode : Type 0 where
  least most other : Mode

-- `resourceToWeightMap`, and `resourceToValueMap`.
abbrev pub Weights : Type 0
Weights = List (String × ℤ)

abbrev pub default_resources_to_weight_map : Weights
default_resources_to_weight_map = ("memory", pos 1) ∷ ("cpu", pos (2 ^ 20)) ∷ []

unfoldable pub validate_resources : List (String × ℤ) → Bool
validate_resources [] = true
validate_resources ((name, weight) ∷ rest) =
    let others = validate_resources rest in if leb_ℤ weight (pos 0) then false else others

unfoldable pub weights_of : List (String × ℤ) → Weights → Weights
weights_of [] weights = weights
weights_of ((name, weight) ∷ rest) weights = weights_of rest (insert name weight weights)

-- The weights of a plugin whose arguments have the resources.
unfoldable pub chosen_weights : List (String × ℤ) → Weights
unfolding weights_of
chosen_weights [] = default_resources_to_weight_map
chosen_weights (r ∷ rs) = weights_of (r ∷ rs) []

unfoldable pub score : ℤ → Mode → ℤ
score capacity least = mul64 (negsuc 0) capacity
score capacity most = capacity
score capacity other = pos 0

unfoldable pub weigh_from : Mode → List (String × ℤ) → Weights → ℤ × ℤ → ℤ × ℤ
unfolding score lookup_or
weigh_from mode allocatable [] sums = sums
weigh_from mode allocatable ((name, weight) ∷ rest) (node_score, weight_sum) =
    weigh_from mode allocatable rest (
      add64 node_score (mul64 (score (lookup_or name (pos 0) allocatable) mode) weight),
      add64 weight_sum weight,
    )

unfoldable pub resource_scorer : Weights → Mode → List (String × ℤ) → Option ℤ
unfolding weigh_from
resource_scorer weights mode allocatable =
    let (node_score, weight_sum) = weigh_from mode allocatable weights (pos 0, pos 0) in
    if eqb_ℤ weight_sum (pos 0) then none else some (quot64 node_score weight_sum)

-- What the plugin reads of a node.
pub record NodeInfo : Type 0 where
  pub allocatable : Resource
  pub requested : Resource
  pub non_zero_requested : Resource

module _ {Q : Type 0} (value : Q → ℤ) (is_scalar_resource_name : String → Bool) where
  unfoldable pub sum_containers : String → List (ResourceList Q) → ℤ → ℤ
  sum_containers resource [] request = request
  sum_containers resource (c ∷ cs) request =
      sum_containers resource cs
        (elim (lookup resource c) [ none ↦ request | some q ↦ add64 request (value q) ])

  unfoldable pub raise_init_containers : String → List (ResourceList Q) → ℤ → ℤ
  raise_init_containers resource [] request = request
  raise_init_containers resource (c ∷ cs) request =
      raise_init_containers resource cs (elim (lookup resource c) [
        | none ↦ request
        | some q ↦ if ltb_ℤ request (value q) then value q else request
      ])

  unfoldable pub calculate_pod_resource_request : PodSpec Q → String → ℤ
  unfolding sum_containers raise_init_containers
  calculate_pod_resource_request spec resource =
      let request =
        raise_init_containers resource spec.init_containers
          (sum_containers resource spec.containers (pos 0)) in
      elim (lookup resource spec.overhead) [ none ↦ request | some q ↦ add64 request (value q) ]

  unfoldable pub calculate_resource_allocatable_request : NodeInfo → PodSpec Q → String → ℤ × ℤ
  unfolding calculate_pod_resource_request lookup_or
  calculate_resource_allocatable_request info spec resource =
      let request = calculate_pod_resource_request spec resource in
      if str_eq resource "cpu"
      then (info.allocatable.milli_cpu, add64 info.non_zero_requested.milli_cpu request)
      else if str_eq resource "memory"
      then (info.allocatable.memory, add64 info.non_zero_requested.memory request)
      else if str_eq resource "ephemeral-storage"
      then (info.allocatable.ephemeral_storage, add64 info.requested.ephemeral_storage request)
      else if is_scalar_resource_name resource
      then (
        lookup_or resource (pos 0) info.allocatable.scalar_resources,
        add64 (lookup_or resource (pos 0) info.requested.scalar_resources) request,
      )
      else (pos 0, pos 0)

  unfoldable pub allocatable_of : NodeInfo → PodSpec Q → Weights → List (String × ℤ)
  unfolding calculate_resource_allocatable_request
  allocatable_of info spec [] = []
  allocatable_of info spec ((name, weight) ∷ rest) =
      insert name (calculate_resource_allocatable_request info spec name).0
        (allocatable_of info spec rest)

  -- `info` is `none` where the node is nil. The map of the requests is not read by the scorer.
  unfoldable pub allocation_score :
      Weights → Mode → Option NodeInfo → PodSpec Q → Option (ℤ × Status)
  unfolding resource_scorer allocatable_of
  allocation_score weights mode none spec = some (pos 0, error)
  allocation_score weights mode (some info) spec =
      elim (resource_scorer weights mode (allocatable_of info spec weights)) [
        | none ↦ none
        | some s ↦ some (s, success)
      ]
