-- ===== src/Topology/Fit.antt =====
-- resourcesAvailableInAnyNUMANodes of pkg/noderesourcetopology/filter.go.
pub mod Spec
pub mod Bits
pub mod Lowest
use plugins_improve.Prelude.{
  ℕ, zero, suc, ltb, ◌==◌, Bool, true, false, not, ◌&&◌, ◌||◌, Option, none, some, List, [], ◌∷◌,
  ◌++◌, String, ◌≡◌, length, lookup, has, keep, if◌then◌else◌,
}
use plugins_improve.Quantities.{QuantityApi, ResourceList}
use plugins_improve.Queue.Qos.{PodQosClass}
use plugins_improve.Topology.Numa.{
  Helpers, NumaNode, is_host_level_resource, is_resource_set_suitable,
}

-- 0, 1, …, n - 1.
abbrev pub up_to : ℕ → List ℕ
up_to zero = []
up_to (suc n) = up_to n ++ n ∷ []

-- The kubelet's set of NUMA ids below 64: `has` says which bits are set.
pub record BitMaskApi : Type 1 where
  pub B : Type 0
  pub empty : B
  pub fill : B
  pub add : ℕ → B → B
  pub meet : B → B → B
  pub is_empty : B → Bool
  pub get_bits : B → List ℕ
  pub count : B → ℕ
  pub has_bit : B → ℕ → Bool
  pub has_bit-empty : (i : ℕ) → has_bit empty i ≡ false
  pub has_bit-fill : (i : ℕ) → has_bit fill i ≡ ltb i 64
  pub has_bit-add : (b : B) (i j : ℕ) → has_bit (add i b) j ≡ (ltb i 64 && i == j || has_bit b j)
  pub has_bit-meet : (a b : B) (i : ℕ) → has_bit (meet a b) i ≡ (has_bit a i && has_bit b i)
  pub get_bits-has_bit : (b : B) → get_bits b ≡ keep (has_bit b) (up_to 64)
  pub is_empty-get_bits : (b : B) → is_empty b ≡ (length (get_bits b) == 0)
  pub count-get_bits : (b : B) → count b ≡ length (get_bits b)

abbrev pub highest_numa_id : ℕ
highest_numa_id = 8

module _ {api : QuantityApi} (helpers : Helpers api) (mask : BitMaskApi) where
  open api use {Q}
  open mask use {B, empty, fill, add, meet, is_empty, get_bits}

  -- The loop over the nodes for one resource: whether some node has it, and the nodes that suffice.
  unfoldable pub resource_bitmask :
      PodQosClass → String → Q → List (NumaNode Q) → Bool × B → Bool × B
  resource_bitmask qos name quantity [] found = found
  resource_bitmask qos name quantity (n ∷ ns) found =
      resource_bitmask qos name quantity ns (elim (lookup name n.resources) [
        | none ↦ found
        | some numa_quantity ↦
            if is_resource_set_suitable helpers qos name quantity numa_quantity
            then (true, add n.numa_id found.1)
            else (true, found.1)
      ])

  -- The loop body; `none` is an early verdict.
  unfoldable pub meet_resource :
      PodQosClass → List (NumaNode Q) → ResourceList Q → String → Q → B → Option B
  unfolding resource_bitmask has
  meet_resource qos nodes node_resources name quantity bitmask =
      if helpers.is_zero quantity
      then some bitmask
      else if not (has name node_resources)
      then none
      else let found = resource_bitmask qos name quantity nodes (false, empty) in
        if not found.0 && is_host_level_resource helpers name
        then some bitmask
        else let both = meet bitmask found.1 in if is_empty both then none else some both

  unfoldable pub meet_resources :
      PodQosClass → List (NumaNode Q) → ResourceList Q → ResourceList Q → B → Option B
  unfolding meet_resource
  meet_resources qos nodes node_resources [] bitmask = some bitmask
  meet_resources qos nodes node_resources ((name, quantity) ∷ rest) bitmask =
      elim (meet_resource qos nodes node_resources name quantity bitmask) [
        | none ↦ none
        | some both ↦ meet_resources qos nodes node_resources rest both
      ]

  -- `node_resources` is the allocatable of the node. `none` is the panic of an empty list of bits.
  unfoldable pub resources_available_in_any_numa_nodes :
      List (NumaNode Q) → ResourceList Q → PodQosClass → ResourceList Q → Option (ℕ × Bool)
  unfolding meet_resources
  resources_available_in_any_numa_nodes nodes resources qos node_resources =
      elim (meet_resources qos nodes node_resources resources fill) [
        | none ↦ some (highest_numa_id, false)
        | some bitmask ↦ elim (get_bits bitmask) [
          | [] ↦ none
          | id ∷ ids ↦ some (id, not (is_empty bitmask))
        ]
      ]
