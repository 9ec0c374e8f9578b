-- ===== src/Topology/Least.antt =====
-- pkg/noderesourcetopology/least_numa.go: the NUMA nodes that a request needs.
pub mod Fewest
pub mod Loop
pub mod Sets
pub mod Scopes
use plugins_improve.Prelude.{
  ℕ, zero, suc, ◌+◌, ◌-◌, ◌*◌, ◌/◌, ◌≤◌, ℤ, pos, ◌-ℤ◌, add64, sub64, mul64, ltb, leb, ◌==◌, length,
  get_elem?, Bool, true, false, not, ◌&&◌, ◌||◌, Option, none, some, List, [], ◌∷◌, ◌++◌, String,
  map, lookup, lookup_or, insert, has, ◌≡◌, all, if◌then◌else◌,
}
use plugins_improve.Quantities.{
  QuantityApi, ResourceList, Order, less, same, more, get_pod_effective_request,
}
use plugins_improve.Queue.Qos.{PodQosClass}
use plugins_improve.Cache.Store.{Zone, Pod}
use plugins_improve.Topology.Numa.{
  Helpers, NumaNode, cost_at, create_numa_node_list, only_non_numa_resources,
  is_resource_set_suitable,
}
use plugins_improve.Topology.Fit.{BitMaskApi, highest_numa_id}

-- float32: the quotient of two integers, the integers 255 and 256, and the comparisons.
pub record Distances : Type 1 where
  pub D : Type 0
  pub average : ℤ → ℕ → D
  pub max_distance_value : D
  pub over_max : D
  pub lt : D → D → Bool
  pub eq : D → D → Bool

-- gonum's `combin.Combinations`: the sets of k indices below n (`Lawful` of `Sets`).
abbrev pub Combinations : Type 0
Combinations = ℕ → ℕ → List (List ℕ)

module _ {api : QuantityApi} (helpers : Helpers api) (mask : BitMaskApi) (dist : Distances)
    (combinations : Combinations) where
  open api use {Q, zero_q, add, sub, cmp}
  open helpers use {is_zero, get_pod_qos}
  open dist use {D, average, max_distance_value, over_max, lt, eq}

  -- The combinations hold indices of the list.
  abbrev pub at : List (NumaNode Q) → ℕ → NumaNode Q
  at nodes i = elim (get_elem? nodes i) [
    | none ↦ record { numa_id = 0; resources = []; costs = [] }
    | some n ↦ n
  ]

  unfoldable pub row_costs : List (NumaNode Q) → NumaNode Q → List ℕ → ℤ → ℤ
  row_costs numa_nodes node1 [] accu = accu
  row_costs numa_nodes node1 (node2 ∷ rest) accu = row_costs numa_nodes node1 rest (
      add64 accu (elim (cost_at (at numa_nodes node2).numa_id node1.costs) [
        | none ↦ pos 255
        | some cost ↦ cost
      ]))

  unfoldable pub all_costs : List (NumaNode Q) → List ℕ → List ℕ → ℤ → ℤ
  unfolding row_costs
  all_costs numa_nodes nodes [] accu = accu
  all_costs numa_nodes nodes (node1 ∷ rest) accu =
      all_costs numa_nodes nodes rest (row_costs numa_nodes (at numa_nodes node1) nodes accu)

  unfoldable pub nodes_avg_distance : List (NumaNode Q) → List ℕ → D
  unfolding all_costs
  nodes_avg_distance numa_nodes [] = max_distance_value
  nodes_avg_distance numa_nodes (n ∷ ns) =
      average (all_costs numa_nodes (n ∷ ns) (n ∷ ns) (pos 0)) (length (n ∷ ns) * length (n ∷ ns))

  unfoldable pub min_distance_from : List (NumaNode Q) → List (List ℕ) → D → D
  min_distance_from numa_nodes [] min_distance = min_distance
  min_distance_from numa_nodes (c ∷ cs) min_distance = min_distance_from numa_nodes cs (
      if lt (nodes_avg_distance numa_nodes c) min_distance
      then nodes_avg_distance numa_nodes c
      else min_distance)

  unfoldable pub min_avg_distance_in_combinations : List (NumaNode Q) → List (List ℕ) → D
  unfolding min_distance_from
  min_avg_distance_in_combinations numa_nodes cs =
      min_distance_from numa_nodes cs max_distance_value

  unfoldable pub combine_into : ResourceList Q → ResourceList Q → ResourceList Q
  combine_into resources [] = resources
  combine_into resources ((name, quantity) ∷ rest) =
      combine_into
        (elim (lookup name resources) [
          | none ↦ insert name quantity resources
          | some value ↦ insert name (add value quantity) resources
        ])
        rest

  pub combine_from : List (NumaNode Q) → List ℕ → ResourceList Q → ResourceList Q
  unfolding combine_into
  combine_from numa_nodes [] resources = resources
  combine_from numa_nodes (i ∷ is) resources =
      combine_from numa_nodes is (combine_into resources (at numa_nodes i).resources)

  unfoldable pub combine_resources : List (NumaNode Q) → List ℕ → ResourceList Q
  unfolding combine_from
  combine_resources numa_nodes combination = combine_from numa_nodes combination []

  unfoldable pub check_resources_fit : PodQosClass → ResourceList Q → ResourceList Q → Bool
  unfolding lookup_or
  check_resources_fit qos [] available = true
  check_resources_fit qos ((name, quantity) ∷ rest) available =
      let others = check_resources_fit qos rest available in
      if is_zero quantity
      then others
      else if not
          (is_resource_set_suitable helpers qos name quantity (lookup_or name zero_q available))
      then false
      else others

  pub has_all : ResourceList Q → ResourceList Q → Bool
  has_all [] available = true
  has_all ((name, q) ∷ rest) available = has name available && has_all rest available

  unfoldable pub is_valid_combine_resources : List (NumaNode Q) → ResourceList Q → List ℕ → Bool
  unfolding has_all
  is_valid_combine_resources numa_nodes resources [] = true
  is_valid_combine_resources numa_nodes resources (i ∷ is) =
      has_all resources (at numa_nodes i).resources
      && is_valid_combine_resources numa_nodes resources is

  -- A combination whose nodes all have the resources, and together enough of them.
  unfoldable pub combination_fits : PodQosClass → List (NumaNode Q) → ResourceList Q → List ℕ → Bool
  unfolding combine_resources
  combination_fits qos numa_nodes resources c =
      is_valid_combine_resources numa_nodes resources c
      && check_resources_fit qos resources (combine_resources numa_nodes c)

  -- The loop, with the best combination so far and its distance.
  unfoldable pub find_from :
      PodQosClass
      → List (NumaNode Q)
      → ResourceList Q
      → D
      → List (List ℕ)
      → Option (List ℕ)
      → D
      → Option (List ℕ) × Bool
  unfolding combination_fits
  find_from qos numa_nodes resources min_avg [] best min_distance = (best, false)
  find_from qos numa_nodes resources min_avg (c ∷ cs) best min_distance =
      let distance = nodes_avg_distance numa_nodes c in
      elim (combination_fits qos numa_nodes resources c) [
        | false ↦ find_from qos numa_nodes resources min_avg cs best min_distance
        | true ↦ elim (eq distance min_avg) [
          | true ↦ (some c, true)
          | false ↦ elim (lt distance min_distance) [
            | true ↦ find_from qos numa_nodes resources min_avg cs (some c) distance
            | false ↦ find_from qos numa_nodes resources min_avg cs best min_distance
          ]
        ]
      ]

  unfoldable pub find_suitable_combination :
      PodQosClass → List (NumaNode Q) → ResourceList Q → List (List ℕ) → Option (List ℕ) × Bool
  unfolding find_from
  find_suitable_combination qos numa_nodes resources cs =
      find_from qos numa_nodes resources (min_avg_distance_in_combinations numa_nodes cs) cs none
        over_max

  unfoldable pub bits_of : List (NumaNode Q) → List ℕ → mask.B → mask.B
  bits_of numa_nodes [] bm = bm
  bits_of numa_nodes (i ∷ is) bm = bits_of numa_nodes is (mask.add (at numa_nodes i).numa_id bm)

  -- The loop over the sizes, of which `rounds` are left and `size` is the next.
  unfoldable pub combination_from :
      PodQosClass → List (NumaNode Q) → ResourceList Q → ℕ → ℕ → Option (List ℕ × Bool)
  unfolding find_suitable_combination
  combination_from qos numa_nodes resources zero size = none
  combination_from qos numa_nodes resources (suc rounds) size =
      let found =
        find_suitable_combination qos numa_nodes resources
          (combinations (length numa_nodes) size) in
      elim found.0 [
        | none ↦ combination_from qos numa_nodes resources rounds (suc size)
        | some c ↦ some (c, found.1)
      ]

  unfoldable pub numa_nodes_required :
      PodQosClass → List (NumaNode Q) → ResourceList Q → Option (mask.B × Bool)
  unfolding combination_from bits_of
  numa_nodes_required qos numa_nodes resources =
      elim (combination_from qos numa_nodes resources (length numa_nodes) 1) [
        | none ↦ none
        | some (c, is_min) ↦ some (bits_of numa_nodes c mask.empty, is_min)
      ]
