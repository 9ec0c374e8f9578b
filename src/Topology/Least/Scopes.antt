-- ===== src/Topology/Least/Scopes.antt =====
-- pkg/noderesourcetopology/least_numa.go: the score by the number of NUMA nodes that a pod needs,
-- with subtractFromNUMAs of pkg/noderesourcetopology/numaresources.go.
-- `none` of an `Option` result is the panic of an index out of range.
use plugins_improve.Prelude.{
  ℕ, zero, suc, ◌/◌, ℤ, pos, add64, sub64, mul64, ltb, ◌==◌, get_elem?, Bool, true, false, ◌&&◌,
  Option, none, some, List, [], ◌∷◌, ◌++◌, String, lookup, insert, if◌then◌else◌,
}
use plugins_improve.Quantities.{
  QuantityApi, ResourceList, Order, less, same, more, get_pod_effective_request,
}
use plugins_improve.Queue.Qos.{PodQosClass}
use plugins_improve.Cache.Store.{Zone, Pod}
use plugins_improve.Topology.Numa.{
  Helpers, NumaNode, create_numa_node_list, only_non_numa_resources,
}
use plugins_improve.Topology.Fit.{BitMaskApi, highest_numa_id}
use plugins_improve.Topology.Least.{Distances, Combinations, numa_nodes_required}

module _ {api : QuantityApi} (helpers : Helpers api) (mask : BitMaskApi) (dist : Distances)
    (combinations : Combinations) where
  open api use {Q, zero_q, sub, cmp}
  open helpers use {is_zero, get_pod_qos}

  abbrev pub numa_node_score : ℕ
  numa_node_score = 100 / highest_numa_id

  unfoldable pub normalize_score : ℕ → Bool → ℤ
  normalize_score numa_nodes_count is_min_avg_distance =
      let score = sub64 (pos 100) (mul64 (pos numa_nodes_count) (pos numa_node_score)) in
      if is_min_avg_distance then add64 score (pos (numa_node_score / 2)) else score

  -- A write at an index of the list.
  abbrev pub set_elem : List (NumaNode Q) → ℕ → NumaNode Q → List (NumaNode Q)
  set_elem [] i n = []
  set_elem (m ∷ ms) zero n = n ∷ ms
  set_elem (m ∷ ms) (suc i) n = m ∷ set_elem ms i n

  -- What one NUMA node gives of a quantity: what is left to give, and what is left of the node.
  abbrev pub give : Order → Q → Q → Q × Q
  give same quantity available = (sub quantity available, zero_q)
  give more quantity available = (sub quantity available, zero_q)
  give less quantity available = (zero_q, sub available quantity)

  -- The inner loop, over indices of the list.
  unfoldable pub subtract_from_nodes :
      String → Q → List (NumaNode Q) → List ℕ → Option (List (NumaNode Q))
  subtract_from_nodes name quantity numa_nodes [] = some numa_nodes
  subtract_from_nodes name quantity numa_nodes (i ∷ is) = elim (is_zero quantity) [
    | true ↦ some numa_nodes
    | false ↦ elim (get_elem? numa_nodes i) [
      | none ↦ none
      | some n ↦ elim (lookup name n.resources) [
        | none ↦ subtract_from_nodes name quantity numa_nodes is
        | some available ↦
            let (left, remaining) = give (cmp quantity available) quantity available in
            subtract_from_nodes name left
              (set_elem numa_nodes i (record n { resources = insert name remaining n.resources }))
              is
      ]
    ]
  ]

  unfoldable pub subtract_from_numas :
      ResourceList Q → List (NumaNode Q) → List ℕ → Option (List (NumaNode Q))
  unfolding subtract_from_nodes
  subtract_from_numas [] numa_nodes nodes = some numa_nodes
  subtract_from_numas ((name, quantity) ∷ rest) numa_nodes nodes =
      elim (subtract_from_nodes name quantity numa_nodes nodes) [
        | none ↦ none
        | some left ↦ subtract_from_numas rest left nodes
      ]

  -- The loop over the containers. The ids of the NUMA nodes are passed as indices.
  unfoldable pub score_containers :
      PodQosClass → List (NumaNode Q) → List (ResourceList Q) → ℕ → Bool → Option ℤ
  unfolding numa_nodes_required subtract_from_numas
  score_containers qos nodes [] max_count all_min =
      some (if max_count == 0 then pos 100 else normalize_score max_count all_min)
  score_containers qos nodes (c ∷ cs) max_count all_min =
      elim (only_non_numa_resources helpers nodes c) [
        | true ↦ score_containers qos nodes cs max_count all_min
        | false ↦ elim (numa_nodes_required helpers mask dist combinations qos nodes c) [
          | none ↦ some (pos 0)
          | some (numa_nodes, is_min) ↦
              elim (subtract_from_numas c nodes (mask.get_bits numa_nodes)) [
                | none ↦ none
                | some left ↦
                    score_containers qos left cs
                      (if ltb max_count (mask.count numa_nodes)
                        then mask.count numa_nodes
                        else max_count)
                      (all_min && is_min)
              ]
        ]
      ]

  unfoldable pub least_numa_container_scope_score : Pod Q → List (Zone Q) → Option ℤ
  unfolding score_containers
  least_numa_container_scope_score pod zones = elim (create_numa_node_list helpers zones) [
    | none ↦ none
    | some nodes ↦
        score_containers (get_pod_qos pod) nodes (pod.spec.init_containers ++ pod.spec.containers) 0
          true
  ]

  unfoldable pub least_numa_pod_scope_score : Pod Q → List (Zone Q) → Option ℤ
  unfolding numa_nodes_required normalize_score
  least_numa_pod_scope_score pod zones = elim (create_numa_node_list helpers zones) [
    | none ↦ none
    | some nodes ↦
        let resources = get_pod_effective_request api pod.spec in
        if only_non_numa_resources helpers nodes resources
        then some (pos 100)
        else elim (numa_nodes_required helpers mask dist combinations (get_pod_qos pod) nodes
            resources) [
              | none ↦ some (pos 0)
              | some (numa_nodes, is_min) ↦ some (normalize_score (mask.count numa_nodes) is_min)
            ]
  ]
