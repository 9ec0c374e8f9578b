-- ===== src/Topology/Filter/Verdicts.antt =====
-- The verdicts of pkg/noderesourcetopology/filter.go.
use plugins_improve.Prelude.{
  ℕ, ◌==◌, Bool, true, false, Option, some, List, [], ◌∷◌, ◌≡◌, ◌⊎◌, inl, inr, refl, arith, all,
  All, keep, map, Bool-cases, List-cases,
}
use mathlib.Core.Path.{subst}
use plugins_improve.Status.{Status, success, unschedulable}
use plugins_improve.Quantities.{QuantityApi, ResourceList}
use plugins_improve.Queue.Qos.{PodQosClass}
use plugins_improve.Cache.Store.{Zone, Pod}
use plugins_improve.Topology.Numa.{Helpers, NumaNode}
use plugins_improve.Topology.Numa.Listing.{
  DistinctNumbers, numa_zones, has_zone_64, node_of, create_numa_node_list_lem,
}
use plugins_improve.Topology.Fit.{BitMaskApi, up_to, resources_available_in_any_numa_nodes}
use plugins_improve.Topology.Fit.Spec.{fits, listed}
use plugins_improve.Topology.Fit.Lowest.{resources_available_in_any_numa_nodes_lem}
use plugins_improve.Topology.Filter.{
  NodeInfo, place_init_containers, place_containers, single_numa_container_level_handler,
}
use plugins_improve.Topology.Filter.Accounting.{UniqueNames, DistinctIds, fits-subtract}

-- A handler that neither panics nor reports an error.
abbrev pub Decides : Option Status → Type 0
Decides o = (o ≡ some success) ⊎ (o ≡ some unschedulable)

keep-head :
    (p : ℕ → Bool) (xs : List ℕ) (id : ℕ) (rest : List ℕ) → keep p xs ≡ id ∷ rest → p id ≡ true
unfolding keep
keep-head p [] id rest h = cc
keep-head p (x ∷ xs) id rest h = ground (arith, keep-head p xs id rest)

All-same_ids :
    {Q : Type 0} (k : ℕ) (ns ms : List (NumaNode Q))
    → map (λ n. n.numa_id) ns ≡ map (λ n. n.numa_id) ms
    → All (λ m. (k == m.numa_id) ≡ false) ms
    → All (λ m. (k == m.numa_id) ≡ false) ns
All-same_ids k [] ms e h = tt
All-same_ids k (n ∷ ns) [] e h = cc
All-same_ids k (n ∷ ns) (m ∷ ms) e h = (ground (arith, h.0), All-same_ids k ns ms (cc) h.1)

DistinctIds-map :
    {Q : Type 0} (ns ms : List (NumaNode Q))
    → map (λ n. n.numa_id) ns ≡ map (λ n. n.numa_id) ms
    → DistinctIds ms
    → DistinctIds ns
DistinctIds-map [] ms e d = tt
DistinctIds-map (n ∷ ns) [] e d = cc
DistinctIds-map (n ∷ ns) (m ∷ ms) e d = (
  All-same_ids n.numa_id ns ms (cc) (
      subst (λ k. All (λ l. (k == l.numa_id) ≡ false) ms) {x = m.numa_id} {y = n.numa_id} (cc) d.0),
  DistinctIds-map ns ms (cc) d.1,
)

module _ {api : QuantityApi} (helpers : Helpers api) (mask : BitMaskApi) (qos : PodQosClass)
    (node_resources : ResourceList api.Q) where
  open api use {Q}

  -- The search finds no NUMA node, or one on which the requests fit.
  search-cases :
      (nodes : List (NumaNode Q)) (rs : ResourceList Q)
      → ((id : ℕ) × (resources_available_in_any_numa_nodes helpers mask nodes rs qos node_resources
            ≡ some (id, false)))
        ⊎ ((id : ℕ) × (resources_available_in_any_numa_nodes helpers mask nodes rs qos
                node_resources
              ≡ some (id, true))
            × (all (fits helpers qos nodes id) rs ≡ true))
  search-cases nodes rs =
      let e = resources_available_in_any_numa_nodes_lem helpers mask qos nodes node_resources rs in
      elim (Bool-cases (all (listed helpers node_resources) rs)) [
        | inr l ↦ inl (8, ground (arith, e, l))
        | inl l ↦ elim (List-cases (keep (λ id. all (fits helpers qos nodes id) rs) (up_to 64))) [
          | inl n ↦ inl (8, ground (arith, e, l, n))
          | inr (id, rest, n) ↦ inr (
            id,
            ground (arith, e, l, n),
            keep-head (λ k. all (fits helpers qos nodes k) rs) (up_to 64) id rest n,
          )
        ]
      ]

  place_init_containers-Decides :
      (nodes : List (NumaNode Q)) (cs : List (ResourceList Q))
      → Decides (place_init_containers helpers mask nodes qos node_resources cs)
  unfolding place_init_containers
  place_init_containers-Decides nodes [] = inl refl
  place_init_containers-Decides nodes (c ∷ cs) = elim (search-cases nodes c) [
    | inl (id, e) ↦ ground (arith, e)
    | inr (id, e, f) ↦ ground (arith, e, place_init_containers-Decides nodes cs)
  ]

  place_containers-Decides :
      (nodes : List (NumaNode Q)) (cs : List (ResourceList Q))
      → DistinctIds nodes
      → All UniqueNames cs
      → Decides (place_containers helpers mask nodes qos node_resources cs)
  unfolding place_containers
  place_containers-Decides nodes [] d u = inl refl
  place_containers-Decides nodes (c ∷ cs) d u = elim (search-cases nodes c) [
    | inl (id, e) ↦ ground (arith, e)
    | inr (id, e, f) ↦
        let (left, g, same) = fits-subtract helpers qos c id nodes u.0 d f in
        ground
          (arith, e, g, place_containers-Decides left cs (DistinctIds-map left nodes same d) u.1)
  ]

module _ {api : QuantityApi} (helpers : Helpers api) where
  open api use {Q}

  apart-nodes :
      (id : ℕ) (es : List (ℕ × Zone Q))
      → All (λ f. (id == f.0) ≡ false) es
      → All (λ n. (id == n.numa_id) ≡ false) (map (node_of helpers) es)
  apart-nodes id [] h = tt
  apart-nodes id (e ∷ es) h = (h.0, apart-nodes id es h.1)

  DistinctIds-nodes :
      (es : List (ℕ × Zone Q)) → DistinctNumbers helpers es → DistinctIds (map (node_of helpers) es)
  DistinctIds-nodes [] d = tt
  DistinctIds-nodes (e ∷ es) d = (apart-nodes e.0 es d.0, DistinctIds-nodes es d.1)

  -- On a topology whose NUMA zones have distinct numbers below 64, for a pod whose containers name each
  -- resource once: the container level handler accepts the node or rejects it. The error of an
  -- inconsistent accounting, which the code says should never happen, does not happen, and no index is
  -- out of range.
  pub container_handler-Decides :
      (mask : BitMaskApi) (pod : Pod Q) (zones : List (Zone Q)) (node_info : NodeInfo Q)
      → DistinctNumbers helpers (numa_zones helpers zones)
      → has_zone_64 helpers zones ≡ false
      → All UniqueNames pod.spec.containers
      → Decides (single_numa_container_level_handler helpers mask pod zones node_info)
  unfolding single_numa_container_level_handler
  container_handler-Decides mask pod zones node_info d z u =
      let nodes = map (node_of helpers) (numa_zones helpers zones) in
      let qos = helpers.get_pod_qos pod in
      ground (
        arith,
        z,
        create_numa_node_list_lem helpers zones d,
        place_init_containers-Decides helpers mask qos node_info.allocatable nodes
            pod.spec.init_containers,
        place_containers-Decides helpers mask qos node_info.allocatable nodes pod.spec.containers
            (DistinctIds-nodes (numa_zones helpers zones) d) u,
      )
