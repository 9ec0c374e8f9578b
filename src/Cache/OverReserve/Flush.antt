-- ===== src/Cache/OverReserve/Flush.antt =====
-- What a flush and a resync of pkg/noderesourcetopology/cache/overreserve.go do to what is served.
use plugins_improve.Prelude.{
  ◌+◌, ◌%◌, ◌^◌, ◌≡◌, refl, true, none, some, List, [], ◌∷◌, String, arith, eq_iff, str_eq_refl,
  lookup, lookup_or, insert, delete, lookup-insert, delete-insert,
}
use plugins_improve.Quantities.{QuantityApi, get_pod_effective_request}
use plugins_improve.Cache.Store.{
  Nrt, Pod, is_set, get_nrt_copy, update_nrt, add_pod, delete_pod, pod_key,
}
use plugins_improve.Cache.OverReserve.{
  OverReserve, flush_nodes, get_cached_nrt_copy, reserve_node_resources, unreserve_node_resources,
}
use plugins_improve.Cache.OverReserve.Trace.{
  last_named, flush_all-foreign, flush_all-nrts, flush_all-assumed, flush_nodes-fields,
}

flush_nodes-generation :
    {Q : Type 0} (ns : List (Nrt Q)) (ov : OverReserve Q)
    → (flush_nodes ns ov).generation
      ≡ (elim ns [ [] ↦ ov.generation | n ∷ r ↦ (ov.generation + 1) % 2 ^ 64 ])
unfolding flush_nodes
flush_nodes-generation [] ov = refl
flush_nodes-generation (n ∷ ns) ov = refl

-- A flush makes the last of its topologies with a node's name the data of that node, fresh and with
-- nothing taken off, and leaves what is served for every other node as it was. The generation moves
-- on exactly if the flush is not empty.
pub flush_nodes_view :
    (api : QuantityApi) (ns : List (Nrt api.Q)) (ov : OverReserve api.Q) (node : String)
    → let before = get_cached_nrt_copy api node ov in
      let after = get_cached_nrt_copy api node (flush_nodes ns ov) in
      (after.0 ≡ (elim (last_named node ns) [ none ↦ before.0 | some n ↦ some n ]))
      × (after.1.fresh ≡ (elim (last_named node ns) [ none ↦ before.1.fresh | some n ↦ true ]))
      × ((flush_nodes ns ov).generation
          ≡ (elim ns [ [] ↦ ov.generation | n ∷ r ↦ (ov.generation + 1) % 2 ^ 64 ]))
unfolding get_cached_nrt_copy get_nrt_copy is_set
flush_nodes_view api ns ov node =
    let (f, g, h) = flush_nodes-fields ns ov in
    (
      ground (
        arith,
        f,
        g,
        h,
        flush_all-foreign node ns ov,
        flush_all-nrts node ns ov,
        flush_all-assumed node ns ov,
      ),
      ground (arith, f, flush_all-foreign node ns ov),
      flush_nodes-generation ns ov,
    )

-- Reserving a pod that the node's store does not hold, and unreserving it, leaves what is served for
-- every node as it was.
pub unreserve-reserve :
    (api : QuantityApi) (ov : OverReserve api.Q) (node other : String) (pod : Pod api.Q)
    → lookup (pod_key pod) (lookup_or node [] ov.assumed_resources) ≡ none
    → get_cached_nrt_copy api other
        (unreserve_node_resources api node pod (reserve_node_resources api node pod ov))
      ≡ get_cached_nrt_copy api other ov
unfolding get_cached_nrt_copy reserve_node_resources unreserve_node_resources add_pod delete_pod
    update_nrt
unreserve-reserve api ov node other pod h =
    let store = lookup_or node [] ov.assumed_resources in
    let request = get_pod_effective_request api pod.spec in
    let held = insert (pod_key pod) request store in
    ground (
      arith,
      eq_iff node other,
      str_eq_refl node,
      lookup-insert node node held ov.assumed_resources,
      lookup-insert node other held ov.assumed_resources,
      lookup-insert node other (delete (pod_key pod) held) (insert node held ov.assumed_resources),
      delete-insert (pod_key pod) request store h,
    )
