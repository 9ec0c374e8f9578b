-- ===== src/Topology/Filter/Policy.antt =====
-- Filter of pkg/noderesourcetopology/filter.go as a whole: the choice of the handler, and what is
-- said to the cache.
use plugins_improve.Prelude.{
  Bool, true, false, not, ◌&&◌, none, some, List, str_eq, ◌≡◌, ◌≢◌, ◌↔◌, arith, all, All, keep, map,
  if◌then◌else◌,
}
use plugins_improve.Status.{success, unschedulable}
use plugins_improve.Quantities.{QuantityApi, get_pod_effective_request}
use plugins_improve.Cache.Store.{Zone, Nrt, Pod, contains}
use plugins_improve.Cache.Interface.{
  TopologyCache, over_reserve, ForeignPods, is_foreign_pod, foreign_cache,
}
use plugins_improve.Cache.OverReserve.{OverReserve}
use plugins_improve.Cache.OverReserve.Trace.{Call, run, flushes, foreign_until_flush}
use plugins_improve.Topology.Config.{
  KubeletNames, topology_manager_from_nrt, topology_manager_from_nrt-IsValid, is_valid_scope,
}
use plugins_improve.Topology.Numa.{Helpers}
use plugins_improve.Topology.Numa.Listing.{
  DistinctNumbers, numa_zones, has_zone_64, node_of, create_numa_node_list_lem,
}
use plugins_improve.Topology.Exclusive.{include_non_native}
use plugins_improve.Topology.Fit.{BitMaskApi, up_to}
use plugins_improve.Topology.Fit.Spec.{fits, listed, lowest}
use plugins_improve.Topology.Fit.Lowest.{resources_available_in_any_numa_nodes_lem}
use plugins_improve.Topology.Filter.{
  NodeInfo, is_best_effort, single_numa_pod_level_handler, filter_handler_from_topology_manager,
  filter,
}

module _ {api : QuantityApi} (helpers : Helpers api) (mask : BitMaskApi) (k : KubeletNames) where
  open api use {Q}

  -- A topology has a handler exactly where its policy is the one of a single NUMA node: the last
  -- return, of which the code says that it cannot happen, is not reached.
  pub handler-policy :
      (nrt : Nrt Q)
      → (filter_handler_from_topology_manager helpers mask k (topology_manager_from_nrt k nrt)
          ≢ none)
        ↔ (str_eq (topology_manager_from_nrt k nrt).policy k.single_numa_node_policy ≡ true)
  unfolding filter_handler_from_topology_manager is_valid_scope
  handler-policy nrt = ground (arith, topology_manager_from_nrt-IsValid k nrt)

  -- Every request of the pod as a whole is listed by the node, and all fit on one NUMA node.
  abbrev pub some_numa_node_fits : Pod Q → List (Zone Q) → NodeInfo Q → Bool
  some_numa_node_fits pod zones node_info =
      let requests = get_pod_effective_request api pod.spec in
      all (listed helpers node_info.allocatable) requests
      && (lowest (
          keep
            (λ id.
              all
                (fits helpers (helpers.get_pod_qos pod)
                  (map (node_of helpers) (numa_zones helpers zones)) id)
                requests)
            (up_to 64))).1

  -- With the policy of a single NUMA node and the scope of the pod, and on fresh data with distinct
  -- numbers below 64, the filter accepts a pod exactly where its effective requests fit on one NUMA
  -- node, and a rejection is said to the cache, whichever cache it is.
  pub filter_pod_scope :
      (cache : TopologyCache Q) (pod : Pod Q) (node_info : NodeInfo Q) (s : cache.S) (nrt : Nrt Q)
      → (is_best_effort (helpers.get_pod_qos pod) && not (include_non_native helpers pod)) ≡ false
      → (cache.get_cached_nrt_copy node_info.name s).0 ≡ some nrt
      → (cache.get_cached_nrt_copy node_info.name s).1.fresh ≡ true
      → str_eq (topology_manager_from_nrt k nrt).policy k.single_numa_node_policy ≡ true
      → str_eq (topology_manager_from_nrt k nrt).scope k.pod_scope ≡ true
      → DistinctNumbers helpers (numa_zones helpers nrt.zones)
      → has_zone_64 helpers nrt.zones ≡ false
      → filter helpers mask k cache pod (some node_info) s
        ≡ some (
            if some_numa_node_fits pod nrt.zones node_info
            then (success, s)
            else (unschedulable, cache.node_maybe_over_reserved node_info.name s))
  unfolding filter single_numa_pod_level_handler
  filter_pod_scope cache pod node_info s nrt q g f p c d z = ground (
    arith,
    z,
    create_numa_node_list_lem helpers nrt.zones d,
    resources_available_in_any_numa_nodes_lem helpers mask (helpers.get_pod_qos pod)
        (map (node_of helpers) (numa_zones helpers nrt.zones)) node_info.allocatable
        (get_pod_effective_request api pod.spec),
  )

-- After the event of a foreign pod on a node with topology data, and until a flush of the node, the
-- filter over the over-reserving cache rejects every pod on it, other than a pod of best effort that
-- asks for native resources only, and leaves the cache as it is.
pub foreign_pod_blocks :
    {api : QuantityApi} (helpers : Helpers api) (mask : BitMaskApi) (k : KubeletNames)
    (config : ForeignPods) (foreign pod : Pod api.Q) (node_info : NodeInfo api.Q)
    (ov : OverReserve api.Q) (cs : List (Call api.Q))
    → is_foreign_pod helpers config foreign ≡ true
    → foreign.node_name ≡ node_info.name
    → contains node_info.name ov.nrts ≡ true
    → All (λ c. flushes node_info.name c ≡ false) cs
    → (is_best_effort (helpers.get_pod_qos pod) && not (include_non_native helpers pod)) ≡ false
    → let after = run api (foreign_cache helpers config (over_reserve api) foreign ov) cs in
      filter helpers mask k (over_reserve api) pod (some node_info) after
      ≡ some (unschedulable, after)
unfolding filter foreign_cache
foreign_pod_blocks {api} helpers mask k config foreign pod node_info ov cs f e c u q =
    ground (arith, foreign_until_flush api ov node_info.name cs c u)
