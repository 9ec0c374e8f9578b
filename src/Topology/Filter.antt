-- ===== src/Topology/Filter.antt =====
-- The filter and the reservations of the plugin: filter.go, reserve.go and postbind.go of
-- pkg/noderesourcetopology. A status that is nil is `success`, and `none` is a panic.
pub mod Accounting
pub mod Verdicts
pub mod Policy
use plugins_improve.Prelude.{
  ℕ, Bool, true, false, not, ◌&&◌, Option, none, some, List, [], ◌∷◌, String, str_eq, if◌then◌else◌,
}
use plugins_improve.Status.{Status, success, unschedulable, error}
use plugins_improve.Quantities.{QuantityApi, ResourceList, get_pod_effective_request}
use plugins_improve.Queue.Qos.{PodQosClass, guaranteed, burstable, best_effort, other}
use plugins_improve.Cache.Store.{Zone, Nrt, Pod}
use plugins_improve.Cache.Interface.{TopologyCache}
use plugins_improve.Topology.Config.{KubeletNames, TopologyManager, topology_manager_from_nrt}
use plugins_improve.Topology.Numa.{
  Helpers, NumaNode, create_numa_node_list, subtract_resources_from_numa_node_list,
}
use plugins_improve.Topology.Exclusive.{include_non_native}
use plugins_improve.Topology.Fit.{BitMaskApi, resources_available_in_any_numa_nodes}

-- `framework.NodeInfo`: the name of its node, and the list of its allocatable resources.
pub record NodeInfo (Q : Type 0) : Type 0 where
  pub name : String
  pub allocatable : ResourceList Q

abbrev pub is_best_effort : PodQosClass → Bool
is_best_effort best_effort = true
is_best_effort guaranteed = false
is_best_effort burstable = false
is_best_effort other = false

module _ {api : QuantityApi} (helpers : Helpers api) (mask : BitMaskApi) where
  open api use {Q}
  open helpers use {get_pod_qos}

  unfoldable pub place_init_containers :
      List (NumaNode Q) → PodQosClass → ResourceList Q → List (ResourceList Q) → Option Status
  place_init_containers nodes qos node_resources [] = some success
  place_init_containers nodes qos node_resources (c ∷ cs) =
      elim (resources_available_in_any_numa_nodes helpers mask nodes c qos node_resources) [
        | none ↦ none
        | some (id, match) ↦ elim match [
          | false ↦ some unschedulable
          | true ↦ place_init_containers nodes qos node_resources cs
        ]
      ]

  unfoldable pub place_containers :
      List (NumaNode Q) → PodQosClass → ResourceList Q → List (ResourceList Q) → Option Status
  place_containers nodes qos node_resources [] = some success
  place_containers nodes qos node_resources (c ∷ cs) =
      elim (resources_available_in_any_numa_nodes helpers mask nodes c qos node_resources) [
        | none ↦ none
        | some (id, match) ↦ elim match [
          | false ↦ some unschedulable
          | true ↦ elim (subtract_resources_from_numa_node_list helpers qos c id nodes) [
            | none ↦ some error
            | some left ↦ place_containers left qos node_resources cs
          ]
        ]
      ]

  unfoldable pub single_numa_container_level_handler :
      Pod Q → List (Zone Q) → NodeInfo Q → Option Status
  unfolding place_init_containers place_containers
  single_numa_container_level_handler pod zones node_info =
      elim (create_numa_node_list helpers zones) [
        | none ↦ none
        | some nodes ↦
            elim (place_init_containers nodes (get_pod_qos pod) node_info.allocatable
              pod.spec.init_containers) [
                | none ↦ none
                | some success ↦
                    place_containers nodes (get_pod_qos pod) node_info.allocatable
                      pod.spec.containers
                | some status ↦ some status
              ]
      ]

  unfoldable pub single_numa_pod_level_handler : Pod Q → List (Zone Q) → NodeInfo Q → Option Status
  single_numa_pod_level_handler pod zones node_info = elim (create_numa_node_list helpers zones) [
    | none ↦ none
    | some nodes ↦
        elim (resources_available_in_any_numa_nodes helpers mask nodes
          (get_pod_effective_request api pod.spec) (get_pod_qos pod) node_info.allocatable) [
            | none ↦ none
            | some (id, match) ↦ if match then some success else some unschedulable
          ]
  ]

  unfoldable pub filter_handler_from_topology_manager :
      KubeletNames → TopologyManager → Option (Pod Q → List (Zone Q) → NodeInfo Q → Option Status)
  filter_handler_from_topology_manager k conf =
      if not (str_eq conf.policy k.single_numa_node_policy)
      then none
      else if str_eq conf.scope k.pod_scope
      then some single_numa_pod_level_handler
      else if str_eq conf.scope k.container_scope
      then some single_numa_container_level_handler
      else none

  module _ (k : KubeletNames) (cache : TopologyCache Q) where
    -- A node that is rejected by a handler is marked in the cache.
    abbrev pub settle : String → cache.S → Status → Status × cache.S
    settle node s success = (success, s)
    settle node s status = (status, cache.node_maybe_over_reserved node s)

    -- `node_info` is `none` where the node is nil.
    unfoldable pub filter : Pod Q → Option (NodeInfo Q) → cache.S → Option (Status × cache.S)
    unfolding filter_handler_from_topology_manager
    filter pod none s = some (error, s)
    filter pod (some node_info) s =
        if is_best_effort (get_pod_qos pod) && not (include_non_native helpers pod)
        then some (success, s)
        else let (topology, info) = cache.get_cached_nrt_copy node_info.name s in
          if not info.fresh then some (unschedulable, s) else elim topology [
            | none ↦ some (success, s)
            | some nrt ↦
                elim (filter_handler_from_topology_manager k (topology_manager_from_nrt k nrt)) [
                  | none ↦ some (success, s)
                  | some handler ↦ elim (handler pod nrt.zones node_info) [
                    | none ↦ none
                    | some status ↦ some (settle node_info.name s status)
                  ]
                ]
          ]

    unfoldable pub reserve : Pod Q → String → cache.S → Status × cache.S
    reserve pod node s = (success, cache.reserve_node_resources node pod s)

    unfoldable pub unreserve : Pod Q → String → cache.S → cache.S
    unreserve pod node s = cache.unreserve_node_resources node pod s

    unfoldable pub post_bind : Pod Q → String → cache.S → cache.S
    post_bind pod node s = cache.post_bind node pod s
