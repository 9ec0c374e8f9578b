-- ===== src/Network/Util.antt =====
-- The functions of pkg/networkaware/util/util.go.
use plugins_improve.Prelude.{
  ℤ, negsuc, List, [], ◌∷◌, ◌++◌, String, str_eq, str_gt, lookup_or, if◌then◌else◌,
}
use plugins_improve.Network.Search.{found, binary_search}
use plugins_improve.Network.Types.{
  ScheduledInfo, CostInfo, OriginInfo, TopologyInfo, DependenciesInfo, AppGroupWorkload,
  AppGroupTopologyInfo, AppGroup, Pod, Node, Api,
}

-- A nil map of labels reads like an empty one.
unfoldable pub get_node_region : Api → Node → String
unfolding lookup_or
get_node_region api n = lookup_or api.label_topology_region "" n.labels

unfoldable pub get_node_zone : Api → Node → String
unfolding lookup_or
get_node_zone api n = lookup_or api.label_topology_zone "" n.labels

unfoldable pub get_pod_app_group_label : Api → Pod → String
unfolding lookup_or
get_pod_app_group_label api p = lookup_or api.app_group_label "" p.labels

unfoldable pub get_pod_app_group_selector : Api → Pod → String
unfolding lookup_or
get_pod_app_group_selector api p = lookup_or api.app_group_selector_label "" p.labels

unfoldable pub find_pod_order : List AppGroupTopologyInfo → String → ℤ
find_pod_order t selector = elim (binary_search (λ e. e.selector) t selector) [
  | found e ↦ e.index
  | _ ↦ negsuc 0
]

unfoldable pub find_origin_costs : List OriginInfo → String → List CostInfo
find_origin_costs origin_list origin = elim (binary_search (λ e. e.origin) origin_list origin) [
  | found e ↦ e.cost_list
  | _ ↦ []
]

unfoldable pub find_topology_key : List TopologyInfo → String → List OriginInfo
find_topology_key topology_list key = elim (binary_search (λ e. e.topology_key) topology_list key) [
  | found e ↦ e.origin_list
  | _ ↦ []
]

dependencies_of : String → List AppGroupWorkload → List DependenciesInfo
dependencies_of selector [] = []
dependencies_of selector (w ∷ ws) =
    let rest = dependencies_of selector ws in
    if str_eq w.selector selector then w.dependencies ++ rest else rest

-- The nil list that the source returns where nothing was appended is the empty list.
unfoldable pub get_dependency_list : Api → Pod → AppGroup → List DependenciesInfo
unfolding dependencies_of get_pod_app_group_selector
get_dependency_list api pod ag = dependencies_of (get_pod_app_group_selector api pod) ag.workloads

unfoldable pub get_scheduled_list : Api → List Pod → List ScheduledInfo
get_scheduled_list api [] = []
get_scheduled_list api (p ∷ ps) =
    let rest = get_scheduled_list api ps in if str_eq p.node_name "" then rest else info p ∷ rest
  where
    info : Pod → ScheduledInfo
    info q = record {
      name = q.name;
      selector = get_pod_app_group_selector api q;
      replica_id = q.uid;
      hostname = q.node_name;
    }

-- `sort.Sort` by a string key. Where two keys are equal it keeps their order, as one of the orders
-- that the library may leave.
module _ {ℓ} {A : Type ℓ} (key : A → String) where
  unfoldable pub insert_by : A → List A → List A
  insert_by x [] = x ∷ []
  insert_by x (y ∷ ys) = if str_gt (key x) (key y) then y ∷ insert_by x ys else x ∷ y ∷ ys

  unfoldable pub sort_by : List A → List A
  unfolding insert_by
  sort_by [] = []
  sort_by (x ∷ xs) = insert_by x (sort_by xs)
