-- ===== src/Network/Overhead.antt =====
-- The plugin's extension points: pkg/networkaware/networkoverhead/networkoverhead.go.
pub mod Decision
pub mod Panics
pub mod Normalize
use plugins_improve.Prelude.{
  ◌-◌, ◌^◌, ℤ, pos, negsuc, Bool, true, false, Option, none, some, List, [], ◌∷◌, String, str_eq,
  ltb_ℤ, insert, lookup_or, if◌then◌else◌,
}
use plugins_improve.Status.{Status, success, unschedulable, error}
use plugins_improve.Network.Types.{
  ScheduledInfo, NetworkTopology, DependenciesInfo, AppGroup, Pod, Node,
}
use plugins_improve.Network.Util.{
  get_node_region, get_node_zone, get_pod_app_group_label, get_dependency_list, get_scheduled_list,
}
use plugins_improve.Network.Costs.{
  CostMap, NetworkOverhead, find_app_group, find_network_topology, sort_network_topology_costs,
  populate_cost_map, is_manual,
}
use plugins_improve.Network.Passes.{
  Checked, counted, failed, Accumulated, total, aborted, check_max_network_cost_requirements,
  get_accumulated_cost,
}

pub record PreFilterState : Type 0 where
  pub score_equally : Bool
  pub ag_name : String
  pub app_group : Option AppGroup
  pub network_topology : Option NetworkTopology
  pub dependency_list : List DependenciesInfo
  pub scheduled_list : List ScheduledInfo
  pub node_cost_map : List (String × CostMap)
  pub satisfied_map : List (String × ℤ)
  pub violated_map : List (String × ℤ)
  pub final_cost_map : List (String × ℤ)

-- The state that PreFilter writes first.
abbrev pub initial_state : PreFilterState
initial_state = record {
  score_equally = true;
  ag_name = "";
  app_group = none;
  network_topology = none;
  dependency_list = [];
  scheduled_list = [];
  node_cost_map = [];
  satisfied_map = [];
  violated_map = [];
  final_cost_map = [];
}

-- A call of PreFilter: its status with the state that the cycle holds afterwards, or the panic of a
-- nil pointer.
pub data PreFiltered : Type 0 where
  returned : Status → PreFilterState → PreFiltered
  panicked : PreFiltered

-- The four maps that the loop over the nodes fills.
pub record NodeMaps : Type 0 where
  pub node_costs : List (String × CostMap)
  pub satisfied : List (String × ℤ)
  pub violated : List (String × ℤ)
  pub final_costs : List (String × ℤ)

abbrev pub empty_maps : NodeMaps
empty_maps = record { node_costs = []; satisfied = []; violated = []; final_costs = [] }

unfoldable pub cost_map_of : NetworkOverhead → NetworkTopology → Node → CostMap
cost_map_of pl nt n =
    populate_cost_map pl nt.weights (get_node_region pl.api n) (get_node_zone pl.api n) []

unfoldable pub check_node :
    NetworkOverhead → NetworkTopology → List ScheduledInfo → List DependenciesInfo → Node → Checked
check_node pl nt scheduled deps n =
    check_max_network_cost_requirements pl.api pl.get_node (get_node_region pl.api n)
      (get_node_zone pl.api n) (cost_map_of pl nt n) scheduled deps n.name

unfoldable pub cost_node :
    NetworkOverhead
    → NetworkTopology
    → List ScheduledInfo
    → List DependenciesInfo
    → Node
    → Accumulated
cost_node pl nt scheduled deps n =
    get_accumulated_cost pl.api pl.get_node (get_node_region pl.api n) (get_node_zone pl.api n)
      (cost_map_of pl nt n) scheduled deps n.name

-- The four writes for a node.
unfoldable pub record_node : String → CostMap → ℤ → ℤ → ℤ → NodeMaps → NodeMaps
record_node name costs s v c m = record {
  node_costs = insert name costs m.node_costs;
  satisfied = insert name s m.satisfied;
  violated = insert name v m.violated;
  final_costs = insert name c m.final_costs;
}

-- The loop over the nodes; `none` is an error of one of the two passes.
unfoldable pub visit_nodes :
    NetworkOverhead
    → NetworkTopology
    → List ScheduledInfo
    → List DependenciesInfo
    → List Node
    → NodeMaps
    → Option NodeMaps
visit_nodes pl nt scheduled deps [] m = some m
visit_nodes pl nt scheduled deps (n ∷ ns) m = elim (check_node pl nt scheduled deps n) [
  | failed s v ↦ none
  | counted s v ↦ elim (cost_node pl nt scheduled deps n) [
    | aborted c ↦ none
    | total c ↦
        visit_nodes pl nt scheduled deps ns (record_node n.name (cost_map_of pl nt n) s v c m)
  ]
]

-- The state that PreFilter writes last.
abbrev pub final_state :
    String
    → AppGroup
    → Option NetworkTopology
    → List DependenciesInfo
    → List ScheduledInfo
    → NodeMaps
    → PreFilterState
final_state ag_name ag nt deps scheduled m = record {
  score_equally = false;
  ag_name = ag_name;
  app_group = some ag;
  network_topology = nt;
  dependency_list = deps;
  scheduled_list = scheduled;
  node_cost_map = m.node_costs;
  satisfied_map = m.satisfied;
  violated_map = m.violated;
  final_cost_map = m.final_costs;
}

-- The loop over the nodes and the write of the state. The cost map of the first node is read from
-- the topology, which may be nil.
unfoldable pub pre_filter_nodes :
    NetworkOverhead
    → String
    → AppGroup
    → Option NetworkTopology
    → List DependenciesInfo
    → List ScheduledInfo
    → List Node
    → PreFiltered
pre_filter_nodes pl ag_name ag none deps scheduled [] =
    returned success (final_state ag_name ag none deps scheduled empty_maps)
pre_filter_nodes pl ag_name ag none deps scheduled (n ∷ ns) = panicked
pre_filter_nodes pl ag_name ag (some nt) deps scheduled ns =
    elim (visit_nodes pl nt scheduled deps ns empty_maps) [
      | none ↦ returned error initial_state
      | some m ↦ returned success (final_state ag_name ag (some nt) deps scheduled m)
    ]

-- PreFilter once the AppGroup is read. `pods` is the lister's answer for the label of the AppGroup
-- and `nodes` the snapshot's list, `none` where the call fails.
unfoldable pub pre_filter_with :
    NetworkOverhead
    → Option (List Pod)
    → Option (List Node)
    → String
    → AppGroup
    → Option NetworkTopology
    → Pod
    → PreFiltered
unfolding pre_filter_nodes
pre_filter_with pl pods nodes ag_name ag nt pod = elim (get_dependency_list pl.api pod ag) [
  | [] ↦ returned success initial_state
  | d ∷ ds ↦ elim pods [
    | none ↦ returned success initial_state
    | some ps ↦ elim (get_scheduled_list pl.api ps) [
      | [] ↦ returned success initial_state
      | i ∷ is ↦ elim nodes [
        | none ↦ returned error initial_state
        | some ns ↦ pre_filter_nodes pl ag_name ag nt (d ∷ ds) (i ∷ is) ns
      ]
    ]
  ]
]

-- `sortNetworkTopologyCosts` on a pointer that may be nil; the outer `none` is the panic.
unfoldable pub sort_topology :
    NetworkOverhead → Option NetworkTopology → Option (Option NetworkTopology)
sort_topology pl none = if is_manual pl then none else some none
sort_topology pl (some nt) = some (some (sort_network_topology_costs pl nt))

-- The two resources are nil where no namespace holds them, and the code does not check that.
unfoldable pub pre_filter :
    NetworkOverhead → Option (List Pod) → Option (List Node) → Pod → PreFiltered
unfolding pre_filter_with sort_topology
pre_filter pl pods nodes pod =
    let ag_name = get_pod_app_group_label pl.api pod in
    if str_eq ag_name ""
    then returned success initial_state
    else elim (sort_topology pl (find_network_topology pl)) [
      | none ↦ panicked
      | some nt ↦ elim (find_app_group pl ag_name) [
        | none ↦ panicked
        | some ag ↦ pre_filter_with pl pods nodes ag_name ag nt pod
      ]
    ]

-- A read of the cycle state fails where PreFilter did not run.
unfoldable pub filter_node : Option PreFilterState → Option Node → Status
unfolding lookup_or
filter_node state none = error
filter_node none (some n) = error
filter_node (some st) (some n) =
    if st.score_equally
    then success
    else if ltb_ℤ (lookup_or n.name (pos 0) st.satisfied_map)
        (lookup_or n.name (pos 0) st.violated_map)
    then unschedulable
    else success

unfoldable pub score_node : Option PreFilterState → Node → ℤ × Status
unfolding lookup_or
score_node none n = (pos 0, error)
score_node (some st) n =
    if st.score_equally
    then (pos 0, success)
    else (lookup_or n.name (pos 0) st.final_cost_map, success)

-- The loop of `getMinMaxScores`.
min_max_from : List (String × ℤ) → ℤ → ℤ → ℤ × ℤ
min_max_from [] min max = (min, max)
min_max_from ((name, score) ∷ rest) min max =
    min_max_from rest (if ltb_ℤ score min then score else min)
      (if ltb_ℤ max score then score else max)

-- The minimum and the maximum; on no scores the largest and the smallest int64.
unfoldable pub get_min_max_scores : List (String × ℤ) → ℤ × ℤ
unfolding min_max_from
get_min_max_scores scores = min_max_from scores (pos (2 ^ 63 - 1)) (negsuc (2 ^ 63 - 1))
