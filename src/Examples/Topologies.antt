-- ===== src/Examples/Topologies.antt =====
-- The theorems on the network-aware plugin, for two nodes of one region and an AppGroup of two
-- workloads.
use plugins_improve.Prelude.{
  add64, wrap64, ◌+ℤ◌, pos, ◌↔◌, ◌⊎◌, ◌≡◌, refl, arith, str_eq, false, Option, none, some, List, [],
  ◌∷◌, String, lookup, lookup_or, insert, if◌then◌else◌,
}
use plugins_improve.Status.{success}
use plugins_improve.Network.Search.{
  search_loop, binary_search, find_key, to_search, IsSorted, binary_search-find_key,
}
use plugins_improve.Network.Types.{
  OriginInfo, NetworkTopology, DependenciesInfo, AppGroup, Pod, Node, Api, ScheduledInfo,
}
use plugins_improve.Network.Util.{
  find_origin_costs, find_topology_key, get_node_region, get_node_zone, get_pod_app_group_selector,
  insert_by, sort_by, get_pod_app_group_label, get_dependency_list, get_scheduled_list,
}
use plugins_improve.Network.Costs.{
  cost_lookup, populate_cost_map, sort_network_topology_costs, populate_weight, add_costs, costs_of,
  cost_insert, CostMap, cost_key, NetworkOverhead, find_network_topology, find_app_group,
  find_network_topology,
}
use plugins_improve.Network.Passes.{
  check_pod, cost_pod, get_accumulated_cost, judge, price, check_max_network_cost_requirements,
}
use plugins_improve.Network.Passes.Counts.{
  Counts, verdicts, check_max_network_cost_requirements_lem,
}
use plugins_improve.Network.Overhead.{
  visit_nodes, check_node, cost_map_of, cost_node, pre_filter_nodes, record_node, PreFilterState,
  returned, panicked, pre_filter, pre_filter_with, sort_topology,
}
use plugins_improve.Network.Overhead.Panics.{pre_filter_panics}
use plugins_improve.Network.Overhead.Decision.{Decided, Distinct, pre_filter-Decided}

abbrev origins : List OriginInfo
origins =
    record { origin = "a"; cost_list = [] }
    ∷ record { origin = "b"; cost_list = record { destination = "c"; network_cost = pos 7 } ∷ [] }
    ∷ record { origin = "c"; cost_list = [] }
    ∷ []

abbrev origin_of : OriginInfo → String
origin_of o = o.origin

origins-IsSorted : IsSorted origin_of origins
origins-IsSorted = ((refl, (refl, tt)), ((refl, tt), (tt, tt)))

binary_search-find_key_example :
    binary_search origin_of origins "b" ≡ to_search (find_key origin_of "b" origins)
binary_search-find_key_example = binary_search-find_key origin_of origins "b" origins-IsSorted

abbrev names : Api
names = record {
  label_topology_region = "region";
  label_topology_zone = "zone";
  app_group_label = "app-group";
  app_group_selector_label = "selector";
  network_topology_region = "region";
  network_topology_zone = "zone";
  network_topology_netperf_costs = "netperf";
}

abbrev node_in : String → String → Node
node_in name zone = record { name = name; labels = ("region", "r") ∷ ("zone", zone) ∷ [] }

abbrev get_node : String → Option Node
get_node name =
    if str_eq name "n1"
    then some (node_in "n1" "z1")
    else if str_eq name "n2"
    then some (node_in "n2" "z2")
    else none

abbrev zone_costs : CostMap
zone_costs = (cost_key "z1" "z2", pos 7) ∷ []

abbrev dependency : DependenciesInfo
dependency = record { selector = "db"; max_network_cost = pos 5 }

abbrev scheduled_on : String → ScheduledInfo
scheduled_on host = record { name = "db-0"; selector = "db"; replica_id = "1"; hostname = host }

check_max_network_cost_requirements_lem_example :
    Counts
      (check_max_network_cost_requirements names get_node "r" "z1" zone_costs
        (scheduled_on "n1" ∷ scheduled_on "n2" ∷ [])
        (dependency ∷ [])
        "n1")
      (verdicts names get_node "r" "z1" zone_costs "n1"
        (scheduled_on "n1" ∷ scheduled_on "n2" ∷ [])
        (dependency ∷ []))
      0
      0
check_max_network_cost_requirements_lem_example =
    check_max_network_cost_requirements_lem names get_node "r" "z1" zone_costs "n1"
      (scheduled_on "n1" ∷ scheduled_on "n2" ∷ []) (dependency ∷ []) (omega arith)

abbrev group : AppGroup
group = record {
  uid = "u";
  workloads = record { selector = "web"; dependencies = dependency ∷ [] } ∷ [];
  topology_order = [];
}

abbrev topology : NetworkTopology
topology = record {
  uid = "t";
  weights =
      record {
        name = "user";
        topology_list =
            record {
              topology_key = "zone";
              origin_list =
                  record {
                    origin = "z1";
                    cost_list = record { destination = "z2"; network_cost = pos 7 } ∷ [];
                  }
                  ∷ [];
            }
            ∷ [];
      }
      ∷ [];
}

abbrev plugin : NetworkOverhead
plugin = record {
  api = names;
  namespaces = "default" ∷ [];
  weights_name = "user";
  nt_name = "net";
  get_app_group = λ ns name. if str_eq name "shop" then some group else none;
  get_network_topology = λ ns name. some topology;
  get_node = get_node;
}

abbrev pod_of : String → String → String → Pod
pod_of ag selector host = record {
  name = selector;
  uid = selector;
  labels = ("app-group", ag) ∷ ("selector", selector) ∷ [];
  node_name = host;
}

abbrev both_nodes : List Node
both_nodes = node_in "n1" "z1" ∷ node_in "n2" "z2" ∷ []

both_nodes-Distinct : Distinct both_nodes
both_nodes-Distinct = ((refl, tt), (tt, tt))

-- The dependency runs on the second node, which is too far from the first.
abbrev decided_state : PreFilterState
decided_state = record {
  score_equally = false;
  ag_name = "shop";
  app_group = some group;
  network_topology = some topology;
  dependency_list = dependency ∷ [];
  scheduled_list = record { name = "db"; selector = "db"; replica_id = "db"; hostname = "n2" } ∷ [];
  node_cost_map = ("n1", zone_costs) ∷ ("n2", []) ∷ [];
  satisfied_map = ("n1", pos 0) ∷ ("n2", pos 1) ∷ [];
  violated_map = ("n1", pos 1) ∷ ("n2", pos 0) ∷ [];
  final_cost_map = ("n1", pos 7) ∷ ("n2", pos 0) ∷ [];
}

web_is_decided :
    pre_filter plugin
      (some (pod_of "shop" "db" "n2" ∷ []))
      (some both_nodes)
      (pod_of "shop" "web" "")
    ≡ returned success decided_state
unfolding pre_filter pre_filter_with get_pod_app_group_label lookup find_network_topology
    find_app_group get_dependency_list get_scheduled_list visit_nodes check_node
    check_max_network_cost_requirements judge cost_lookup cost_map_of populate_cost_map
    sort_network_topology_costs populate_weight add_costs costs_of cost_insert cost_node
    pre_filter_nodes record_node sort_topology check_pod cost_pod get_accumulated_cost price
    binary_search search_loop find_origin_costs find_topology_key get_node_region get_node_zone
    get_pod_app_group_selector insert_by sort_by add64 wrap64 ◌+ℤ◌ insert lookup_or
web_is_decided = refl

pre_filter-Decided_example : Decided plugin decided_state (node_in "n1" "z1")
pre_filter-Decided_example =
    pre_filter-Decided plugin (some (pod_of "shop" "db" "n2" ∷ [])) both_nodes
      (pod_of "shop" "web" "") decided_state 0 (node_in "n1" "z1") web_is_decided refl
      both_nodes-Distinct refl

pre_filter_panics_example :
    (pre_filter plugin (some []) (some both_nodes) (pod_of "other" "web" "") ≡ panicked)
    ↔ (str_eq (get_pod_app_group_label names (pod_of "other" "web" "")) "" ≡ false)
      × ((find_app_group plugin (get_pod_app_group_label names (pod_of "other" "web" "")) ≡ none)
          ⊎ (find_network_topology plugin ≡ none))
pre_filter_panics_example =
    pre_filter_panics plugin (some []) (some both_nodes) (pod_of "other" "web" "") refl
