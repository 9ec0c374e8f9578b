-- ===== src/Examples/Queues.antt =====
-- The theorems on the comparisons of the scheduling queue.
use plugins_improve.Prelude.{
  pos, ◌≡◌, ◌⊎◌, refl, true, false, some, [], ◌∷◌, String, leb_ℤ, lookup, lookup_or,
}
use plugins_improve.Network.Types.{AppGroup, Pod, Api}
use plugins_improve.Network.Util.{get_pod_app_group_label, get_pod_app_group_selector}
use plugins_improve.Queue.Qos.{QueuedPodInfo, burstable, guaranteed, best_effort}
use plugins_improve.Queue.Qos.Order.{less_is_strict_weak}
use plugins_improve.Queue.Qos
use plugins_improve.Queue.Topological.{TopologicalSort, find_app_group_topological_sort, less}
use plugins_improve.Queue.Topological.Order.{index_of, less-index_of}

abbrev late : QueuedPodInfo
late = record { priority = pos 3; qos = burstable; timestamp = pos 9 }

abbrev early : QueuedPodInfo
early = record { priority = pos 3; qos = burstable; timestamp = pos 4 }

abbrev safe : QueuedPodInfo
safe = record { priority = pos 3; qos = guaranteed; timestamp = pos 20 }

less_is_strict_weak_example :
    (Qos.less safe safe ≡ false)
    × (Qos.less safe early ≡ true → Qos.less early late ≡ true → Qos.less safe late ≡ true)
    × (Qos.less safe early ≡ false → Qos.less early late ≡ false → Qos.less safe late ≡ false)
less_is_strict_weak_example = less_is_strict_weak safe early late

safe_before_early : Qos.less safe early ≡ true
unfolding Qos.less
safe_before_early = refl

abbrev names : Api
names = record {
  label_topology_region = "region";
  label_topology_zone = "zone";
  app_group_label = "app-group";
  app_group_selector_label = "selector";
  network_topology_region = "region";
  network_topology_zone = "zone";
  network_topology_netperf_costs = "netperf";
}

abbrev shop : AppGroup
shop = record {
  uid = "s";
  workloads = [];
  topology_order =
      record { selector = "cart"; index = pos 2 } ∷ record { selector = "db"; index = pos 1 } ∷ [];
}

abbrev plugin : TopologicalSort
plugin = record {
  api = names;
  namespaces = "default" ∷ [];
  get_app_group = λ ns name. some shop;
  priority_less = λ p q. false;
}

abbrev pod_of : String → Pod
pod_of selector = record {
  name = selector;
  uid = selector;
  labels = ("app-group", "shop") ∷ ("selector", selector) ∷ [];
  node_name = "";
}

shop_label : get_pod_app_group_label names (pod_of "db") ≡ "shop"
unfolding get_pod_app_group_label lookup_or lookup
shop_label = refl

less-index_of_example :
    (less plugin (pod_of "db") (pod_of "cart")
      ≡ some (
          leb_ℤ
            (index_of shop.topology_order (get_pod_app_group_selector names (pod_of "db")))
            (index_of shop.topology_order (get_pod_app_group_selector names (pod_of "cart")))))
    × ((less plugin (pod_of "db") (pod_of "cart") ≡ some true)
        ⊎ (less plugin (pod_of "cart") (pod_of "db") ≡ some true))
unfolding find_app_group_topological_sort get_pod_app_group_label lookup_or lookup
less-index_of_example =
    less-index_of plugin (pod_of "db") (pod_of "cart") shop refl refl refl ((refl, tt), (tt, tt))
