-- ===== src/Network/Overhead/Panics.antt =====
-- Where PreFilter of pkg/networkaware/networkoverhead/networkoverhead.go reads a nil pointer.
use plugins_improve.Prelude.{◌≡◌, ◌⊎◌, ◌↔◌, true, false, Option, none, List, arith, str_eq}
use plugins_improve.Network.Types.{Pod, Node}
use plugins_improve.Network.Util.{get_pod_app_group_label}
use plugins_improve.Network.Costs.{
  NetworkOverhead, is_manual, find_app_group, find_network_topology,
}
use plugins_improve.Network.Overhead.{
  panicked, pre_filter, pre_filter_with, pre_filter_nodes, sort_topology,
}

-- With manual weights PreFilter reads a nil pointer exactly where the pod names an AppGroup and that
-- AppGroup or the network topology stands in no namespace of the plugin.
pub pre_filter_panics :
    (pl : NetworkOverhead) (pods : Option (List Pod)) (nodes : Option (List Node)) (pod : Pod)
    → is_manual pl ≡ true
    → (pre_filter pl pods nodes pod ≡ panicked)
      ↔ (str_eq (get_pod_app_group_label pl.api pod) "" ≡ false)
        × ((find_app_group pl (get_pod_app_group_label pl.api pod) ≡ none)
            ⊎ (find_network_topology pl ≡ none))
unfolding pre_filter pre_filter_with pre_filter_nodes sort_topology
pre_filter_panics pl pods nodes pod manual = ground arith
