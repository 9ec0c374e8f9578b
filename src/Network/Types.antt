-- ===== src/Network/Types.antt =====
-- The objects that the network-aware plugins read: pkg/networkaware/util/util.go, and the fields of
-- the AppGroup and NetworkTopology resources that the code names.
use plugins_improve.Prelude.{ℤ, List, String}

pub record CostKey : Type 0 where
  pub origin : String
  pub destination : String

pub record ScheduledInfo : Type 0 where
  pub name : String
  pub selector : String
  pub replica_id : String
  pub hostname : String

pub record CostInfo : Type 0 where
  pub destination : String
  pub network_cost : ℤ

pub record OriginInfo : Type 0 where
  pub origin : String
  pub cost_list : List CostInfo

pub record TopologyInfo : Type 0 where
  pub topology_key : String
  pub origin_list : List OriginInfo

pub record WeightInfo : Type 0 where
  pub name : String
  pub topology_list : List TopologyInfo

pub record NetworkTopology : Type 0 where
  pub uid : String
  pub weights : List WeightInfo

pub record DependenciesInfo : Type 0 where
  pub selector : String
  pub max_network_cost : ℤ

pub record AppGroupWorkload : Type 0 where
  pub selector : String
  pub dependencies : List DependenciesInfo

pub record AppGroupTopologyInfo : Type 0 where
  pub selector : String
  pub index : ℤ

pub record AppGroup : Type 0 where
  pub uid : String
  pub workloads : List AppGroupWorkload
  pub topology_order : List AppGroupTopologyInfo

pub record Pod : Type 0 where
  pub name : String
  pub uid : String
  pub labels : List (String × String)
  pub node_name : String

pub record Node : Type 0 where
  pub name : String
  pub labels : List (String × String)

-- The label keys and names that the API packages define.
pub record Api : Type 0 where
  pub label_topology_region : String
  pub label_topology_zone : String
  pub app_group_label : String
  pub app_group_selector_label : String
  pub network_topology_region : String
  pub network_topology_zone : String
  pub network_topology_netperf_costs : String
