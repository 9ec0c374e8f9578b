-- ===== src/Network/Costs.antt =====
-- The cost map, the two passes over scheduled pods, and the lookups of the two resources:
-- pkg/networkaware/networkoverhead/networkoverhead.go.
use plugins_improve.Prelude.{
  ℤ, pos, Bool, not, ◌&&◌, Option, none, some, List, [], ◌∷◌, map, String, str_eq, if◌then◌else◌,
}
use plugins_improve.Network.Types.{
  CostKey, CostInfo, WeightInfo, NetworkTopology, AppGroup, Node, Api,
}
use plugins_improve.Network.Util.{find_origin_costs, find_topology_key, sort_by}

abbrev pub max_cost : ℤ
max_cost = pos 100

abbrev pub same_hostname : ℤ
same_hostname = pos 0

abbrev pub same_zone : ℤ
same_zone = pos 1

-- `map[CostKey]int64`.
abbrev pub CostMap : Type 0
CostMap = List (CostKey × ℤ)

abbrev pub same_key : CostKey → CostKey → Bool
same_key a b = str_eq a.origin b.origin && str_eq a.destination b.destination

unfoldable pub cost_lookup : CostKey → CostMap → Option ℤ
cost_lookup k [] = none
cost_lookup k ((j, c) ∷ m) = if same_key j k then some c else cost_lookup k m

unfoldable pub cost_insert : CostKey → ℤ → CostMap → CostMap
cost_insert k c [] = (k, c) ∷ []
cost_insert k c ((j, d) ∷ m) = if same_key j k then (k, c) ∷ m else (j, d) ∷ cost_insert k c m

abbrev pub cost_key : String → String → CostKey
cost_key o d = record { origin = o; destination = d }

-- The plugin's fields, with the two resources as the client's `Get` by namespace and name, and the
-- nodes of the snapshot by name; `none` is an error of the call.
pub record NetworkOverhead : Type 0 where
  pub api : Api
  pub namespaces : List String
  pub weights_name : String
  pub nt_name : String
  pub get_app_group : String → String → Option AppGroup
  pub get_network_topology : String → String → Option NetworkTopology
  pub get_node : String → Option Node

find_app_group_in : (String → Option AppGroup) → List String → Option AppGroup
find_app_group_in get [] = none
find_app_group_in get (ns ∷ nss) =
    let rest = find_app_group_in get nss in
    elim (get ns) [ none ↦ rest | some g ↦ if str_eq g.uid "" then rest else some g ]

unfoldable pub find_app_group : NetworkOverhead → String → Option AppGroup
unfolding find_app_group_in
find_app_group pl ag_name = find_app_group_in (λ ns. pl.get_app_group ns ag_name) pl.namespaces

find_network_topology_in : (String → Option NetworkTopology) → List String → Option NetworkTopology
find_network_topology_in get [] = none
find_network_topology_in get (ns ∷ nss) =
    let rest = find_network_topology_in get nss in
    elim (get ns) [ none ↦ rest | some t ↦ if str_eq t.uid "" then rest else some t ]

unfoldable pub find_network_topology : NetworkOverhead → Option NetworkTopology
unfolding find_network_topology_in
find_network_topology pl =
    find_network_topology_in (λ ns. pl.get_network_topology ns pl.nt_name) pl.namespaces

-- Manual weights are those that no measurement filled in.
abbrev pub is_manual : NetworkOverhead → Bool
is_manual pl = not (str_eq pl.weights_name pl.api.network_topology_netperf_costs)

unfoldable pub sort_network_topology_costs : NetworkOverhead → NetworkTopology → NetworkTopology
sort_network_topology_costs pl nt =
    if is_manual pl then record nt { weights = map sorted nt.weights } else nt
  where
    sorted : WeightInfo → WeightInfo
    sorted w = record w { topology_list = sort_by (λ t. t.topology_key) w.topology_list }

-- The inner loops of `populateCostMap`.
unfoldable pub add_costs : String → List CostInfo → CostMap → CostMap
add_costs origin [] m = m
add_costs origin (c ∷ cs) m =
    add_costs origin cs (cost_insert (cost_key origin c.destination) c.network_cost m)

-- The costs of an origin (a region or a zone) under a topology key. The source sorts the list of
-- origins in place; a second sort of it changes nothing.
unfoldable pub costs_of : NetworkOverhead → WeightInfo → String → String → List CostInfo
costs_of pl w key origin =
    let topology_list = find_topology_key w.topology_list key in
    find_origin_costs
      (if is_manual pl then sort_by (λ o. o.origin) topology_list else topology_list) origin

unfoldable pub populate_weight : NetworkOverhead → WeightInfo → String → String → CostMap → CostMap
populate_weight pl w region zone m =
    let with_region =
      if str_eq region ""
      then m
      else add_costs region (costs_of pl w pl.api.network_topology_region region) m in
    if str_eq zone ""
    then with_region
    else add_costs zone (costs_of pl w pl.api.network_topology_zone zone) with_region

unfoldable pub populate_cost_map :
    NetworkOverhead → List WeightInfo → String → String → CostMap → CostMap
populate_cost_map pl [] region zone m = m
populate_cost_map pl (w ∷ ws) region zone m =
    populate_cost_map pl ws region zone
      (if str_eq w.name pl.weights_name then populate_weight pl w region zone m else m)
