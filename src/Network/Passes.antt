-- ===== src/Network/Passes.antt =====
-- The two passes over the scheduled pods and the dependencies, in
-- pkg/networkaware/networkoverhead/networkoverhead.go: `checkMaxNetworkCostRequirements` and
-- `getAccumulatedCost`.
pub mod Counts
use plugins_improve.Prelude.{
  ℤ, pos, true, false, ◌&&◌, Option, none, some, List, [], ◌∷◌, String, str_eq, leb_ℤ, add64,
  if◌then◌else◌,
}
use plugins_improve.Network.Types.{ScheduledInfo, DependenciesInfo, Node, Api}
use plugins_improve.Network.Util.{get_node_region, get_node_zone}
use plugins_improve.Network.Costs.{
  CostMap, cost_key, cost_lookup, max_cost, same_hostname, same_zone,
}

-- What the requirement pass does with one pair: count it as met, as unmet, or not at all.
pub data Verdict : Type 0 where
  met unmet unknown : Verdict

abbrev pub against : Option ℤ → ℤ → Verdict
against none limit = unknown
against (some cost) limit = if leb_ℤ cost limit then met else unmet

-- The counters `satisfied` and `violated` of a pass, with `failed` for the error of the snapshot.
pub data Checked : Type 0 where
  counted failed : ℤ → ℤ → Checked

abbrev pub count_as : Verdict → ℤ → ℤ → (ℤ → ℤ → Checked) → Checked
count_as met s v next = next (add64 s (pos 1)) v
count_as unmet s v next = next s (add64 v (pos 1))
count_as unknown s v next = next s v

-- The sum of a pass, with `aborted` for the error of the snapshot.
pub data Accumulated : Type 0 where
  total aborted : ℤ → Accumulated

module _ (api : Api) (get_node : String → Option Node) (region zone : String)
    (costs : CostMap) where
  -- The branches on the node that the scheduled pod runs on.
  unfoldable pub judge : Node → ℤ → Verdict
  unfolding get_node_region get_node_zone
  judge n limit =
      let pod_region = get_node_region api n in
      let pod_zone = get_node_zone api n in
      if str_eq pod_region "" && str_eq pod_zone ""
      then unmet
      else if str_eq region pod_region
      then if str_eq zone pod_zone
        then met
        else against (cost_lookup (cost_key zone pod_zone) costs) limit
      else against (cost_lookup (cost_key region pod_region) costs) limit

  abbrev pub or_max_cost : Option ℤ → ℤ
  or_max_cost none = max_cost
  or_max_cost (some cost) = cost

  unfoldable pub price : Node → ℤ
  unfolding get_node_region get_node_zone
  price n =
      let pod_region = get_node_region api n in
      let pod_zone = get_node_zone api n in
      if str_eq pod_region "" && str_eq pod_zone ""
      then max_cost
      else if str_eq region pod_region
      then if str_eq zone pod_zone
        then same_zone
        else or_max_cost (cost_lookup (cost_key zone pod_zone) costs)
      else or_max_cost (cost_lookup (cost_key region pod_region) costs)

  -- The loop over the dependencies, for one scheduled pod.
  unfoldable pub check_pod : String → ScheduledInfo → List DependenciesInfo → ℤ → ℤ → Checked
  check_pod node_name p [] s v = counted s v
  check_pod node_name p (d ∷ ds) s v = elim (str_eq p.selector d.selector) [
    | false ↦ check_pod node_name p ds s v
    | true ↦ elim (str_eq p.hostname node_name) [
      | true ↦ check_pod node_name p ds (add64 s (pos 1)) v
      | false ↦ elim (get_node p.hostname) [
        | none ↦ failed s v
        | some n ↦ count_as (judge n d.max_network_cost) s v (check_pod node_name p ds)
      ]
    ]
  ]

  abbrev pub and_then : Checked → (ℤ → ℤ → Checked) → Checked
  and_then (counted s v) next = next s v
  and_then (failed s v) next = failed s v

  check_from : String → List ScheduledInfo → List DependenciesInfo → ℤ → ℤ → Checked
  unfolding check_pod
  check_from node_name [] ds s v = counted s v
  check_from node_name (p ∷ ps) ds s v = elim (str_eq p.hostname "") [
    | true ↦ check_from node_name ps ds s v
    | false ↦ and_then (check_pod node_name p ds s v) (check_from node_name ps ds)
  ]

  unfoldable pub check_max_network_cost_requirements :
      List ScheduledInfo → List DependenciesInfo → String → Checked
  unfolding check_from
  check_max_network_cost_requirements scheduled deps node_name =
      check_from node_name scheduled deps (pos 0) (pos 0)

  unfoldable pub cost_pod : String → ScheduledInfo → List DependenciesInfo → ℤ → Accumulated
  cost_pod node_name p [] cost = total cost
  cost_pod node_name p (d ∷ ds) cost = elim (str_eq p.selector d.selector) [
    | false ↦ cost_pod node_name p ds cost
    | true ↦ elim (str_eq p.hostname node_name) [
      | true ↦ cost_pod node_name p ds (add64 cost same_hostname)
      | false ↦ elim (get_node p.hostname) [
        | none ↦ aborted cost
        | some n ↦ cost_pod node_name p ds (add64 cost (price n))
      ]
    ]
  ]

  abbrev pub and_add : Accumulated → (ℤ → Accumulated) → Accumulated
  and_add (total c) next = next c
  and_add (aborted c) next = aborted c

  cost_from : String → List ScheduledInfo → List DependenciesInfo → ℤ → Accumulated
  unfolding cost_pod
  cost_from node_name [] ds cost = total cost
  cost_from node_name (p ∷ ps) ds cost =
      and_add (cost_pod node_name p ds cost) (cost_from node_name ps ds)

  unfoldable pub get_accumulated_cost :
      List ScheduledInfo → List DependenciesInfo → String → Accumulated
  unfolding cost_from
  get_accumulated_cost scheduled deps node_name = cost_from node_name scheduled deps (pos 0)
