-- ===== src/Rescheduler/Plugin.antt =====
-- The extension points of pkg/rescheduler/rescheduler.go.
pub mod Reserving
pub mod Scoring
use plugins_improve.Prelude.{
  ℤ, pos, ◌&&◌, ◌||◌, Bool, true, false, not, Option, none, some, List, [], ◌∷◌, String, str_eq,
  lookup_or, if◌then◌else◌,
}
use Prim.Native.String.{◌++◌ as str_append}
use plugins_improve.Status.{Status, success, unschedulable, error}
use plugins_improve.Rescheduler.Calculator.{
  Float64, Pod, Node, ResourceRequests, add_requests, no_requests, calculate_pod_resource_requests,
  ResourceUsagePercent, Config, calculate_usage_percent, calculate_score, is_overloaded,
}
use plugins_improve.Rescheduler.Reservations.{Reservations, get_total_reserved_resources}
use plugins_improve.Rescheduler.Reservations

-- `CPURequests` and `MemoryRequests` of a node: the sums over its running pods.
unfoldable pub running_requests : String → List Pod → ResourceRequests → ResourceRequests
running_requests node_name [] total = total
running_requests node_name (p ∷ ps) total = running_requests node_name ps (
    if p.running && str_eq p.node_name node_name
    then add_requests total (calculate_pod_resource_requests p)
    else total)

-- The requests in `getNodeUsage`: none where the pods cannot be listed or the node is unschedulable,
-- since calculateNodeUsages skips it. The name of a node is not empty.
unfoldable pub node_requests : Option (List Pod) → Node → ResourceRequests
unfolding running_requests
node_requests none node = no_requests
node_requests (some pods) node =
    if node.unschedulable then no_requests else running_requests node.name pods no_requests

unfoldable pub node_requests_with_reservations :
    Option (List Pod) → Reservations → Node → ResourceRequests
unfolding node_requests
node_requests_with_reservations pods rs node =
    add_requests (node_requests pods node) (get_total_reserved_resources node.name rs)

unfoldable pub predicted_requests :
    Bool → Option (List Pod) → Reservations → Node → Pod → ResourceRequests
unfolding node_requests_with_reservations
predicted_requests include_reservations pods rs node pod =
    add_requests
      (if include_reservations
        then node_requests_with_reservations pods rs node
        else node_requests pods node)
      (calculate_pod_resource_requests pod)

abbrev pub pod_key : Pod → String
pod_key pod = str_append pod.namespace (str_append "/" pod.name)

module _ (float : Float64) (config : Config float) where
  open float use {of_int, to_int, less}

  -- `getNodeUsage`: the percentages are 0 where the usage is not computed.
  unfoldable pub get_node_usage : Option (List Pod) → Node → ResourceUsagePercent float
  unfolding node_requests
  get_node_usage none node = record { cpu = of_int (pos 0); memory = of_int (pos 0) }
  get_node_usage (some pods) node =
      if node.unschedulable
      then record { cpu = of_int (pos 0); memory = of_int (pos 0) }
      else calculate_usage_percent float (node_requests (some pods) node) node

  abbrev severely_overloaded : ResourceUsagePercent float → Bool
  severely_overloaded usage =
      less (of_int (pos 95)) usage.cpu || less (of_int (pos 95)) usage.memory

  -- `node` is `none` where the lister fails.
  unfoldable pub reserve :
      ℤ → Option (List Pod) → Option Node → Pod → Reservations → Status × Reservations
  unfolding predicted_requests
  reserve now pods node pod rs =
      if not config.enable_scheduling_optimization then (success, rs) else elim node [
        | none ↦ (error, rs)
        | some n ↦
            let predicted = predicted_requests true pods rs n pod in
            let held =
              Reservations.reserve now (pod_key pod) n.name (calculate_pod_resource_requests pod)
                rs in
            if severely_overloaded (calculate_usage_percent float predicted n)
            then (unschedulable, (Reservations.unreserve (pod_key pod) held).0)
            else (success, held)
      ]

  unfoldable pub unreserve : Pod → Reservations → Reservations
  unreserve pod rs =
      if not config.enable_scheduling_optimization
      then rs
      else (Reservations.unreserve (pod_key pod) rs).0

  unfoldable pub filter_node : Option (List Pod) → Node → Status
  filter_node pods node =
      if not config.enable_scheduling_optimization
      then success
      else if is_overloaded float config (get_node_usage pods node)
      then unschedulable
      else if str_eq (lookup_or "scheduler.alpha.kubernetes.io/maintenance" "" node.labels) "true"
      then unschedulable
      else success

  -- `math.Max(0, math.Min(100, x))`, where x is a number: no term of the score is NaN.
  abbrev pub at_most_100 : float.F → float.F
  at_most_100 x = if less x (of_int (pos 100)) then x else of_int (pos 100)

  abbrev pub clamp : float.F → float.F
  clamp x = if less (of_int (pos 0)) (at_most_100 x) then at_most_100 x else of_int (pos 0)

  unfoldable pub score_node : Option (List Pod) → Node → ℤ
  unfolding calculate_score
  score_node pods node =
      if not config.enable_scheduling_optimization
      then pos 0
      else to_int (clamp (calculate_score float config (get_node_usage pods node)))

  -- The prediction of an overload is only logged; `node` is `none` where the lister fails.
  unfoldable pub pre_bind : (enable_preventive_rescheduling : Bool) → Option Node → Status
  pre_bind enable_preventive_rescheduling node =
      if not enable_preventive_rescheduling
      then success
      else elim node [ none ↦ error | some n ↦ success ]
