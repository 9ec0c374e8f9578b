-- ===== src/Rescheduler/Plugin/Reserving.antt =====
-- Reserve and Unreserve of pkg/rescheduler/rescheduler.go on the reservations of all nodes.
use plugins_improve.Prelude.{
  ℤ, ◌≡◌, ◌≢◌, arith, str_eq_refl, lookup, lookup-insert, delete-insert, Option, none, some, List,
  String,
}
use plugins_improve.Status.{success}
use plugins_improve.Rescheduler.Calculator.{
  Float64, Pod, Node, Config, ResourceRequests, calculate_pod_resource_requests,
}
use plugins_improve.Rescheduler.Reservations.{ReservationInfo, Reservations}
use plugins_improve.Rescheduler.Reservations
use plugins_improve.Rescheduler.Plugin.{pod_key, reserve, unreserve}

held_and_released :
    (now : ℤ) (key node_name : String) (requests : ResourceRequests) (rs : Reservations)
    → lookup key rs ≡ none
    → (Reservations.unreserve key (Reservations.reserve now key node_name requests rs)).0 ≡ rs
unfolding Reservations.reserve Reservations.unreserve
held_and_released now key node_name requests rs h =
    let info : ReservationInfo = record {
      pod_key = key;
      node_name = node_name;
      reserved = requests;
      timestamp = now;
    } in
    ground (arith, str_eq_refl key, lookup-insert key key info rs, delete-insert key info rs h)

module _ (float : Float64) (config : Config float) where
  -- Reserve for a pod without a reservation: where it succeeds, Unreserve gives the reservations
  -- back, and where it fails, whether the node is not found or would be overloaded, the reservations
  -- are as before.
  pub unreserve_restores :
      (now : ℤ) (pods : Option (List Pod)) (node : Option Node) (pod : Pod) (rs : Reservations)
      → lookup (pod_key pod) rs ≡ none
      → ((reserve float config now pods node pod rs).0 ≡ success
          → unreserve float config pod (reserve float config now pods node pod rs).1 ≡ rs)
        × ((reserve float config now pods node pod rs).0 ≢ success
            → (reserve float config now pods node pod rs).1 ≡ rs)
  unfolding reserve unreserve
  unreserve_restores now pods none pod rs h = ground arith
  unreserve_restores now pods (some n) pod rs h =
      ground (
        arith,
        held_and_released now (pod_key pod) n.name (calculate_pod_resource_requests pod) rs h,
      )
