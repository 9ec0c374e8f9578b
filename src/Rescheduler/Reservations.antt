-- ===== src/Rescheduler/Reservations.antt =====
-- The reservation manager of pkg/rescheduler/rescheduler.go: reservations by the key of a pod.
use plugins_improve.Prelude.{
  ℤ, Option, none, some, List, [], ◌∷◌, String, str_eq, sub64, ltb_ℤ, lookup, insert, delete,
  if◌then◌else◌,
}
use plugins_improve.Rescheduler.Calculator.{ResourceRequests, no_requests, add_requests}

pub record ReservationInfo : Type 0 where
  pub pod_key : String
  pub node_name : String
  pub reserved : ResourceRequests
  pub timestamp : ℤ

abbrev pub Reservations : Type 0
Reservations = List (String × ReservationInfo)

unfoldable pub reserve : ℤ → String → String → ResourceRequests → Reservations → Reservations
reserve now pod_key node_name requests rs =
    insert pod_key
      (record { pod_key = pod_key; node_name = node_name; reserved = requests; timestamp = now }) rs

unfoldable pub unreserve : String → Reservations → Reservations × Option ReservationInfo
unreserve pod_key rs = elim (lookup pod_key rs) [
  | none ↦ (rs, none)
  | some info ↦ (delete pod_key rs, some info)
]

unfoldable pub get_reservation : String → Reservations → Option ReservationInfo
get_reservation pod_key rs = lookup pod_key rs

unfoldable pub get_node_reservations : String → Reservations → List ReservationInfo
get_node_reservations node_name [] = []
get_node_reservations node_name (e ∷ rs) =
    let rest = get_node_reservations node_name rs in
    if str_eq e.1.node_name node_name then e.1 ∷ rest else rest

-- The two sums of the loop.
unfoldable pub total_from : String → Reservations → ResourceRequests → ResourceRequests
total_from node_name [] total = total
total_from node_name (e ∷ rs) total =
    total_from node_name rs
      (if str_eq e.1.node_name node_name then add_requests total e.1.reserved else total)

unfoldable pub get_total_reserved_resources : String → Reservations → ResourceRequests
unfolding total_from
get_total_reserved_resources node_name rs = total_from node_name rs no_requests

unfoldable pub cleanup_expired_reservations : ℤ → ℤ → Reservations → Reservations
cleanup_expired_reservations now expiration_seconds [] = []
cleanup_expired_reservations now expiration_seconds (e ∷ rs) =
    let rest = cleanup_expired_reservations now expiration_seconds rs in
    if ltb_ℤ expiration_seconds (sub64 now e.1.timestamp) then rest else e ∷ rest
