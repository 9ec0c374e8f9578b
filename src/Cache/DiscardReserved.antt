-- ===== src/Cache/DiscardReserved.antt =====
-- pkg/noderesourcetopology/cache/discardreserved.go: the cache that serves no data of a node while a
-- reservation on it is pending. Each method is one step, since each holds the lock.
pub mod Pending
use plugins_improve.Prelude.{
  ℕ, Bool, true, false, Option, none, some, List, [], ◌∷◌, String, lookup, lookup_or, insert,
  delete, length, ltb, if◌then◌else◌,
}
use plugins_improve.Cache.Store.{Nrt, Pod}
use plugins_improve.Cache.OverReserve.{CachedNrtInfo}

-- `reservationMap`: the uids of the reserved pods by node.
abbrev pub ReservationMap : Type 0
ReservationMap = List (String × List (String × Bool))

module _ {Q : Type 0} where
  -- `get` is the API client; `none` is an error.
  unfoldable pub get_cached_nrt_copy :
      (String → Option (Nrt Q)) → String → ReservationMap → Option (Nrt Q) × CachedNrtInfo
  unfolding lookup_or
  get_cached_nrt_copy get node m =
      if ltb 0 (length (lookup_or node [] m))
      then (none, record { generation = 0; fresh = false })
      else (get node, record { generation = 0; fresh = true })

  unfoldable pub reserve_node_resources : String → Pod Q → ReservationMap → ReservationMap
  unfolding lookup_or
  reserve_node_resources node pod m = insert node (insert pod.uid true (lookup_or node [] m)) m

  -- A delete from a map that is nil does nothing.
  unfoldable pub remove_reservation_for_node : String → Pod Q → ReservationMap → ReservationMap
  remove_reservation_for_node node pod m = elim (lookup node m) [
    | none ↦ m
    | some t ↦ insert node (delete pod.uid t) m
  ]

  unfoldable pub unreserve_node_resources : String → Pod Q → ReservationMap → ReservationMap
  unfolding remove_reservation_for_node
  unreserve_node_resources node pod m = remove_reservation_for_node node pod m

  unfoldable pub post_bind : String → Pod Q → ReservationMap → ReservationMap
  unfolding remove_reservation_for_node
  post_bind node pod m = remove_reservation_for_node node pod m
