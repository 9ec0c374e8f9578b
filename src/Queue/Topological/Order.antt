-- ===== src/Queue/Topological/Order.antt =====
-- What the comparison of pkg/networkaware/topologicalsort/topologicalsort.go decides.
use plugins_improve.Prelude.{
  ℤ, negsuc, ◌≡◌, ◌⊎◌, arith, true, false, none, some, List, String, str_eq, eq_iff, leb_ℤ,
}
use plugins_improve.Network.Search.{IsSorted, find_key, binary_search-find_key}
use plugins_improve.Network.Types.{AppGroup, AppGroupTopologyInfo, Pod}
use plugins_improve.Network.Util.{
  get_pod_app_group_label, get_pod_app_group_selector, find_pod_order,
}
use plugins_improve.Queue.Topological.{TopologicalSort, find_app_group_topological_sort, less}

-- The index of the first entry that has the selector, -1 without one.
abbrev pub index_of : List AppGroupTopologyInfo → String → ℤ
index_of t selector = elim (find_key (λ e. e.selector) selector t) [
  | none ↦ negsuc 0
  | some e ↦ e.index
]

find_pod_order-index_of :
    (t : List AppGroupTopologyInfo) (selector : String)
    → IsSorted (λ e. e.selector) t
    → find_pod_order t selector ≡ index_of t selector
unfolding find_pod_order
find_pod_order-index_of t selector s =
    ground (arith, binary_search-find_key (λ e. e.selector) t selector s)

-- Pods of one AppGroup that is found, whose topology order is sorted by workload, are compared by the
-- indices of their workloads. One of the two pods always comes first, and both do where the indices
-- are equal.
pub less-index_of :
    (ts : TopologicalSort) (p q : Pod) (ag : AppGroup)
    → str_eq (get_pod_app_group_label ts.api p) "" ≡ false
    → get_pod_app_group_label ts.api q ≡ get_pod_app_group_label ts.api p
    → find_app_group_topological_sort ts (get_pod_app_group_label ts.api p) ≡ some ag
    → IsSorted (λ e. e.selector) ag.topology_order
    → (less ts p q
        ≡ some (
            leb_ℤ
              (index_of ag.topology_order (get_pod_app_group_selector ts.api p))
              (index_of ag.topology_order (get_pod_app_group_selector ts.api q))))
      × ((less ts p q ≡ some true) ⊎ (less ts q p ≡ some true))
unfolding less
less-index_of ts p q ag h e f s = ground (
  arith,
  eq_iff (get_pod_app_group_label ts.api p) (get_pod_app_group_label ts.api q),
  eq_iff (get_pod_app_group_label ts.api q) (get_pod_app_group_label ts.api p),
  find_pod_order-index_of ag.topology_order (get_pod_app_group_selector ts.api p) s,
  find_pod_order-index_of ag.topology_order (get_pod_app_group_selector ts.api q) s,
)
