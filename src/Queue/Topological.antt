-- ===== src/Queue/Topological.antt =====
-- The comparison of pkg/networkaware/topologicalsort/topologicalsort.go. The default comparison of
-- Kubernetes, for pods that do not share an AppGroup, is a parameter.
pub mod Order
use plugins_improve.Prelude.{
  Bool, ◌||◌, not, Option, none, some, List, [], ◌∷◌, String, str_eq, leb_ℤ, if◌then◌else◌,
}
use plugins_improve.Network.Types.{AppGroup, Pod, Api}
use plugins_improve.Network.Util.{
  get_pod_app_group_label, get_pod_app_group_selector, find_pod_order,
}

-- `get_app_group` is the client's answer for a namespace and a name, `none` where it is an error.
pub record TopologicalSort : Type 0 where
  pub api : Api
  pub namespaces : List String
  pub get_app_group : String → String → Option AppGroup
  pub priority_less : Pod → Pod → Bool

find_in : (String → Option AppGroup) → List String → Option AppGroup
find_in get [] = none
find_in get (ns ∷ nss) = elim (get ns) [ none ↦ find_in get nss | some ag ↦ some ag ]

unfoldable pub find_app_group_topological_sort : TopologicalSort → String → Option AppGroup
unfolding find_in
find_app_group_topological_sort ts ag_name =
    find_in (λ ns. ts.get_app_group ns ag_name) ts.namespaces

-- `none` is the panic of an AppGroup that is not found.
unfoldable pub less : TopologicalSort → Pod → Pod → Option Bool
less ts p1 p2 =
    let ag_name = get_pod_app_group_label ts.api p1 in
    if not (str_eq ag_name (get_pod_app_group_label ts.api p2)) || str_eq ag_name ""
    then some (ts.priority_less p1 p2)
    else elim (find_app_group_topological_sort ts ag_name) [
      | none ↦ none
      | some ag ↦ some (
          leb_ℤ (find_pod_order ag.topology_order (get_pod_app_group_selector ts.api p1))
            (find_pod_order ag.topology_order (get_pod_app_group_selector ts.api p2)))
    ]
