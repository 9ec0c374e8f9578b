-- ===== src/Rescheduler/Migration.antt =====
-- Which pods pkg/rescheduler/controller.go may move: its filter, and the history of the evictions.
use plugins_improve.Prelude.{
  ◌*◌, ◌^◌, ℤ, pos, ◌-ℤ◌, ltb_ℤ, ◌||◌, Bool, true, false, not, Option, none, some, List, [], String,
  str_eq, elem, lookup, lookup_or, insert, keep, sort_slice, if◌then◌else◌,
}
use plugins_improve.Rescheduler.Calculator.{Float64, Pod, Config}

-- `reschedulingHistory`: the time of the last eviction by the name of the pod, in nanoseconds.
abbrev pub History : Type 0
History = List (String × ℤ)

pub data Strategy : Type 0 where
  load_balancing pod_count_balancing resource_optimization node_maintenance : Strategy

-- `ReschedulingDecision` without the text of its reason.
pub record Decision : Type 0 where
  pub pod : Pod
  pub source_node : String
  pub target_node : String
  pub strategy : Strategy

abbrev pub ten_minutes : ℤ
ten_minutes = pos (600 * 10 ^ 9)

unfoldable pub mark_rescheduled : ℤ → String → History → History
mark_rescheduled now name history = insert name now history

unfoldable pub is_recently_rescheduled : ℤ → String → History → Bool
is_recently_rescheduled now name history = elim (lookup name history) [
  | none ↦ false
  | some last_time ↦ ltb_ℤ (now -ℤ last_time) ten_minutes
]

unfoldable pub is_static_pod : Pod → Bool
is_static_pod pod =
    let source = lookup_or "kubernetes.io/config.source" "" pod.annotations in
    str_eq source "api" || str_eq source "file"

unfoldable pub is_daemon_set_pod : Pod → Bool
is_daemon_set_pod pod = elem "DaemonSet" pod.owner_kinds

module _ (float : Float64) (config : Config float) where
  unfoldable pub is_migratable : ℤ → History → Pod → String → Bool
  is_migratable now history pod target_node_name =
      if not (str_eq pod.node_name target_node_name) || not pod.running
      then false
      else if elem pod.namespace config.excluded_namespaces
      then false
      else if is_daemon_set_pod pod
      then false
      else if is_static_pod pod
      then false
      else if is_recently_rescheduled now pod.name history
      then false
      else true

  unfoldable pub find_migratable_pods : ℤ → History → Option (List Pod) → String → List Pod
  find_migratable_pods now history none node_name = []
  find_migratable_pods now history (some pods) node_name =
      sort_slice (λ p q. ltb_ℤ p.priority q.priority)
        (keep (λ p. is_migratable now history p node_name) pods)
