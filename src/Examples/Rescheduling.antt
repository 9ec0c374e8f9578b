-- ===== src/Examples/Rescheduling.antt =====
-- The theorems on the rescheduler, with fixed-point numbers of three digits for float64.
use plugins_improve.Prelude.{
  ℕ, zero, suc, ◌+◌, ◌*◌, ◌/◌, ℤ, pos, sub_ℕ, pos_part, neg_part, ◌+ℤ◌, ◌-ℤ◌, ltb_ℤ, ◌≤◌, ◌≡◌, ◌≢◌,
  refl, true, false, not, some, List, [], ◌∷◌, map, String, elem, lookup, length, all, keep,
  sort_slice, lookup_or,
}
use plugins_improve.Status.{success}
use plugins_improve.Rescheduler.Calculator.{Float64, Pod, Node, Config}
use plugins_improve.Rescheduler.Plugin.{reserve, unreserve}
use plugins_improve.Rescheduler.Plugin.Reserving.{unreserve_restores}
use plugins_improve.Rescheduler.Migration.{
  is_migratable, find_migratable_pods, is_recently_rescheduled, is_static_pod, is_daemon_set_pod,
}
use plugins_improve.Rescheduler.Controller.{
  NodeMetrics, analyze_load_balance, decide, analyze_and_decide, perform_rescheduling,
  max_rescheduling_pods,
}
use plugins_improve.Rescheduler.Controller.Decisions.{may_move, analyze_and_decide-may_move}
use plugins_improve.Rescheduler.Controller.Rounds.{perform_rescheduling_lem}

abbrev scaled : ℤ → ℤ → ℤ
scaled a b =
    sub_ℕ ((pos_part a * pos_part b + neg_part a * neg_part b) / 1000)
      ((pos_part a * neg_part b + neg_part a * pos_part b) / 1000)

abbrev quotient : ℤ → ℤ → ℤ
quotient a b =
    sub_ℕ (pos_part a * 1000 / (pos_part b + neg_part b))
      (neg_part a * 1000 / (pos_part b + neg_part b))

abbrev pub fixed_point : Float64
fixed_point = record {
  F = ℤ;
  of_int = λ n. sub_ℕ (pos_part n * 1000) (neg_part n * 1000);
  to_int = λ x. pos (pos_part x / 1000);
  add = ◌+ℤ◌;
  sub = ◌-ℤ◌;
  mul = scaled;
  div = quotient;
  less = ltb_ℤ;
}

abbrev config : Config fixed_point
config = record {
  cpu_threshold = pos 80000;
  memory_threshold = pos 80000;
  cpu_score_weight = pos 600;
  memory_score_weight = pos 400;
  load_balance_bonus = pos 10000;
  excluded_namespaces = "kube-system" ∷ [];
  enable_scheduling_optimization = true;
}

abbrev pod_on : String → String → Pod
pod_on node name = record {
  namespace = "shop";
  name = name;
  node_name = node;
  running = true;
  priority = pos 0;
  owner_kinds = "ReplicaSet" ∷ [];
  annotations = [];
  containers = (pos 400, pos 400) ∷ [];
}

abbrev copies : ℕ → String → String → List Pod → List Pod
copies zero node name rest = rest
copies (suc n) node name rest = pod_on node name ∷ copies n node name rest

abbrev pods : List Pod
pods = copies 22 "n1" "cart" (pod_on "n2" "till" ∷ [])

abbrev node : Node
node = record {
  name = "n1";
  unschedulable = false;
  labels = ("scheduler.alpha.kubernetes.io/maintenance", "true") ∷ [];
  cpu_capacity = pos 1000;
  memory_capacity = pos 1000;
}

abbrev metrics : List (NodeMetrics fixed_point config)
metrics =
    record { node_name = "n1"; cpu_percent = pos 90000; memory_percent = pos 50000 }
    ∷ record { node_name = "n2"; cpu_percent = pos 20000; memory_percent = pos 20000 }
    ∷ []

unreserve_restores_example :
    ((reserve fixed_point config (pos 7) (some []) (some node) (pod_on "" "web") []).0 ≡ success
      → unreserve fixed_point config
          (pod_on "" "web")
          (reserve fixed_point config (pos 7) (some []) (some node) (pod_on "" "web") []).1
        ≡ [])
    × ((reserve fixed_point config (pos 7) (some []) (some node) (pod_on "" "web") []).0 ≢ success
        → (reserve fixed_point config (pos 7) (some []) (some node) (pod_on "" "web") []).1 ≡ [])
unfolding lookup
unreserve_restores_example =
    unreserve_restores fixed_point config (pos 7) (some []) (some node) (pod_on "" "web") [] refl

analyze_and_decide-may_move_example :
    all
      (may_move fixed_point config (pos 0) [])
      (analyze_and_decide fixed_point config (pos 0) [] (some pods) (some (node ∷ [])) metrics)
    ≡ true
analyze_and_decide-may_move_example =
    analyze_and_decide-may_move fixed_point config (pos 0) [] (some pods) (some (node ∷ [])) metrics

perform_rescheduling_lem_example :
    (r : List Pod × List (String × ℤ)) × (perform_rescheduling fixed_point config
        (λ i p. true)
        (λ i. pos 3)
        (pos 0)
        (some pods)
        (some (node ∷ []))
        (some metrics)
        []
      ≡ some r)
    × (length r.0 ≤ max_rescheduling_pods)
    × (all (λ p. is_migratable fixed_point config (pos 0) [] p p.node_name) r.0 ≡ true)
    × ((n : String) → all (λ p. not (is_migratable fixed_point config (pos 5) r.1 p n)) r.0 ≡ true)
unfolding ◌-ℤ◌
perform_rescheduling_lem_example =
    perform_rescheduling_lem fixed_point config (λ i p. true) (λ i. pos 3) (pos 0) (pos 5)
      (some pods) (some (node ∷ [])) metrics [] (λ i. refl)

two_moved :
    map
      (λ d. d.target_node)
      (analyze_load_balance fixed_point config (pos 0) [] (some (copies 3 "n1" "cart" [])) metrics)
    ≡ "n2" ∷ "n2" ∷ []
unfolding analyze_load_balance find_migratable_pods is_migratable is_recently_rescheduled
    is_static_pod is_daemon_set_pod decide sort_slice keep elem lookup lookup_or ◌-ℤ◌
two_moved = refl
