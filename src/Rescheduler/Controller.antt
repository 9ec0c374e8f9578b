-- ===== src/Rescheduler/Controller.antt =====
-- The controller of pkg/rescheduler/controller.go: which pods it decides to move, and one round of
-- evictions. Where the pods or the nodes cannot be listed, they are `none`.
pub mod Decisions
pub mod Metrics
pub mod Rounds
pub mod Targets
use plugins_improve.Prelude.{
  ℕ, zero, suc, ◌+◌, ◌-◌, ◌*◌, ◌^◌, ℤ, pos, negsuc, ◌-ℤ◌, ltb_ℤ, ltb, leb, ◌&&◌, ◌||◌, Bool, true,
  false, not, Option, none, some, List, [], ◌∷◌, ◌++◌, String, str_eq, elem, lookup, lookup_or,
  insert, length, keep, sort_slice, if◌then◌else◌,
}
use plugins_improve.Rescheduler.Calculator.{
  Float64, Pod, Node, ResourceUsagePercent, Config, calculate_score, is_overloaded,
}
use plugins_improve.Rescheduler.Migration.{
  History, Strategy, load_balancing, pod_count_balancing, resource_optimization, node_maintenance,
  Decision, ten_minutes, mark_rescheduled, is_recently_rescheduled, is_static_pod,
  is_daemon_set_pod, is_migratable, find_migratable_pods,
}

abbrev pub max_rescheduling_pods : ℕ
max_rescheduling_pods = 10

abbrev pub default_pod_count_imbalance_threshold : ℕ
default_pod_count_imbalance_threshold = 20

-- The first `n` candidates, moved from one node to another.
unfoldable pub decide : ℕ → String → String → Strategy → List Pod → List Decision
decide zero source target strategy pods = []
decide (suc n) source target strategy [] = []
decide (suc n) source target strategy (p ∷ ps) =
    record { pod = p; source_node = source; target_node = target; strategy = strategy }
    ∷ decide n source target strategy ps

abbrev pub last_of {ℓ} : {A : Type ℓ} → A → List A → A
last_of x [] = x
last_of x (y ∷ ys) = last_of y ys

module _ (float : Float64) (config : Config float) where
  open float use {F, of_int, sub, less}

  pub record NodeMetrics : Type 0 where
    pub node_name : String
    pub cpu_percent : F
    pub memory_percent : F

  best_target_from : String → List NodeMetrics → F → String → String
  best_target_from exclude [] best_score best = best
  best_target_from exclude (m ∷ ms) best_score best =
      let score =
        calculate_score float config (record { cpu = m.cpu_percent; memory = m.memory_percent }) in
      let other = best_target_from exclude ms best_score best in
      if str_eq m.node_name exclude
      then other
      else if less best_score score
      then best_target_from exclude ms score m.node_name
      else other

  unfoldable pub find_best_target_node : List NodeMetrics → String → String
  unfolding best_target_from
  find_best_target_node metrics exclude = best_target_from exclude metrics (of_int (negsuc 0)) ""

  unfoldable pub analyze_load_balance :
      ℤ → History → Option (List Pod) → List NodeMetrics → List Decision
  unfolding decide
  analyze_load_balance now history pods metrics =
      if ltb (length metrics) 2
      then []
      else elim (sort_slice (λ m n. less n.cpu_percent m.cpu_percent) metrics) [
        | [] ↦ []
        | highest ∷ rest ↦
            let lowest = last_of highest rest in
            if less (sub highest.cpu_percent lowest.cpu_percent) (of_int (pos 20))
            then []
            else decide 2 highest.node_name lowest.node_name load_balancing
                (find_migratable_pods float config now history pods highest.node_name)
      ]

  count_pods : List Pod → List (String × ℕ) → List (String × ℕ)
  count_pods [] counts = counts
  count_pods (p ∷ ps) counts = count_pods ps (
      if not p.running || str_eq p.node_name "" || elem p.namespace config.excluded_namespaces
      then counts
      else insert p.node_name (suc (lookup_or p.node_name 0 counts)) counts)

  worker_counts : List (String × ℕ) → List NodeMetrics → List (String × ℕ)
  worker_counts counts [] = []
  worker_counts counts (m ∷ ms) = elim (lookup m.node_name counts) [
    | none ↦ worker_counts counts ms
    | some n ↦ (m.node_name, n) ∷ worker_counts counts ms
  ]

  -- The nodes are sorted, so that the difference is not negative.
  unfoldable pub analyze_pod_count_imbalance :
      ℤ → History → Option (List Pod) → List NodeMetrics → List Decision
  unfolding count_pods worker_counts decide
  analyze_pod_count_imbalance now history none metrics = []
  analyze_pod_count_imbalance now history (some pods) metrics =
      let workers = worker_counts (count_pods pods []) metrics in
      if ltb (length workers) 2 then [] else elim (sort_slice (λ m n. ltb n.1 m.1) workers) [
        | [] ↦ []
        | highest ∷ rest ↦
            let lowest = last_of highest rest in
            if ltb (highest.1 - lowest.1) default_pod_count_imbalance_threshold
            then []
            else decide 3 highest.0 lowest.0 pod_count_balancing
                (find_migratable_pods float config now history (some pods) highest.0)
      ]

  optimize_from :
      ℤ → History → Option (List Pod) → List NodeMetrics → List NodeMetrics → List Decision
  optimize_from now history pods metrics [] = []
  optimize_from now history pods metrics (m ∷ ms) =
      let rest = optimize_from now history pods metrics ms in
      let target = find_best_target_node metrics m.node_name in
      if not
        (is_overloaded float config (record { cpu = m.cpu_percent; memory = m.memory_percent }))
      then rest
      else elim (find_migratable_pods float config now history pods m.node_name) [
        | [] ↦ rest
        | p ∷ ps ↦
            if str_eq target ""
            then rest
            else decide 1 m.node_name target resource_optimization (p ∷ ps)
      ]

  unfoldable pub analyze_resource_optimization :
      ℤ → History → Option (List Pod) → List NodeMetrics → List Decision
  unfolding optimize_from
  analyze_resource_optimization now history pods metrics =
      optimize_from now history pods metrics metrics

  maintain_from : ℤ → History → Option (List Pod) → List NodeMetrics → List Node → List Decision
  unfolding decide
  maintain_from now history pods metrics [] = []
  maintain_from now history pods metrics (n ∷ ns) =
      let rest = maintain_from now history pods metrics ns in
      let candidates = find_migratable_pods float config now history pods n.name in
      let target = find_best_target_node metrics n.name in
      if not (str_eq (lookup_or "scheduler.alpha.kubernetes.io/maintenance" "" n.labels) "true")
      then rest
      else if str_eq target ""
      then rest
      else decide (length candidates) n.name target node_maintenance candidates ++ rest

  unfoldable pub analyze_node_maintenance :
      ℤ → History → Option (List Pod) → Option (List Node) → List NodeMetrics → List Decision
  unfolding maintain_from
  analyze_node_maintenance now history pods none metrics = []
  analyze_node_maintenance now history pods (some nodes) metrics =
      maintain_from now history pods metrics nodes

  unfoldable pub analyze_and_decide :
      ℤ → History → Option (List Pod) → Option (List Node) → List NodeMetrics → List Decision
  analyze_and_decide now history pods nodes metrics =
      analyze_load_balance now history pods metrics
      ++ analyze_pod_count_imbalance now history pods metrics
      ++ analyze_resource_optimization now history pods metrics
      ++ analyze_node_maintenance now history pods nodes metrics

-- The loop over the decisions from the i-th on: `evict` is the answer of the API, `clock` the time.
unfoldable pub execute :
    (ℕ → Pod → Bool) → (ℕ → ℤ) → ℕ → List Decision → History → List Pod × History
unfolding mark_rescheduled
execute evict clock i [] history = ([], history)
execute evict clock i (d ∷ ds) history =
    let after = execute evict clock (suc i) ds (mark_rescheduled (clock i) d.pod.name history) in
    let skipped = execute evict clock (suc i) ds history in
    if leb max_rescheduling_pods i
    then ([], history)
    else if evict i d.pod
    then (d.pod ∷ after.0, after.1)
    else skipped

module _ (float : Float64) (config : Config float) where
  -- The pods that are evicted and the history afterwards; `none` where the metrics are not available.
  unfoldable pub perform_rescheduling :
      (ℕ → Pod → Bool)
      → (ℕ → ℤ)
      → ℤ
      → Option (List Pod)
      → Option (List Node)
      → Option (List (NodeMetrics float config))
      → History
      → Option (List Pod × History)
  perform_rescheduling evict clock now pods nodes none history = none
  perform_rescheduling evict clock now pods nodes (some metrics) history =
      if ltb (length metrics) 1
      then some ([], history)
      else some (
          execute evict clock 0 (analyze_and_decide float config now history pods nodes metrics)
            history)
