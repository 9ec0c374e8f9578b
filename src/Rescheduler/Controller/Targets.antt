-- ===== src/Rescheduler/Controller/Targets.antt =====
-- Where the analyses of pkg/rescheduler/controller.go send the pods.
use plugins_improve.Prelude.{
  ℕ, zero, suc, ◌+◌, ℤ, ltb, leb, ◌==◌, ==_iff, ◌&&◌, Bool, true, not, negsuc, str_eq_refl, ◌≡◌,
  ◌≢◌, ◌⊎◌, ◌∙◌, sym, ap, refl, arith, some, List, [], ◌∷◌, map, String, str_eq, eq_iff, elem,
  lookup, lookup_or, lookup-insert, length, keep, all, all-sort_slice, sort_slice, insert,
  Option-cases, List-cases, inl, inr,
}
use plugins_improve.Rescheduler.Calculator.{Float64, Pod, Config, calculate_score}
use plugins_improve.Rescheduler.Migration.{
  History, Strategy, pod_count_balancing, find_migratable_pods,
}
use plugins_improve.Rescheduler.Controller.{
  decide, last_of, NodeMetrics, find_best_target_node, best_target_from,
  analyze_pod_count_imbalance, count_pods, worker_counts, default_pod_count_imbalance_threshold,
}

all-last_of {ℓ} :
    {A : Type ℓ} (p : A → Bool) (x : A) (xs : List A)
    → all p (x ∷ xs) ≡ true
    → p (last_of x xs) ≡ true
unfolding all
all-last_of p x [] h = ground arith
all-last_of p x (y ∷ ys) h = ground (arith, all-last_of p y ys)

decide-all :
    (test : String → String → Bool) (n : ℕ) (source target : String) (strategy : Strategy)
    (pods : List Pod)
    → test source target ≡ true
    → all (λ d. test d.source_node d.target_node) (decide n source target strategy pods) ≡ true
unfolding decide all
decide-all test zero source target strategy pods h = refl
decide-all test (suc n) source target strategy [] h = refl
decide-all test (suc n) source target strategy (p ∷ ps) h =
    ground (arith, decide-all test n source target strategy ps h)

module _ (float : Float64) (config : Config float) where
  best_target_from_lem :
      (exclude : String) (ms : List (NodeMetrics float config)) (score : float.F) (best : String)
      → (best_target_from float config exclude ms score best ≡ best)
        ⊎ ((best_target_from float config exclude ms score best ≢ exclude)
            × (elem
                  (best_target_from float config exclude ms score best)
                  (map (λ m. m.node_name) ms)
                ≡ true))
  unfolding best_target_from elem
  best_target_from_lem exclude [] score best = inl refl
  best_target_from_lem exclude (m ∷ ms) score best =
      let next =
        calculate_score float config (record { cpu = m.cpu_percent; memory = m.memory_percent }) in
      ground (
        arith,
        best_target_from_lem exclude ms score best,
        best_target_from_lem exclude ms next m.node_name,
        eq_iff m.node_name exclude,
        str_eq_refl m.node_name,
      )

  -- The best target for the pods of a node is another node that has metrics, or no node at all.
  pub find_best_target_node_lem :
      (metrics : List (NodeMetrics float config)) (exclude : String)
      → (find_best_target_node float config metrics exclude ≡ "")
        ⊎ ((find_best_target_node float config metrics exclude ≢ exclude)
            × (elem
                  (find_best_target_node float config metrics exclude)
                  (map (λ m. m.node_name) metrics)
                ≡ true))
  unfolding find_best_target_node
  find_best_target_node_lem metrics exclude =
      best_target_from_lem exclude metrics (float.of_int (negsuc 0)) ""

  -- The pods that count for a node: those that run there outside the excluded namespaces.
  unfoldable pub counted : String → List Pod → ℕ
  counted node pods = length (
      keep
        (λ p.
          p.running
          && not (str_eq p.node_name "")
          && not (elem p.namespace config.excluded_namespaces)
          && str_eq p.node_name node)
        pods)

  count_pods-counted :
      (node : String) (pods : List Pod) (counts : List (String × ℕ))
      → lookup_or node 0 (count_pods float config pods counts)
        ≡ lookup_or node 0 counts + counted node pods
  unfolding counted count_pods keep lookup_or
  count_pods-counted node [] counts = omega arith
  count_pods-counted node (p ∷ ps) counts =
      let next = insert p.node_name (suc (lookup_or p.node_name 0 counts)) counts in
      ground (
        arith,
        count_pods-counted node ps counts,
        count_pods-counted node ps next,
        lookup-insert p.node_name node (suc (lookup_or p.node_name 0 counts)) counts,
        eq_iff p.node_name node,
      )

  worker_counts-lookup :
      (counts : List (String × ℕ)) (ms : List (NodeMetrics float config))
      → all (λ w. lookup_or w.0 0 counts == w.1) (worker_counts float config counts ms) ≡ true
  unfolding worker_counts all lookup_or
  worker_counts-lookup counts [] = refl
  worker_counts-lookup counts (m ∷ ms) = elim (Option-cases (lookup m.node_name counts)) [
    | inl e ↦ ground (arith, e, worker_counts-lookup counts ms)
    | inr (n, e) ↦ ground (arith, e, worker_counts-lookup counts ms, ==_iff n n)
  ]

  all-counted :
      (pods : List Pod) (ws : List (String × ℕ))
      → all (λ w. lookup_or w.0 0 (count_pods float config pods []) == w.1) ws ≡ true
      → all (λ w. counted w.0 pods == w.1) ws ≡ true
  unfolding all lookup lookup_or
  all-counted pods [] h = refl
  all-counted pods (w ∷ ws) h = ground (arith, all-counted pods ws, count_pods-counted w.0 pods [])

  sorted_counted :
      (pods : List Pod) (metrics : List (NodeMetrics float config))
      → all
          (λ w. counted w.0 pods == w.1)
          (sort_slice
            (λ m n. ltb n.1 m.1)
            (worker_counts float config (count_pods float config pods []) metrics))
        ≡ true
  sorted_counted pods metrics =
      let workers = worker_counts float config (count_pods float config pods []) metrics in
      all-sort_slice (λ w. counted w.0 pods == w.1) (λ m n. ltb n.1 m.1) workers
      ∙ (all-counted pods workers (worker_counts-lookup (count_pods float config pods []) metrics))

  -- Pods are moved for their number only from a node to one that has at least twenty fewer, where the
  -- pods of a node are those that run there outside the excluded namespaces.
  pub pod_count_gap :
      (now : ℤ) (history : History) (pods : List Pod) (metrics : List (NodeMetrics float config))
      → all
          (λ d.
            leb
              (counted d.target_node pods + default_pod_count_imbalance_threshold)
              (counted d.source_node pods))
          (analyze_pod_count_imbalance float config now history (some pods) metrics)
        ≡ true
  unfolding analyze_pod_count_imbalance all lookup_or
  pod_count_gap now history pods metrics =
      let workers = worker_counts float config (count_pods float config pods []) metrics in
      let right = λ (w : String × ℕ). counted w.0 pods == w.1 in
      let fewer = λ (source target : String).
        leb (counted target pods + default_pod_count_imbalance_threshold) (counted source pods) in
      elim (List-cases (sort_slice (λ m n. ltb n.1 m.1) workers)) [
        | inl e ↦ ground (arith, e)
        | inr (h, r, e) ↦
            let known = sym (ap (all right) e) ∙ sorted_counted pods metrics in
            let low = all-last_of right h r known in
            ground (
              arith,
              e,
              known,
              low,
              decide-all fewer 3 h.0 (last_of h r).0 pod_count_balancing
                  (find_migratable_pods float config now history (some pods) h.0),
            )
      ]
