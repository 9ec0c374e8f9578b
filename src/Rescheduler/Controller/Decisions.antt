-- ===== src/Rescheduler/Controller/Decisions.antt =====
-- What the analyses of pkg/rescheduler/controller.go decide.
use plugins_improve.Prelude.{
  ℕ, zero, suc, ℤ, ltb_ℤ, ltb, Bool, true, ◌≡◌, refl, arith, Option, none, some, List, [], ◌∷◌,
  ◌++◌, String, length, keep, all, all-append, all-sort_slice, sort_slice, List-cases, inl, inr,
}
use plugins_improve.Rescheduler.Calculator.{Float64, Pod, Node, Config}
use plugins_improve.Rescheduler.Migration.{
  History, Strategy, load_balancing, pod_count_balancing, resource_optimization, node_maintenance,
  Decision, is_migratable, find_migratable_pods,
}
use plugins_improve.Rescheduler.Controller.{
  decide, last_of, NodeMetrics, find_best_target_node, analyze_load_balance,
  analyze_pod_count_imbalance, analyze_resource_optimization, optimize_from,
  analyze_node_maintenance, maintain_from, analyze_and_decide, count_pods, worker_counts,
}

all-keep {ℓ} : {A : Type ℓ} (p : A → Bool) (xs : List A) → all p (keep p xs) ≡ true
unfolding all keep
all-keep p [] = refl
all-keep p (x ∷ xs) = ground (arith, all-keep p xs)

module _ (float : Float64) (config : Config float) (now : ℤ) (history : History) where
  abbrev pub may_move : Decision → Bool
  may_move d = is_migratable float config now history d.pod d.source_node

  find_migratable_pods-all :
      (pods : Option (List Pod)) (node : String)
      → all
          (λ p. is_migratable float config now history p node)
          (find_migratable_pods float config now history pods node)
        ≡ true
  unfolding find_migratable_pods all
  find_migratable_pods-all none node = refl
  find_migratable_pods-all (some pods) node = ground (
    arith,
    all-sort_slice (λ p. is_migratable float config now history p node)
        (λ p q. ltb_ℤ p.priority q.priority)
        (keep (λ p. is_migratable float config now history p node) pods),
    all-keep (λ p. is_migratable float config now history p node) pods,
  )

  decide-may_move :
      (n : ℕ) (source target : String) (strategy : Strategy) (pods : List Pod)
      → all (λ p. is_migratable float config now history p source) pods ≡ true
      → all may_move (decide n source target strategy pods) ≡ true
  unfolding decide all
  decide-may_move zero source target strategy pods h = refl
  decide-may_move (suc n) source target strategy [] h = refl
  decide-may_move (suc n) source target strategy (p ∷ ps) h =
      ground (arith, decide-may_move n source target strategy ps)

  decided :
      (n : ℕ) (source target : String) (strategy : Strategy) (pods : Option (List Pod))
      → all may_move (
          decide n source target strategy
            (find_migratable_pods float config now history pods source))
        ≡ true
  decided n source target strategy pods =
      decide-may_move n source target strategy
        (find_migratable_pods float config now history pods source)
        (find_migratable_pods-all pods source)

both {ℓ} :
    {A : Type ℓ} (p : A → Bool) (xs ys : List A)
    → all p xs ≡ true
    → all p ys ≡ true
    → all p (xs ++ ys) ≡ true
both p xs ys h k = ground (arith, all-append p xs ys)

module _ (float : Float64) (config : Config float) (now : ℤ) (history : History) where
  load_balance-may_move :
      (pods : Option (List Pod)) (metrics : List (NodeMetrics float config))
      → all
          (may_move float config now history)
          (analyze_load_balance float config now history pods metrics)
        ≡ true
  unfolding analyze_load_balance all
  load_balance-may_move pods metrics =
      elim (List-cases (sort_slice (λ m n. float.less n.cpu_percent m.cpu_percent) metrics)) [
        | inl e ↦ ground (arith, e)
        | inr (h, r, e) ↦ ground (
          arith,
          e,
          decided float config now history 2 h.node_name (last_of h r).node_name load_balancing
              pods,
        )
      ]

  pod_count-may_move :
      (pods : Option (List Pod)) (metrics : List (NodeMetrics float config))
      → all
          (may_move float config now history)
          (analyze_pod_count_imbalance float config now history pods metrics)
        ≡ true
  unfolding analyze_pod_count_imbalance all
  pod_count-may_move none metrics = refl
  pod_count-may_move (some pods) metrics =
      elim (List-cases (
        sort_slice (λ m n. ltb n.1 m.1)
          (worker_counts float config (count_pods float config pods []) metrics))) [
            | inl e ↦ ground (arith, e)
            | inr (h, r, e) ↦ ground (
              arith,
              e,
              decided float config now history 3 h.0 (last_of h r).0 pod_count_balancing
                  (some pods),
            )
          ]

  optimize-may_move :
      (pods : Option (List Pod)) (metrics ms : List (NodeMetrics float config))
      → all
          (may_move float config now history)
          (optimize_from float config now history pods metrics ms)
        ≡ true
  unfolding optimize_from all
  optimize-may_move pods metrics [] = refl
  optimize-may_move pods metrics (m ∷ ms) = ground (
    arith,
    optimize-may_move pods metrics ms,
    decided float config now history 1 m.node_name
        (find_best_target_node float config metrics m.node_name) resource_optimization pods,
  )

  maintain-may_move :
      (pods : Option (List Pod)) (metrics : List (NodeMetrics float config)) (nodes : List Node)
      → all
          (may_move float config now history)
          (maintain_from float config now history pods metrics nodes)
        ≡ true
  unfolding maintain_from all
  maintain-may_move pods metrics [] = refl
  maintain-may_move pods metrics (n ∷ ns) =
      let candidates = find_migratable_pods float config now history pods n.name in
      let target = find_best_target_node float config metrics n.name in
      ground (
        arith,
        maintain-may_move pods metrics ns,
        decided float config now history (length candidates) n.name target node_maintenance pods,
        all-append (may_move float config now history)
            (decide (length candidates) n.name target node_maintenance candidates)
            (maintain_from float config now history pods metrics ns),
      )

  maintenance-may_move :
      (pods : Option (List Pod)) (nodes : Option (List Node))
      (metrics : List (NodeMetrics float config))
      → all
          (may_move float config now history)
          (analyze_node_maintenance float config now history pods nodes metrics)
        ≡ true
  unfolding analyze_node_maintenance all
  maintenance-may_move pods none metrics = refl
  maintenance-may_move pods (some nodes) metrics = maintain-may_move pods metrics nodes

  -- Every pod that is to be moved, for whichever reason, may be moved from the node that the decision
  -- names: it runs there, its namespace is not excluded, no daemon set owns it, it is not static and
  -- it was not evicted lately.
  pub analyze_and_decide-may_move :
      (pods : Option (List Pod)) (nodes : Option (List Node))
      (metrics : List (NodeMetrics float config))
      → all
          (may_move float config now history)
          (analyze_and_decide float config now history pods nodes metrics)
        ≡ true
  unfolding analyze_and_decide analyze_resource_optimization
  analyze_and_decide-may_move pods nodes metrics =
      let test = may_move float config now history in
      let balance = analyze_load_balance float config now history pods metrics in
      let count = analyze_pod_count_imbalance float config now history pods metrics in
      let optimize = analyze_resource_optimization float config now history pods metrics in
      let maintain = analyze_node_maintenance float config now history pods nodes metrics in
      both test (balance ++ count ++ optimize) maintain
        (both test (balance ++ count) optimize
          (both test balance count (load_balance-may_move pods metrics)
            (pod_count-may_move pods metrics))
          (optimize-may_move pods metrics metrics))
        (maintenance-may_move pods nodes metrics)
