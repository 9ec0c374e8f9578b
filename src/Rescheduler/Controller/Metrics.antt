-- ===== src/Rescheduler/Controller/Metrics.antt =====
-- The measured usage of the nodes in pkg/rescheduler/controller.go. A report is the name of a node with
-- the milli value of its cpu and the value of its memory.
use plugins_improve.Prelude.{
  ℤ, Bool, false, ◌&&◌, ◌||◌, not, Option, none, some, List, [], ◌∷◌, map, String, str_eq, lookup,
  has, has-insert, insert, keep, refl, ◌≡◌, arith, if◌then◌else◌,
}
use plugins_improve.Rescheduler.Calculator.{Float64, Node, Config, calculate_usage_from_metrics}
use plugins_improve.Rescheduler.Controller.{NodeMetrics}

-- The map `nodeCapacity`: the nodes that can be scheduled on.
unfoldable pub node_capacity : List Node → List (String × Node) → List (String × Node)
node_capacity [] capacity = capacity
node_capacity (n ∷ ns) capacity =
    node_capacity ns (if n.unschedulable then capacity else insert n.name n capacity)

module _ (float : Float64) (config : Config float) where
  abbrev pub measured_node : String → ℤ × ℤ → Node → NodeMetrics float config
  measured_node name usage n =
      let percent = calculate_usage_from_metrics float usage (n.cpu_capacity, n.memory_capacity) in
      record { node_name = name; cpu_percent = percent.cpu; memory_percent = percent.memory }

  unfoldable pub metrics_from :
      List (String × Node) → List (String × (ℤ × ℤ)) → List (NodeMetrics float config)
  metrics_from capacity [] = []
  metrics_from capacity (report ∷ reports) =
      let rest = metrics_from capacity reports in
      elim (lookup report.0 capacity) [
        | none ↦ rest
        | some n ↦ measured_node report.0 report.1 n ∷ rest
      ]

  -- `none` where the reports or the nodes cannot be listed.
  unfoldable pub get_node_metrics :
      Option (List (String × (ℤ × ℤ)))
      → Option (List Node)
      → Option (List (NodeMetrics float config))
  unfolding metrics_from node_capacity
  get_node_metrics none nodes = none
  get_node_metrics (some reports) none = none
  get_node_metrics (some reports) (some nodes) =
      some (metrics_from (node_capacity nodes []) reports)

-- A node of the name that can be scheduled on.
unfoldable pub can_schedule : List Node → String → Bool
can_schedule [] name = false
can_schedule (n ∷ ns) name = not n.unschedulable && str_eq n.name name || can_schedule ns name

has-node_capacity :
    (nodes : List Node) (capacity : List (String × Node)) (name : String)
    → has name (node_capacity nodes capacity) ≡ (has name capacity || can_schedule nodes name)
unfolding node_capacity can_schedule
has-node_capacity [] capacity name = ground arith
has-node_capacity (n ∷ ns) capacity name = ground (
  arith,
  has-insert n.name name n capacity,
  has-node_capacity ns capacity name,
  has-node_capacity ns (insert n.name n capacity) name,
)

has-node_capacity_listed :
    (nodes : List Node) (name : String)
    → has name (node_capacity nodes []) ≡ can_schedule nodes name
unfolding has lookup
has-node_capacity_listed nodes name = has-node_capacity nodes [] name

module _ (float : Float64) (config : Config float) where
  abbrev pub names : List (NodeMetrics float config) → List String
  names = map (λ m. m.node_name)

  names-metrics_from :
      (nodes : List Node) (reports : List (String × (ℤ × ℤ)))
      → names (metrics_from float config (node_capacity nodes []) reports)
        ≡ keep (can_schedule nodes) (map (λ r. r.0) reports)
  unfolding metrics_from keep has
  names-metrics_from nodes [] = refl
  names-metrics_from nodes (report ∷ reports) =
      ground (arith, has-node_capacity_listed nodes report.0, names-metrics_from nodes reports)

  -- The usage is measured for the nodes that are reported and can be scheduled on, each as often as it
  -- is reported and in the order of the reports.
  pub get_node_metrics-names :
      (reports : List (String × (ℤ × ℤ))) (nodes : List Node)
      → (metrics : List (NodeMetrics float config)) × (get_node_metrics float config
            (some reports)
            (some nodes)
          ≡ some metrics)
        × (names metrics ≡ keep (can_schedule nodes) (map (λ r. r.0) reports))
  unfolding get_node_metrics
  get_node_metrics-names reports nodes = (
    metrics_from float config (node_capacity nodes []) reports,
    refl,
    names-metrics_from nodes reports,
  )
