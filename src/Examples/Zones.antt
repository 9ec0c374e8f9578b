-- ===== src/Examples/Zones.antt =====
-- The theorems on the NUMA zones of pkg/noderesourcetopology, for a node of two zones.
use plugins_improve.Prelude.{
  ℕ, zero, suc, ℤ, pos, negsuc, add64, wrap64, ◌+ℤ◌, ◌≡◌, refl, inr, arith, true, none, some, [],
  ◌∷◌, lookup, lookup_or, insert, has, keep, all,
}
use plugins_improve.Quantities.{ResourceList}
use plugins_improve.Queue.Qos.{guaranteed}
use plugins_improve.Topology.Numa.{
  cost_at, set_cost, create_numa_node_list, extract_costs, extract_resources,
  is_host_level_resource, is_numa_affine_resource, is_resource_set_suitable,
}
use plugins_improve.Topology.Numa.Listing.{create_numa_node_list_lem}
use plugins_improve.Topology.Fit.{resources_available_in_any_numa_nodes}
use plugins_improve.Topology.Fit.Lowest.{resources_available_in_any_numa_nodes_lem}
use plugins_improve.Topology.Strategies.{
  weight, least_allocated_score_strategy, most_allocated_score_strategy,
}
use plugins_improve.Topology.Strategies.Bounds.{InRange, strategies_bounded}
use plugins_improve.Topology.Score.{ScoreStrategy, score_for_each_numa_node}
use plugins_improve.Topology.Score.Minimum.{smaller, score_for_each_numa_node_lem}
use plugins_improve.Topology.Least.{nodes_avg_distance, numa_nodes_required}
use plugins_improve.Topology.Least.Loop.{near}
use plugins_improve.Topology.Least.Fewest.{FewestNodes, numa_nodes_required_lem}
use plugins_improve.Examples.Choices.{choose_from, choose, choose-Lawful}
use plugins_improve.Examples.Kubelet.{
  int_helpers, bits, int_distances, two_zones, two_nodes, big_node,
}

create_numa_node_list_lem_example : create_numa_node_list int_helpers two_zones ≡ some two_nodes
unfolding extract_resources extract_costs set_cost insert
create_numa_node_list_lem_example =
    create_numa_node_list_lem int_helpers two_zones ((refl, tt), (tt, tt))

abbrev request : ResourceList ℤ
request = ("cpu", pos 4) ∷ ("memory", pos 4) ∷ []

resources_available_in_any_numa_nodes_lem_example :
    resources_available_in_any_numa_nodes int_helpers bits two_nodes request guaranteed
      big_node.allocatable
    ≡ some (1, true)
unfolding keep has lookup is_resource_set_suitable is_host_level_resource is_numa_affine_resource
    all
resources_available_in_any_numa_nodes_lem_example =
    resources_available_in_any_numa_nodes_lem int_helpers bits guaranteed two_nodes
      big_node.allocatable request

abbrev four_cpus : ResourceList ℤ
four_cpus = ("cpu", pos 4) ∷ []

abbrev six_cpus : ResourceList ℤ
six_cpus = ("cpu", pos 6) ∷ []

strategies_bounded_example :
    InRange int_helpers (least_allocated_score_strategy int_helpers four_cpus six_cpus [])
    × InRange int_helpers (most_allocated_score_strategy int_helpers four_cpus six_cpus [])
unfolding lookup_or lookup weight
strategies_bounded_example =
    strategies_bounded int_helpers [] six_cpus ("cpu", pos 4) []
      ((4, 6, refl, refl, ground arith, ground arith, inr (ground arith), inr (ground arith)), tt)
      (ground arith)

abbrev cpu_count : ResourceList ℤ → ℕ
cpu_count l = elim (lookup "cpu" l) [ none ↦ 0 | some (pos n) ↦ n | some (negsuc n) ↦ 0 ]

abbrev count_cpus : ScoreStrategy ℤ
count_cpus requested available rw_map = some (pos (cpu_count available))

score_for_each_numa_node_lem_example :
    score_for_each_numa_node int_helpers request two_nodes count_cpus [] ≡ some (pos 2)
unfolding all smaller lookup
score_for_each_numa_node_lem_example =
    score_for_each_numa_node_lem int_helpers count_cpus [] request cpu_count two_nodes
      (refl, (refl, tt))

all-near :
    (k : ℕ)
    → all (near int_helpers bits int_distances choose guaranteed two_nodes request) (choose 2 k)
      ≡ true
unfolding choose_from all nodes_avg_distance add64 wrap64 ◌+ℤ◌ cost_at
all-near zero = refl
all-near (suc zero) = refl
all-near (suc (suc zero)) = refl
all-near (suc (suc (suc k))) = refl

numa_nodes_required_lem_example :
    FewestNodes int_helpers bits int_distances choose guaranteed two_nodes request
      (numa_nodes_required int_helpers bits int_distances choose guaranteed two_nodes request)
numa_nodes_required_lem_example =
    numa_nodes_required_lem int_helpers bits int_distances choose guaranteed two_nodes request
      choose-Lawful all-near
