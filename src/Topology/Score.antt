-- ===== src/Topology/Score.antt =====
-- pkg/noderesourcetopology/score.go: the score of a node from the scores of its NUMA nodes. `none` is
-- a panic.
pub mod Minimum
use plugins_improve.Prelude.{
  ℕ, ℤ, pos, ltb_ℤ, eqb_ℤ, ltb, length, Bool, true, false, not, ◌&&◌, ◌||◌, Option, none, some,
  List, [], ◌∷◌, ◌++◌, String, str_eq, if◌then◌else◌,
}
use plugins_improve.Quantities.{QuantityApi, ResourceList, get_pod_effective_request}
use plugins_improve.Cache.Store.{Zone, Nrt, Pod}
use plugins_improve.Cache.Interface.{TopologyCache}
use plugins_improve.Topology.Config.{KubeletNames, TopologyManager, topology_manager_from_nrt}
use plugins_improve.Topology.Numa.{Helpers, NumaNode, create_numa_node_list, is_guaranteed}
use plugins_improve.Topology.Strategies.{ResourceToWeightMap, max_node_score}

abbrev pub ScoreStrategy : Type 0 → Type 0
ScoreStrategy Q = ResourceList Q → ResourceList Q → ResourceToWeightMap → Option ℤ

-- The scoring strategies of the configuration.
pub data ScoringStrategyType : Type 0 where
  most_allocated least_allocated balanced_allocation least_numa_nodes : ScoringStrategyType

module _ {api : QuantityApi} (helpers : Helpers api) where
  open api use {Q}

  -- The loop; `size` is the length of the array that is written at the NUMA id.
  unfoldable pub min_score_from :
      ScoreStrategy Q → ResourceToWeightMap → ResourceList Q → ℕ → List (NumaNode Q) → ℤ → Option ℤ
  min_score_from score rw_map requested size [] min_score = some min_score
  min_score_from score rw_map requested size (numa ∷ rest) min_score =
      elim (score requested numa.resources rw_map) [
        | none ↦ none
        | some numa_score ↦ elim (ltb numa.numa_id size) [
          | false ↦ none
          | true ↦ min_score_from score rw_map requested size rest (
              if eqb_ℤ min_score (pos 0)
                || (not (eqb_ℤ numa_score (pos 0)) && ltb_ℤ numa_score min_score)
              then numa_score
              else min_score)
        ]
      ]

  unfoldable pub score_for_each_numa_node :
      ResourceList Q → List (NumaNode Q) → ScoreStrategy Q → ResourceToWeightMap → Option ℤ
  unfolding min_score_from
  score_for_each_numa_node requested numa_list score rw_map =
      min_score_from score rw_map requested (length numa_list) numa_list (pos 0)

  unfoldable pub pod_scope_score :
      ScoreStrategy Q → ResourceToWeightMap → Pod Q → List (Zone Q) → Option ℤ
  pod_scope_score score rw_map pod zones = elim (create_numa_node_list helpers zones) [
    | none ↦ none
    | some nodes ↦
        score_for_each_numa_node (get_pod_effective_request api pod.spec) nodes score rw_map
  ]

  unfoldable pub container_scores :
      ScoreStrategy Q
      → ResourceToWeightMap
      → List (NumaNode Q)
      → List (ResourceList Q)
      → Option (List ℤ)
  container_scores score rw_map nodes [] = some []
  container_scores score rw_map nodes (c ∷ cs) =
      elim (score_for_each_numa_node c nodes score rw_map) [
        | none ↦ none
        | some s ↦ elim (container_scores score rw_map nodes cs) [
          | none ↦ none
          | some ss ↦ some (s ∷ ss)
        ]
      ]

  -- `mean` is gonum's, of the scores as floats, cut off to an integer.
  unfoldable pub container_scope_score :
      (List ℤ → ℤ) → ScoreStrategy Q → ResourceToWeightMap → Pod Q → List (Zone Q) → Option ℤ
  unfolding container_scores
  container_scope_score mean score rw_map pod zones = elim (create_numa_node_list helpers zones) [
    | none ↦ none
    | some nodes ↦
        elim (container_scores score rw_map nodes
          (pod.spec.init_containers ++ pod.spec.containers)) [
            | none ↦ none
            | some scores ↦ some (mean scores)
          ]
  ]

  -- What the plugin holds, with the two scorers of least_numa.go.
  module _ (mean : List ℤ → ℤ) (score : ScoreStrategy Q) (rw_map : ResourceToWeightMap)
      (least_numa_pod least_numa_container : Pod Q → List (Zone Q) → Option ℤ)
      (strategy : ScoringStrategyType) (k : KubeletNames) where
    abbrev is_least_numa : ScoringStrategyType → Bool
    is_least_numa least_numa_nodes = true
    is_least_numa most_allocated = false
    is_least_numa least_allocated = false
    is_least_numa balanced_allocation = false

    unfoldable pub scoring_handler_from_topology_manager_config :
        TopologyManager → Option (Pod Q → List (Zone Q) → Option ℤ)
    scoring_handler_from_topology_manager_config conf =
        if is_least_numa strategy
        then if str_eq conf.scope k.pod_scope
          then some least_numa_pod
          else if str_eq conf.scope k.container_scope
          then some least_numa_container
          else none
        else if not (str_eq conf.policy k.single_numa_node_policy)
        then none
        else if str_eq conf.scope k.pod_scope
        then some (pod_scope_score score rw_map)
        else if str_eq conf.scope k.container_scope
        then some (container_scope_score mean score rw_map)
        else none

    -- The result is always a success.
    unfoldable pub score_node : (cache : TopologyCache Q) → Pod Q → String → cache.S → Option ℤ
    unfolding scoring_handler_from_topology_manager_config
    score_node cache pod node s =
        if not (is_guaranteed (helpers.get_pod_qos pod))
        then some max_node_score
        else let (topology, info) = cache.get_cached_nrt_copy node s in
          if not info.fresh then some (pos 0) else elim topology [
            | none ↦ some (pos 0)
            | some nrt ↦
                elim (scoring_handler_from_topology_manager_config
                  (topology_manager_from_nrt k nrt)) [
                    | none ↦ some (pos 0)
                    | some handler ↦ handler pod nrt.zones
                  ]
          ]
