-- ===== src/Topology/Least/Fewest.antt =====
-- numaNodesRequired of pkg/noderesourcetopology/least_numa.go finds the fewest NUMA nodes.
use plugins_improve.Prelude.{
  ℕ, suc, ◌≤◌, ◌<◌, Bool, true, false, not, length, Option, none, some, List, ◌≡◌, refl, arith, all,
}
use plugins_improve.Quantities.{QuantityApi, ResourceList}
use plugins_improve.Queue.Qos.{PodQosClass}
use plugins_improve.Topology.Numa.{Helpers, NumaNode}
use plugins_improve.Topology.Fit.{BitMaskApi}
use native.Mathlib.Decide.{dec_lt}
use plugins_improve.Topology.Least.Sets.{
  Increasing, Lawful, length-Increasing, all-Among, suffices, has_id, has_bit-bits_of,
  combination_fits-suffices,
}
use plugins_improve.Topology.Least.{Distances, Combinations, bits_of, numa_nodes_required}
use plugins_improve.Topology.Least.Loop.{fit, near, NoneFits, Outcome, combination_from_lem}

module _ {api : QuantityApi} (helpers : Helpers api) (mask : BitMaskApi) (dist : Distances)
    (combinations : Combinations) (qos : PodQosClass) (nodes : List (NumaNode api.Q))
    (requests : ResourceList api.Q) where
  -- What numaNodesRequired promises of its result, over the sets of indices of the nodes.
  abbrev pub FewestNodes : Option (mask.B × Bool) → Type 0
  FewestNodes none =
      (c : List ℕ)
      → Increasing 0 (length nodes) c
      → 0 < length c
      → suffices helpers mask dist combinations qos nodes requests c ≡ false
  FewestNodes (some (numa_nodes, is_min)) =
      (c : List ℕ) × Increasing 0 (length nodes) c
      × (0 < length c)
      × (suffices helpers mask dist combinations qos nodes requests c ≡ true)
      × ((id : ℕ)
          → mask.has_bit numa_nodes id
            ≡ has_id helpers mask dist combinations qos nodes requests c id)
      × ((d : List ℕ)
          → Increasing 0 (length nodes) d
          → 0 < length d
          → suffices helpers mask dist combinations qos nodes requests d ≡ true
          → length c ≤ length d)

  module _ (lawful : Lawful combinations) where
    NoneFits-suffices :
        (last : ℕ) (d : List ℕ)
        → NoneFits helpers mask dist combinations qos nodes requests 1 last
        → Increasing 0 (length nodes) d
        → 0 < length d
        → length d < last
        → suffices helpers mask dist combinations qos nodes requests d ≡ false
    NoneFits-suffices last d none_fits i k l =
        let among = lawful.complete (length nodes) (length d) d i refl in
        let misses =
          all-Among (λ c. not (fit helpers mask dist combinations qos nodes requests c))
            (combinations (length nodes) (length d)) d among
            (none_fits (length d) (omega arith) l) in
        ground (
          arith,
          misses,
          combination_fits-suffices helpers mask dist combinations qos nodes requests d,
        )

    Smallest-least :
        (k : ℕ) (c d : List ℕ)
        → length c ≡ k
        → NoneFits helpers mask dist combinations qos nodes requests 1 k
        → Increasing 0 (length nodes) d
        → 0 < length d
        → suffices helpers mask dist combinations qos nodes requests d ≡ true
        → length c ≤ length d
    Smallest-least k c d e none_fits i l s = elim (dec_lt (length d) k) [
      | yes m ↦ absurd (ground (arith, s, NoneFits-suffices k d none_fits i l m))
      | no m ↦ omega (arith, e, m)
    ]

    -- A combination's nodes, as the result of the loop.
    fewest_of_Outcome :
        (r : Option (List ℕ × Bool))
        → Outcome helpers mask dist combinations qos nodes requests 1 (suc (length nodes)) r
        → FewestNodes (elim r [
          | none ↦ none
          | some (c, is_min) ↦
              some (bits_of helpers mask dist combinations nodes c mask.empty, is_min)
        ])
    fewest_of_Outcome none h = λ c i k.
        NoneFits-suffices (suc (length nodes)) c h i k
          (omega (arith, length-Increasing c 0 (length nodes) i (omega arith)))
    fewest_of_Outcome (some (c, b)) (k, first, last, among, fits, none_fits) =
        let (i, size) = lawful.sound (length nodes) k c among in
        (
          c,
          i,
          omega (arith, size, first),
          ground (
            arith,
            fits,
            combination_fits-suffices helpers mask dist combinations qos nodes requests c,
          ),
          λ id. ground (
            arith,
            mask.has_bit-empty id,
            has_bit-bits_of helpers mask dist combinations qos nodes requests c mask.empty id,
          ),
          λ d j l s. Smallest-least k c d size none_fits j l s,
        )

  -- Let the combinations be the sets of so many indices of the NUMA nodes, and the average distance of
  -- each be below the bound of 256 that the search for the best one starts from. With no result, no
  -- set of NUMA nodes that is not empty suffices for the requests: has all of the resources on each
  -- node, and enough of each in the sum. With a result, the mask has just the ids below 64 of a set
  -- of NUMA nodes that suffices, and no smaller set that is not empty suffices.
  pub numa_nodes_required_lem :
      Lawful combinations
      → ((k : ℕ)
          → all
              (near helpers mask dist combinations qos nodes requests)
              (combinations (length nodes) k)
            ≡ true)
      → FewestNodes (numa_nodes_required helpers mask dist combinations qos nodes requests)
  unfolding numa_nodes_required
  numa_nodes_required_lem lawful near_all = fewest_of_Outcome lawful _ (
      combination_from_lem helpers mask dist combinations qos nodes requests near_all (length nodes)
        1 (suc (length nodes)) (ground arith))
