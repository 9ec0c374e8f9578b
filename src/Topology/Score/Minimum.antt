-- ===== src/Topology/Score/Minimum.antt =====
-- The minimum that pkg/noderesourcetopology/score.go takes over the NUMA nodes.
use plugins_improve.Prelude.{
  ℕ, ltb, ◌==◌, pos, length, ◌&&◌, none, some, List, [], ◌∷◌, map, ◌≡◌, refl, sym, ap, arith, eqb_ℤ,
  ltb_ℤ, not, ◌||◌, all, All, if◌then◌else◌,
}
use plugins_improve.Quantities.{QuantityApi, ResourceList}
use plugins_improve.Topology.Numa.{Helpers, NumaNode}
use plugins_improve.Topology.Strategies.{ResourceToWeightMap}
use plugins_improve.Topology.Score.{ScoreStrategy, min_score_from, score_for_each_numa_node}

-- The smaller of two scores that is not 0, which stands for no score.
unfoldable pub smaller : ℕ → ℕ → ℕ
smaller a b = if a == 0 then b else if b == 0 then a else if ltb b a then b else a

abbrev pub smallest : List ℕ → ℕ
smallest [] = 0
smallest (x ∷ xs) = smaller x (smallest xs)

smaller_assoc : (a b c : ℕ) → smaller (smaller a b) c ≡ smaller a (smaller b c)
unfolding smaller
smaller_assoc a b c = ground arith

smaller-zero : (a : ℕ) → smaller a 0 ≡ a
unfolding smaller
smaller-zero a = ground arith

zero-smaller : (a : ℕ) → smaller 0 a ≡ a
unfolding smaller
zero-smaller a = refl

next_minimum :
    (m x : ℕ)
    → (if eqb_ℤ (pos m) (pos 0) || (not (eqb_ℤ (pos x) (pos 0)) && ltb_ℤ (pos x) (pos m))
        then pos x
        else pos m)
      ≡ pos (smaller m x)
unfolding smaller
next_minimum m x = ground arith

module _ {api : QuantityApi} (helpers : Helpers api) (score : ScoreStrategy api.Q)
    (rw_map : ResourceToWeightMap) (requested : ResourceList api.Q)
    (score_of : ResourceList api.Q → ℕ) where
  open api use {Q}

  min_score_step :
      (size : ℕ) (n : NumaNode Q) (ns : List (NumaNode Q)) (m : ℕ)
      → score requested n.resources rw_map ≡ some (pos (score_of n.resources))
      → min_score_from helpers score rw_map requested size (n ∷ ns) (pos m) ≡ (
          if ltb n.numa_id size
          then min_score_from helpers score rw_map requested size ns
              (pos (smaller m (score_of n.resources)))
          else none)
  unfolding min_score_from
  min_score_step size n ns m h = ground (
    arith,
    h,
    ap (min_score_from helpers score rw_map requested size ns)
        (next_minimum m (score_of n.resources)),
  )

  min_score_from_lem :
      (size : ℕ) (nodes : List (NumaNode Q)) (m : ℕ)
      → All (λ n. score requested n.resources rw_map ≡ some (pos (score_of n.resources))) nodes
      → min_score_from helpers score rw_map requested size nodes (pos m) ≡ (
          if all (λ n. ltb n.numa_id size) nodes
          then some (pos (smaller m (smallest (map (λ n. score_of n.resources) nodes))))
          else none)
  unfolding min_score_from all
  min_score_from_lem size [] m h = ap (λ k. some (pos k)) (sym (smaller-zero m))
  min_score_from_lem size (n ∷ ns) m h =
      let ih = min_score_from_lem size ns (smaller m (score_of n.resources)) h.1 in
      let tail = smallest (map (λ k. score_of k.resources) ns) in
      ground
        (arith, min_score_step size n ns m h.0, ih, smaller_assoc m (score_of n.resources) tail)

  -- Where the strategy gives every NUMA node a score, the score of the node is the smallest that is not
  -- 0, or 0; but it panics as soon as a NUMA id is not below the number of NUMA nodes, as an offline
  -- NUMA node makes it.
  pub score_for_each_numa_node_lem :
      (nodes : List (NumaNode Q))
      → All (λ n. score requested n.resources rw_map ≡ some (pos (score_of n.resources))) nodes
      → score_for_each_numa_node helpers requested nodes score rw_map ≡ (
          if all (λ n. ltb n.numa_id (length nodes)) nodes
          then some (pos (smallest (map (λ n. score_of n.resources) nodes)))
          else none)
  unfolding score_for_each_numa_node
  score_for_each_numa_node_lem nodes h =
      rw zero-smaller at (min_score_from_lem (length nodes) nodes 0 h)
