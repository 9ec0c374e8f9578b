-- ===== src/Topology/Least/Loop.antt =====
-- The loop over the sizes in numaNodesRequired of pkg/noderesourcetopology/least_numa.go.
use plugins_improve.Prelude.{
  ℕ, zero, suc, ◌+◌, ◌≤◌, ◌<◌, Bool, true, not, ◌==◌, length, Option, none, some, List, [], ◌∷◌,
  ◌≡◌, ◌≢◌, ◌⊎◌, inl, inr, refl, arith, all, Bool-cases,
}
use plugins_improve.Quantities.{QuantityApi, ResourceList}
use plugins_improve.Queue.Qos.{PodQosClass}
use plugins_improve.Topology.Numa.{Helpers, NumaNode}
use plugins_improve.Topology.Fit.{BitMaskApi}
use plugins_improve.Topology.Least.Sets.{Among}
use plugins_improve.Topology.Least.{
  Distances, Combinations, nodes_avg_distance, combination_fits, find_from,
  find_suitable_combination, combination_from,
}

module _ {api : QuantityApi} (helpers : Helpers api) (mask : BitMaskApi) (dist : Distances)
    (combinations : Combinations) (qos : PodQosClass) (nodes : List (NumaNode api.Q))
    (requests : ResourceList api.Q) where
  open dist use {D, lt, over_max}

  abbrev pub fit : List ℕ → Bool
  fit c = combination_fits helpers mask dist combinations qos nodes requests c

  abbrev pub near : List ℕ → Bool
  near c = lt (nodes_avg_distance helpers mask dist combinations nodes c) over_max

  find_from-best :
      (min_avg min_distance : D) (cs : List (List ℕ)) (best : List ℕ)
      → (find_from helpers mask dist combinations qos nodes requests min_avg cs
          (some best)
          min_distance).0
        ≢ none
  unfolding find_from
  find_from-best min_avg min_distance [] best = ground arith
  find_from-best min_avg min_distance (c ∷ cs) best = ground (
    arith,
    find_from-best min_avg min_distance cs best,
    find_from-best min_avg (nodes_avg_distance helpers mask dist combinations nodes c) cs c,
  )

  find_from-none :
      (min_avg : D) (cs : List (List ℕ))
      → all near cs ≡ true
      → (find_from helpers mask dist combinations qos nodes requests min_avg cs none over_max).0
        ≡ none
      → all (λ c. not (fit c)) cs ≡ true
  unfolding find_from all
  find_from-none min_avg [] h e = refl
  find_from-none min_avg (c ∷ cs) h e = ground (
    arith,
    find_from-none min_avg cs,
    find_from-best min_avg (nodes_avg_distance helpers mask dist combinations nodes c) cs c,
  )

  -- A combination that was taken earlier, or one of those that are left, and it fits.
  abbrev Taken : Option (List ℕ) → List (List ℕ) → List ℕ → Type 0
  Taken best cs c = (best ≡ some c) ⊎ (Among c cs × (fit c ≡ true))

  Taken-skip :
      (best : Option (List ℕ)) (d : List ℕ) (ds : List (List ℕ)) (c : List ℕ)
      → Taken best ds c
      → Taken best (d ∷ ds) c
  Taken-skip best d ds c (inl e) = inl e
  Taken-skip best d ds c (inr (m, f)) = inr (inr m, f)

  Taken-here :
      (best : Option (List ℕ)) (d : List ℕ) (ds : List (List ℕ)) (c : List ℕ)
      → fit d ≡ true
      → Taken (some d) ds c
      → Taken best (d ∷ ds) c
  Taken-here best d ds c e (inl eq) = ground (arith)
  Taken-here best d ds c e (inr (m, f)) = inr (inr m, f)

  find_from-some :
      (min_avg min_distance : D) (cs : List (List ℕ)) (best : Option (List ℕ)) (c : List ℕ)
      → (find_from helpers mask dist combinations qos nodes requests min_avg cs best min_distance).0
        ≡ some c
      → Taken best cs c
  unfolding find_from
  find_from-some min_avg min_distance [] best c e = inl e
  find_from-some min_avg min_distance (d ∷ ds) best c e = elim (Bool-cases (fit d)) [
    | inl f ↦ ground (
      arith,
      f,
      find_from-some min_avg min_distance ds best c,
      find_from-some min_avg (nodes_avg_distance helpers mask dist combinations nodes d) ds (some d)
          c,
      Taken-skip best d ds c,
      Taken-here best d ds c,
    )
    | inr f ↦
        ground (arith, f, find_from-some min_avg min_distance ds best c, Taken-skip best d ds c)
  ]

  -- No combination of the sizes from a first to below a last fits.
  abbrev pub NoneFits : ℕ → ℕ → Type 0
  NoneFits first last =
      (j : ℕ) → first ≤ j → j < last → all (λ c. not (fit c)) (combinations (length nodes) j) ≡ true

  -- The combination is one of the first size with a combination that fits, and it fits.
  abbrev pub Smallest : ℕ → ℕ → List ℕ → Type 0
  Smallest first last c =
      (k : ℕ) × (first ≤ k)
      × (k < last)
      × Among c (combinations (length nodes) k)
      × (fit c ≡ true)
      × NoneFits first k

  -- What a search over the sizes promises.
  abbrev pub Outcome : ℕ → ℕ → Option (List ℕ × Bool) → Type 0
  Outcome first last none = NoneFits first last
  Outcome first last (some (c, is_min)) = Smallest first last c

  NoneFits-suc :
      (first last : ℕ)
      → all (λ c. not (fit c)) (combinations (length nodes) first) ≡ true
      → NoneFits (suc first) last
      → NoneFits first last
  NoneFits-suc first last e later j l u = elim (Bool-cases (first == j)) [
    | inl same ↦ ground (arith, same)
    | inr other ↦ later j (ground (arith, other)) u
  ]

  Smallest-suc :
      (first last : ℕ) (c : List ℕ)
      → all (λ d. not (fit d)) (combinations (length nodes) first) ≡ true
      → Smallest (suc first) last c
      → Smallest first last c
  Smallest-suc first last c e (k, l, u, m, f, before) =
      (k, ground arith, u, m, f, NoneFits-suc first k e before)

  abbrev found : ℕ → Option (List ℕ) × Bool
  found k =
      find_suitable_combination helpers mask dist combinations qos nodes requests
        (combinations (length nodes) k)

  found-none :
      (k : ℕ)
      → all near (combinations (length nodes) k) ≡ true
      → (found k).0 ≡ none
      → all (λ c. not (fit c)) (combinations (length nodes) k) ≡ true
  unfolding find_suitable_combination
  found-none k h e = find_from-none _ (combinations (length nodes) k) h e

  found-some :
      (k : ℕ) (c : List ℕ)
      → (found k).0 ≡ some c
      → Among c (combinations (length nodes) k) × (fit c ≡ true)
  unfolding find_suitable_combination
  found-some k c e = elim (find_from-some _ _ (combinations (length nodes) k) none c e) [
    | inl absent ↦ ground (arith, absent)
    | inr taken ↦ taken
  ]

  Outcome-step :
      (first last : ℕ) (r : Option (List ℕ)) (is_min : Bool) (rest : Option (List ℕ × Bool))
      → (r ≡ none → all (λ c. not (fit c)) (combinations (length nodes) first) ≡ true)
      → ((c : List ℕ) → r ≡ some c → Smallest first last c)
      → Outcome (suc first) last rest
      → Outcome first last (elim r [ none ↦ rest | some c ↦ some (c, is_min) ])
  Outcome-step first last (some c) is_min rest misses takes later = takes c refl
  Outcome-step first last none is_min none misses takes later =
      NoneFits-suc first last (misses refl) later
  Outcome-step first last none is_min (some (c, b)) misses takes later =
      Smallest-suc first last c (misses refl) later

  pub combination_from_lem :
      (near_all : (k : ℕ) → all near (combinations (length nodes) k) ≡ true)
      → (rounds size last : ℕ) → size + rounds ≡ last
      → Outcome size last
          (combination_from helpers mask dist combinations qos nodes requests rounds size)
  unfolding combination_from
  combination_from_lem near_all zero size last e = λ j l u. ground arith
  combination_from_lem near_all (suc rounds) size last e =
      Outcome-step size last (found size).0 (found size).1 _ (found-none size (near_all size))
        (λ c h. (
          size,
          ground arith,
          ground arith,
          (found-some size c h).0,
          (found-some size c h).1,
          λ j l u. ground arith,
        ))
        (combination_from_lem near_all rounds (suc size) last (ground arith))
