-- ===== src/Network/Passes/Counts.antt =====
-- What the two passes of pkg/networkaware/networkoverhead/networkoverhead.go compute, against a list
-- of the pairs that they visit.
use plugins_improve.Prelude.{
  ℕ, suc, ◌+◌, ◌*◌, ◌^◌, ◌≤◌, ◌<◌, ℤ, pos, ◌≡◌, true, false, ◌⊎◌, inl, inr, Option, none, some,
  List, [], ◌∷◌, ◌++◌, String, arith, str_eq, ◌≤ℤ◌, ◌<ℤ◌, length, add64, wrap64, ◌+ℤ◌, Bool-cases,
  Option-cases,
}
use plugins_improve.Network.Types.{ScheduledInfo, DependenciesInfo, Node, Api}
use plugins_improve.Network.Costs.{CostMap, max_cost}
use plugins_improve.Network.Passes.{
  Verdict, met, unmet, unknown, judge, price, Checked, counted, failed, check_pod, check_from,
  check_max_network_cost_requirements,
}

pub add64_pos : (n k : ℕ) → n + k < 2 ^ 63 → add64 (pos n) (pos k) ≡ pos (n + k)
unfolding add64 wrap64 ◌+ℤ◌
add64_pos n k h = ground arith

pub count_met : List Verdict → ℕ
count_met [] = 0
count_met (met ∷ vs) = suc (count_met vs)
count_met (_ ∷ vs) = count_met vs

pub count_unmet : List Verdict → ℕ
count_unmet [] = 0
count_unmet (unmet ∷ vs) = suc (count_unmet vs)
count_unmet (_ ∷ vs) = count_unmet vs

module _ (api : Api) (get_node : String → Option Node) (region zone : String)
    (costs : CostMap) where
  -- One pair of a scheduled pod and a dependency on its workload.
  abbrev pub pair_verdict : String → ScheduledInfo → DependenciesInfo → Option Verdict
  pair_verdict node_name p d = elim (str_eq p.hostname node_name) [
    | true ↦ some met
    | false ↦ elim (get_node p.hostname) [
      | none ↦ none
      | some n ↦ some (judge api get_node region zone costs n d.max_network_cost)
    ]
  ]

  -- The verdicts of all pairs in order, `none` where a node is not in the snapshot.
  pub verdicts_pod : String → ScheduledInfo → List DependenciesInfo → Option (List Verdict)
  verdicts_pod node_name p [] = some []
  verdicts_pod node_name p (d ∷ ds) = elim (str_eq p.selector d.selector) [
    | false ↦ verdicts_pod node_name p ds
    | true ↦ elim (pair_verdict node_name p d) [
      | none ↦ none
      | some v ↦ elim (verdicts_pod node_name p ds) [ none ↦ none | some vs ↦ some (v ∷ vs) ]
    ]
  ]

  pub verdicts : String → List ScheduledInfo → List DependenciesInfo → Option (List Verdict)
  verdicts node_name [] ds = some []
  verdicts node_name (p ∷ ps) ds = elim (str_eq p.hostname "") [
    | true ↦ verdicts node_name ps ds
    | false ↦ elim (verdicts_pod node_name p ds) [
      | none ↦ none
      | some vs ↦ elim (verdicts node_name ps ds) [ none ↦ none | some ws ↦ some (vs ++ ws) ]
    ]
  ]

-- The counters of a pass that began at s and v, against the verdicts of the pairs that it visited.
abbrev pub Counts : Checked → Option (List Verdict) → ℕ → ℕ → Type 0
Counts (counted a b) (some vs) s v = (a ≡ pos (s + count_met vs)) × (b ≡ pos (v + count_unmet vs))
Counts (counted a b) none s v = ⊥
Counts (failed a b) (some vs) s v = ⊥
Counts (failed a b) none s v = Unit

count_met-append : (vs ws : List Verdict) → count_met (vs ++ ws) ≡ count_met vs + count_met ws
unfolding count_met
count_met-append [] ws = omega arith
count_met-append (met ∷ vs) ws = omega (arith, count_met-append vs ws)
count_met-append (unmet ∷ vs) ws = omega (arith, count_met-append vs ws)
count_met-append (unknown ∷ vs) ws = omega (arith, count_met-append vs ws)

count_unmet-append :
    (vs ws : List Verdict) → count_unmet (vs ++ ws) ≡ count_unmet vs + count_unmet ws
unfolding count_unmet
count_unmet-append [] ws = omega arith
count_unmet-append (met ∷ vs) ws = omega (arith, count_unmet-append vs ws)
count_unmet-append (unmet ∷ vs) ws = omega (arith, count_unmet-append vs ws)
count_unmet-append (unknown ∷ vs) ws = omega (arith, count_unmet-append vs ws)

count_le : (vs : List Verdict) → count_met vs + count_unmet vs ≤ length vs
unfolding count_met count_unmet
count_le [] = omega arith
count_le (met ∷ vs) = omega (arith, count_le vs)
count_le (unmet ∷ vs) = omega (arith, count_le vs)
count_le (unknown ∷ vs) = omega (arith, count_le vs)

Counts-inv :
    (r : Checked) (vs : List Verdict) (s v : ℕ)
    → Counts r (some vs) s v
    → r ≡ counted (pos (s + count_met vs)) (pos (v + count_unmet vs))
Counts-inv (counted a b) vs s v h = cc
Counts-inv (failed a b) vs s v h = absurd h

Counts-prepend :
    (vs : List Verdict) (o : Option (List Verdict)) (r : Checked) (s v : ℕ)
    → Counts r o (s + count_met vs) (v + count_unmet vs)
    → Counts r (elim o [ none ↦ none | some ws ↦ some (vs ++ ws) ]) s v
Counts-prepend vs none (counted a b) s v h = h
Counts-prepend vs none (failed a b) s v h = h
Counts-prepend vs (some ws) (counted a b) s v h =
    ground (arith, count_met-append vs ws, count_unmet-append vs ws)
Counts-prepend vs (some ws) (failed a b) s v h = h

module _ (api : Api) (get_node : String → Option Node) (region zone : String) (costs : CostMap)
    (node_name : String) where
  check_pod-Counts :
      (p : ScheduledInfo) (ds : List DependenciesInfo) (s v : ℕ)
      → s + length ds < 2 ^ 63
      → v + length ds < 2 ^ 63
      → Counts
          (check_pod api get_node region zone costs node_name p ds (pos s) (pos v))
          (verdicts_pod api get_node region zone costs node_name p ds)
          s
          v
  unfolding check_pod verdicts_pod count_met count_unmet
  check_pod-Counts p [] s v h k = (ground arith, ground arith)
  check_pod-Counts p (d ∷ ds) s v h k = ground (
    arith,
    add64_pos s 1,
    add64_pos v 1,
    check_pod-Counts p ds s v,
    check_pod-Counts p ds (s + 1) v,
    check_pod-Counts p ds s (v + 1),
  )

  length-verdicts_pod :
      (p : ScheduledInfo) (ds : List DependenciesInfo) (vs : List Verdict)
      → verdicts_pod api get_node region zone costs node_name p ds ≡ some vs
      → length vs ≤ length ds
  unfolding verdicts_pod
  length-verdicts_pod p [] vs h = ground arith
  length-verdicts_pod p (d ∷ ds) vs h =
      elim (Option-cases (verdicts_pod api get_node region zone costs node_name p ds)) [
        | inl e ↦ ground arith
        | inr (ws, e) ↦ ground (arith, length-verdicts_pod p ds ws e)
      ]

  check_from-Counts :
      (ps : List ScheduledInfo) (ds : List DependenciesInfo) (s v : ℕ)
      → s + length ps * length ds < 2 ^ 63
      → v + length ps * length ds < 2 ^ 63
      → Counts
          (check_from api get_node region zone costs node_name ps ds (pos s) (pos v))
          (verdicts api get_node region zone costs node_name ps ds)
          s
          v
  unfolding check_from verdicts count_met count_unmet
  check_from-Counts [] ds s v h k = (ground arith, ground arith)
  check_from-Counts (p ∷ ps) ds s v h k =
      let here = check_pod-Counts p ds s v (grind arith) (grind arith) in
      elim (Bool-cases (str_eq p.hostname "")) [
        | inl skip ↦
            rw (skip, check_from, verdicts)
              (check_from-Counts ps ds s v (grind arith) (grind arith))
        | inr use_it ↦
            elim (Option-cases (verdicts_pod api get_node region zone costs node_name p ds)) [
              | inl e ↦ ground (arith, here)
              | inr (vs, e) ↦
                  let few : count_met vs + count_unmet vs ≤ length ds =
                    omega (arith, count_le vs, length-verdicts_pod p ds vs e) in
                  let done =
                    Counts-inv
                      (check_pod api get_node region zone costs node_name p ds (pos s) (pos v)) vs s
                      v (rw e at here) in
                  rw (use_it, e, done, check_from, verdicts)
                    (Counts-prepend vs (verdicts api get_node region zone costs node_name ps ds) _ s
                      v
                      (check_from-Counts ps ds (s + count_met vs) (v + count_unmet vs) (omega arith)
                        (omega arith)))
            ]
      ]

-- The counters are the numbers of pairs of a scheduled pod and a dependency that are met and unmet;
-- the pass fails exactly where the node of such a pair is not in the snapshot. The number of pairs
-- must be below 2 ^ 63.
pub check_max_network_cost_requirements_lem :
    (api : Api) (get_node : String → Option Node) (region zone : String) (costs : CostMap)
    (node_name : String) (ps : List ScheduledInfo) (ds : List DependenciesInfo)
    → length ps * length ds < 2 ^ 63
    → Counts
        (check_max_network_cost_requirements api get_node region zone costs ps ds node_name)
        (verdicts api get_node region zone costs node_name ps ds)
        0
        0
unfolding check_max_network_cost_requirements
check_max_network_cost_requirements_lem api get_node region zone costs node_name ps ds h =
    check_from-Counts api get_node region zone costs node_name ps ds 0 0 (omega arith) (omega arith)

-- A verdict on a dependency with a limit, and the cost of the same pair.
abbrev pub Agrees : Verdict → ℤ → ℤ → Type 0
Agrees met limit cost = (cost ≡ pos 1) ⊎ (cost ≤ℤ limit)
Agrees unmet limit cost = (cost ≡ max_cost) ⊎ (limit <ℤ cost)
Agrees unknown limit cost = cost ≡ max_cost

-- On a node that is not the pod's own, the two passes agree: a dependency counted as met costs 1 or
-- at most its limit, one counted as unmet costs 100 or more than its limit, and one that is not
-- counted costs 100.
pub judge-price :
    (api : Api) (get_node : String → Option Node) (region zone : String) (costs : CostMap)
    (n : Node) (limit : ℤ)
    → Agrees
        (judge api get_node region zone costs n limit)
        limit
        (price api get_node region zone costs n)
unfolding judge price
judge-price api get_node region zone costs n limit = ground arith
