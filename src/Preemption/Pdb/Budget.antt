-- ===== src/Preemption/Pdb/Budget.antt =====
-- What the split of `filterPodsWithPDBViolation` keeps
-- (pkg/capacityscheduling/capacity_scheduling.go).
use plugins_improve.Prelude.{
  ℕ, suc, zero, ◌+◌, ◌≤◌, ◌^◌, ◌≡◌, refl, ℤ, pos, negsuc, pos_part, neg_part, InInt32, ◌-ℤ◌, wrap32,
  wrap32_id, ltb_ℤ, -ℤ_parts, Bool, true, false, ◌&&◌, some, List, [], ◌∷◌, ◌++◌, map, length,
  get_elem?, All, keep, arith, Perm-middle, if◌then◌else◌,
}
use mathlib.Core.List.{Perm}
use mathlib.Core.List.Perm
use plugins_improve.Preemption.Pdb.{
  SelectorApi, Pdb, PodView, has_labels, charges, visit_pdbs, visit_pod, split_pods,
  filter_pods_with_pdb_violation,
}

module _ (api : SelectorApi) where
  -- Whether an eviction of the pod takes from the budget.
  abbrev pub takes : Pdb api → PodView → Bool
  takes pdb pod = has_labels pod.labels && charges api pdb pod

  minus_one : (a : ℤ) → InInt32 a → 1 + neg_part a ≤ 2 ^ 31 → wrap32 (a -ℤ pos 1) ≡ a -ℤ pos 1
  unfolding ◌-ℤ◌
  minus_one (pos zero) h k = wrap32_id (pos zero -ℤ pos 1) (ground arith)
  minus_one (pos (suc n)) h k = wrap32_id (pos (suc n) -ℤ pos 1) (ground arith)
  minus_one (negsuc n) h k = wrap32_id (negsuc n -ℤ pos 1) (ground arith)

  visit_pod-at :
      (pod : PodView) (budgets : List (Pdb api × ℤ)) (i : ℕ) (pdb : Pdb api) (a : ℤ)
      → get_elem? budgets i ≡ some (pdb, a)
      → get_elem? (visit_pod api pod budgets).0 i
        ≡ some (pdb, (if takes pdb pod then wrap32 (a -ℤ pos 1) else a))
  unfolding visit_pod visit_pdbs
  visit_pod-at pod [] i pdb a h = ground arith
  visit_pod-at pod (b ∷ bs) zero pdb a h = ground arith
  visit_pod-at pod (b ∷ bs) (suc i) pdb a h = ground (arith, visit_pod-at pod bs i pdb a)

  -- A pod that takes the last of a budget violates it.
  visit_pod-violated :
      (pod : PodView) (budgets : List (Pdb api × ℤ)) (i : ℕ) (pdb : Pdb api) (a : ℤ)
      → get_elem? budgets i ≡ some (pdb, a)
      → takes pdb pod ≡ true
      → (visit_pod api pod budgets).1 ≡ false
      → ltb_ℤ (wrap32 (a -ℤ pos 1)) (pos 0) ≡ false
  unfolding visit_pod visit_pdbs
  visit_pod-violated pod [] i pdb a h t v = ground arith
  visit_pod-violated pod (b ∷ bs) zero pdb a h t v = ground arith
  visit_pod-violated pod (b ∷ bs) (suc i) pdb a h t v =
      ground (arith, visit_pod-violated pod bs i pdb a)

  module _ {P : Type 0} (view : P → PodView) where
    unfoldable pub number_taking : Pdb api → List P → ℕ
    number_taking pdb ps = length (keep (λ p. takes pdb (view p)) ps)

    split_pods-bound :
        (ps : List P) (budgets : List (Pdb api × ℤ)) (i : ℕ) (pdb : Pdb api) (a : ℤ)
        → get_elem? budgets i ≡ some (pdb, a)
        → InInt32 a
        → length ps + neg_part a ≤ 2 ^ 31
        → number_taking pdb (split_pods api view ps budgets).1 ≤ pos_part a
    unfolding split_pods number_taking keep
    split_pods-bound [] budgets i pdb a h r l = omega arith
    split_pods-bound (p ∷ ps) budgets i pdb a h r l = ground (
      arith,
      minus_one a r,
      -ℤ_parts a (pos 1),
      visit_pod-at (view p) budgets i pdb a h,
      visit_pod-violated (view p) budgets i pdb a h,
      split_pods-bound ps (visit_pod api (view p) budgets).0 i pdb a,
      split_pods-bound ps (visit_pod api (view p) budgets).0 i pdb (a -ℤ pos 1),
    )

    split_pods-Perm :
        (ps : List P) (budgets : List (Pdb api × ℤ))
        → let (violating, others) = split_pods api view ps budgets in Perm (violating ++ others) ps
    unfolding split_pods
    split_pods-Perm [] budgets = Perm.refl []
    split_pods-Perm (p ∷ ps) budgets =
        let (after, violated) = visit_pod api (view p) budgets in
        let (violating, others) = split_pods api view ps after in
        ground (
          arith,
          Perm.cons p (split_pods-Perm ps after),
          Perm.trans (Perm-middle p violating others) (Perm.cons p (split_pods-Perm ps after)),
        )

    initial-at :
        (pdbs : List (Pdb api)) (i : ℕ) (pdb : Pdb api)
        → get_elem? pdbs i ≡ some pdb
        → get_elem? {A = Pdb api × ℤ} (map (λ b. (b, b.disruptions_allowed)) pdbs) i
          ≡ some (pdb, pdb.disruptions_allowed)
    initial-at [] i pdb h = ground arith
    initial-at (b ∷ bs) zero pdb h = ground arith
    initial-at (b ∷ bs) (suc i) pdb h = initial-at bs i pdb h

    -- Room for every pod that takes from a budget.
    abbrev Enough : List P → List (Pdb api × ℤ) → Type 0
    Enough ps = All (λ b. (number_taking b.0 ps ≤ pos_part b.1) × InInt32 b.1)

    visit_pod-Enough :
        (p : P) (ps : List P) (budgets : List (Pdb api × ℤ))
        → Enough (p ∷ ps) budgets
        → Enough ps (visit_pod api (view p) budgets).0
          × ((visit_pod api (view p) budgets).1 ≡ false)
    unfolding visit_pod visit_pdbs number_taking keep
    visit_pod-Enough p ps [] h = ground arith
    visit_pod-Enough p ps ((pdb, a) ∷ bs) ((e, r), h) =
        ground (arith, minus_one a r, -ℤ_parts a (pos 1), visit_pod-Enough p ps bs h)

    split_pods-nothing :
        (ps : List P) (budgets : List (Pdb api × ℤ))
        → Enough ps budgets
        → split_pods api view ps budgets ≡ ([], ps)
    unfolding split_pods
    split_pods-nothing [] budgets h = refl
    split_pods-nothing (p ∷ ps) budgets h =
        let (e, v) = visit_pod-Enough p ps budgets h in
        ground (arith, v, split_pods-nothing ps (visit_pod api (view p) budgets).0 e)

-- Of the pods that the split puts aside as not violating, no more take from a budget than the budget
-- allows, whatever the pods are and in which order they come. The hypothesis excludes an overflow:
-- as many decrements of the allowed number as there are pods stay in the int32 range.
pub budget_respected :
    (api : SelectorApi) (P : Type 0) (view : P → PodView) (pods : List P) (pdbs : List (Pdb api))
    (i : ℕ) (pdb : Pdb api)
    → get_elem? pdbs i ≡ some pdb
    → InInt32 pdb.disruptions_allowed
    → length pods + neg_part pdb.disruptions_allowed ≤ 2 ^ 31
    → number_taking api view pdb (filter_pods_with_pdb_violation api view pods pdbs).1
      ≤ pos_part pdb.disruptions_allowed
unfolding filter_pods_with_pdb_violation
budget_respected api P view pods pdbs i pdb h r l =
    split_pods-bound api view pods (map (λ b. (b, b.disruptions_allowed)) pdbs) i pdb
      pdb.disruptions_allowed (initial-at api view pdbs i pdb h) r l

-- Where every budget allows as many disruptions as there are pods that take from it, no pod is
-- violating, and the others are all the pods in their order.
pub nothing_violated :
    (api : SelectorApi) (P : Type 0) (view : P → PodView) (pods : List P) (pdbs : List (Pdb api))
    → All
        (λ pdb.
          (number_taking api view pdb pods ≤ pos_part pdb.disruptions_allowed)
          × InInt32 pdb.disruptions_allowed)
        pdbs
    → filter_pods_with_pdb_violation api view pods pdbs ≡ ([], pods)
unfolding filter_pods_with_pdb_violation
nothing_violated api P view pods pdbs h =
    split_pods-nothing api view pods (map (λ b. (b, b.disruptions_allowed)) pdbs)
      (initial_enough pdbs h)
  where
    initial_enough :
        (bs : List (Pdb api))
        → All
            (λ b.
              (number_taking api view b pods ≤ pos_part b.disruptions_allowed)
              × InInt32 b.disruptions_allowed)
            bs
        → Enough api view pods (map (λ b. (b, b.disruptions_allowed)) bs)
    initial_enough [] k = tt
    initial_enough (b ∷ bs) k = (k.0, initial_enough bs k.1)

-- The two groups together are the pods of the list, each as often as it occurs there.
pub split-Perm :
    (api : SelectorApi) (P : Type 0) (view : P → PodView) (pods : List P) (pdbs : List (Pdb api))
    → let (violating, others) = filter_pods_with_pdb_violation api view pods pdbs in
      Perm (violating ++ others) pods
unfolding filter_pods_with_pdb_violation
split-Perm api P view pods pdbs =
    split_pods-Perm api view pods (map (λ b. (b, b.disruptions_allowed)) pdbs)
