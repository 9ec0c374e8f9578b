-- ===== src/Preemption/Pdb.antt =====
-- `filterPodsWithPDBViolation` of pkg/capacityscheduling/capacity_scheduling.go, which
-- pkg/preemptiontoleration/preemption_toleration.go repeats word for word.
pub mod Budget
use plugins_improve.Prelude.{
  ℤ, pos, ◌-ℤ◌, wrap32, ltb_ℤ, Bool, true, false, ◌&&◌, ◌||◌, not, Option, none, some, List, [],
  ◌∷◌, map, String, str_eq, elem, if◌then◌else◌,
}

-- The labels of a pod and the selectors of apimachinery: a selector may be malformed.
pub record SelectorApi : Type 1 where
  pub LabelSelector : Type 0
  pub Selector : Type 0
  pub as_selector : LabelSelector → Option Selector
  pub is_empty : Selector → Bool
  pub matches : Selector → List (String × String) → Bool

pub record Pdb (api : SelectorApi) : Type 0 where
  pub namespace : String
  pub selector : api.LabelSelector
  pub disruptions_allowed : ℤ
  pub disrupted_pods : List String

-- What the function reads of a pod.
pub record PodView : Type 0 where
  pub namespace : String
  pub name : String
  pub labels : List (String × String)

abbrev pub has_labels : List (String × String) → Bool
has_labels [] = false
has_labels (l ∷ ls) = true

module _ (api : SelectorApi) where
  open api use {as_selector, is_empty, matches}

  -- Whether the pod takes one from the budget: the tests that do not `continue`.
  unfoldable pub charges : Pdb api → PodView → Bool
  unfolding elem
  charges pdb pod =
      if str_eq pdb.namespace pod.namespace
      then elim (as_selector pdb.selector) [
        | none ↦ false
        | some selector ↦
            if is_empty selector || not (matches selector pod.labels)
            then false
            else not (elem pod.name pdb.disrupted_pods)
      ]
      else false

  -- The inner loop: the budgets after the pod, and whether one of them is violated.
  unfoldable pub visit_pdbs : PodView → List (Pdb api × ℤ) → List (Pdb api × ℤ) × Bool
  visit_pdbs pod [] = ([], false)
  visit_pdbs pod ((pdb, allowed) ∷ rest) =
      let (after, violated) = visit_pdbs pod rest in
      if charges pdb pod
      then (
        (pdb, wrap32 (allowed -ℤ pos 1)) ∷ after,
        ltb_ℤ (wrap32 (allowed -ℤ pos 1)) (pos 0) || violated,
      )
      else ((pdb, allowed) ∷ after, violated)

  -- A pod with no labels matches no budget.
  unfoldable pub visit_pod : PodView → List (Pdb api × ℤ) → List (Pdb api × ℤ) × Bool
  unfolding visit_pdbs
  visit_pod pod budgets = if has_labels pod.labels then visit_pdbs pod budgets else (budgets, false)

  module _ {P : Type 0} (view : P → PodView) where
    unfoldable pub split_pods : List P → List (Pdb api × ℤ) → List P × List P
    split_pods [] budgets = ([], [])
    split_pods (p ∷ ps) budgets =
        let (after, violated) = visit_pod (view p) budgets in
        let (violating, non_violating) = split_pods ps after in
        if violated then (p ∷ violating, non_violating) else (violating, p ∷ non_violating)

    unfoldable pub filter_pods_with_pdb_violation : List P → List (Pdb api) → List P × List P
    unfolding split_pods
    filter_pods_with_pdb_violation pods pdbs =
        split_pods pods (map (λ pdb. (pdb, pdb.disruptions_allowed)) pdbs)
