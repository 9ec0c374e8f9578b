-- ===== src/Preemption/Reprieve.antt =====
-- The reprieves of SelectVictimsOnNode in pkg/capacityscheduling/capacity_scheduling.go, with the test
-- of the quotas as a parameter. In pkg/preemptiontoleration/preemption_toleration.go the same code
-- stands without that test.
pub mod Fit
pub mod Settling
pub mod Victims
use plugins_improve.Prelude.{
  ℕ, suc, zero, Bool, true, false, Option, none, some, List, [], ◌∷◌, ◌++◌, sort_slice,
  if◌then◌else◌,
}
use plugins_improve.Status.{Status, error}
use plugins_improve.Preemption.Pdb.{SelectorApi, Pdb, PodView, filter_pods_with_pdb_violation}
use plugins_improve.Preemption.Simulation.{Handle, is_success}

-- What SelectVictimsOnNode returns: the victims with the number of those that violate a budget, or a
-- status.
pub data Selected (P : Type 0) : Type 0 where
  victims_of : List P → ℕ → Selected P
  rejected : Status → Selected P

module _ {P S : Type 0} (h : Handle P S) where
  open h use {remove_pod, add_pod, run_filters, more_important_pod}

  -- `reprievePod`: whether the pod fits, the state, and the victims; `none` is an error.
  unfoldable pub reprieve_pod : (S → Bool) → P → S → List P → Option (Bool × S × List P)
  reprieve_pod over pi s victims = elim (add_pod pi s) [
    | none ↦ none
    | some added ↦ elim (is_success (run_filters added)) [
      | true ↦ elim (over added) [
        | false ↦ some (true, added, victims)
        | true ↦ elim (remove_pod pi added) [
          | none ↦ none
          | some removed ↦ some (true, removed, victims ++ pi ∷ [])
        ]
      ]
      | false ↦ elim (remove_pod pi added) [
        | none ↦ none
        | some removed ↦ elim (over removed) [
          | false ↦ some (false, removed, victims ++ pi ∷ [])
          | true ↦ elim (remove_pod pi removed) [
            | none ↦ none
            | some again ↦ some (false, again, (victims ++ pi ∷ []) ++ pi ∷ [])
          ]
        ]
      ]
    ]
  ]

  -- A loop of reprieves, with the number of pods that did not fit.
  unfoldable pub reprieve_all : (S → Bool) → List P → S → List P → ℕ → Option (S × List P × ℕ)
  reprieve_all over [] s victims n = some (s, victims, n)
  reprieve_all over (p ∷ ps) s victims n = elim (reprieve_pod over p s victims) [
    | none ↦ none
    | some (fits, s', victims') ↦ reprieve_all over ps s' victims' (if fits then n else suc n)
  ]

  abbrev pub both_nonempty : List P → List P → Bool
  both_nonempty (a ∷ as') (b ∷ bs) = true
  both_nonempty _ _ = false

  -- From the point where the pod fits on the node without the potential victims. The state is
  -- returned for what follows from it; the source leaves it behind in the dry run.
  unfoldable pub reprieve :
      (sel : SelectorApi)
      → (P → PodView)
      → List (Pdb sel)
      → (S → Bool)
      → List P
      → S
      → Option (S × List P × ℕ)
  reprieve sel view pdbs over potential s =
      let (violating, non_violating) =
        filter_pods_with_pdb_violation sel view (sort_slice more_important_pod potential) pdbs in
      elim (reprieve_all over violating s [] zero) [
        | none ↦ none
        | some (s', victims, n) ↦ elim (reprieve_all over non_violating s' victims zero) [
          | none ↦ none
          | some (s'', all, ignored) ↦ some (
            s'',
            (if both_nonempty violating non_violating
                then sort_slice more_important_pod all
                else all),
            n,
          )
        ]
      ]

module _ {P S : Type 0} where
  abbrev pub finish : Option (S × List P × ℕ) → Selected P
  finish none = rejected error
  finish (some (s, victims, n)) = victims_of victims n
