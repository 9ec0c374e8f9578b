-- ===== src/Preemption/Simulation.antt =====
-- The dry run of a preemption on one node. The node and the cycle state live in the framework: they
-- are one abstract state here, which the calls of the framework change.
use plugins_improve.Prelude.{Bool, true, false, Option, none, some, List, [], ◌∷◌, ◌++◌}
use plugins_improve.Status.{Status}

-- `removePod` and `addPod` of the two plugins: a change of the node and a run of the PreFilter
-- extensions, `none` where either fails. `run_filters` is RunFilterPluginsWithNominatedPods.
pub record Handle (P : Type 0) (S : Type 0) : Type 0 where
  pub remove_pod : P → S → Option S
  pub add_pod : P → S → Option S
  pub run_filters : S → Status
  pub node_pods : S → List P
  pub more_important_pod : P → P → Bool

abbrev pub is_success : Status → Bool
is_success Status.success = true
is_success _ = false

module _ {P S : Type 0} (h : Handle P S) where
  open h use {remove_pod}

  -- A loop over the pods of the node that removes those which pass a test of the current state.
  unfoldable pub take_out : (S → P → Bool) → List P → S → List P → Option (List P × S)
  take_out test [] s victims = some (victims, s)
  take_out test (p ∷ ps) s victims = elim (test s p) [
    | false ↦ take_out test ps s victims
    | true ↦ elim (remove_pod p s) [
      | none ↦ none
      | some s' ↦ take_out test ps s' (victims ++ p ∷ [])
    ]
  ]
