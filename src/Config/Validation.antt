-- ===== src/Config/Validation.antt =====
-- The validation of apis/config/validation/validation_pluginargs.go. An error is the field that it is
-- on; its text is left out.
use plugins_improve.Prelude.{
  ℕ, suc, ℤ, pos, ltb_ℤ, leb_ℤ, List, [], ◌∷◌, ◌++◌, String, elem, if◌then◌else◌,
}
use plugins_improve.Config.Defaults.{ResourceSpec, NodeResourcesAllocatableArgs}

pub data FieldError : Type 0 where
  scoring_strategy_type mode permit_waiting_time_seconds pod_group_backoff_seconds : FieldError
  weight : (index : ℕ) → FieldError

abbrev pub support_node_resources_mode : List String
support_node_resources_mode = "Least" ∷ "Most" ∷ []

abbrev pub valid_scoring_strategy : List String
valid_scoring_strategy =
    "MostAllocated" ∷ "BalancedAllocation" ∷ "LeastAllocated" ∷ "LeastNUMANodes" ∷ []

unfoldable pub validate_scoring_strategy_type : String → List FieldError
validate_scoring_strategy_type strategy =
    if elem strategy valid_scoring_strategy then [] else scoring_strategy_type ∷ []

-- The resources from the index `i` on.
unfoldable pub validate_resources : ℕ → List ResourceSpec → List FieldError
validate_resources i [] = []
validate_resources i (r ∷ rs) =
    let rest = validate_resources (suc i) rs in
    if leb_ℤ r.weight (pos 0) then weight i ∷ rest else rest

unfoldable pub validate_node_resources_mode_type : String → List FieldError
validate_node_resources_mode_type m = if elem m support_node_resources_mode then [] else mode ∷ []

unfoldable pub validate_node_resources_allocatable_args :
    NodeResourcesAllocatableArgs → List FieldError
unfolding validate_resources validate_node_resources_mode_type
validate_node_resources_allocatable_args args =
    validate_resources 0 args.resources ++ validate_node_resources_mode_type args.mode

unfoldable pub validate_coscheduling_args : (permit backoff : ℤ) → List FieldError
validate_coscheduling_args permit backoff =
    (if ltb_ℤ permit (pos 0) then permit_waiting_time_seconds ∷ [] else [])
    ++ (if ltb_ℤ backoff (pos 0) then pod_group_backoff_seconds ∷ [] else [])
