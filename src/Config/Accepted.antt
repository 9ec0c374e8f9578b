-- ===== src/Config/Accepted.antt =====
-- The defaults of apis/config/v1/defaults.go against the validation of apis/config/validation.
use plugins_improve.Prelude.{
  ℕ, suc, pos, leb_ℤ, Bool, true, not, Option, none, some, List, [], ◌∷◌, map, String, str_eq,
  str_eq_sym, Bool-cases, inl, inr, elem, all, ◌≡◌, refl, arith, if◌then◌else◌,
}
use plugins_improve.Config.Defaults.{
  ResourceSpec, NodeResourcesAllocatableArgs, set_defaults_node_resources_allocatable_args,
  NodeResourceTopologyMatchArgs, set_defaults_node_resource_topology_match_args, with_weight,
  or_listed, default_allocatable_resources, default_resource_spec, default_strategy, default_cache,
  or_default,
}
use plugins_improve.Config.Validation.{
  support_node_resources_mode, validate_resources, validate_node_resources_mode_type,
  validate_node_resources_allocatable_args,
}

abbrev pub positive : ResourceSpec → Bool
positive r = not (leb_ℤ r.weight (pos 0))

validate_resources-positive :
    (i : ℕ) (rs : List ResourceSpec) → all positive rs ≡ true → validate_resources i rs ≡ []
unfolding validate_resources all
validate_resources-positive i [] h = refl
validate_resources-positive i (r ∷ rs) h = ground (arith, validate_resources-positive (suc i) rs)

listed-positive :
    (rs : List ResourceSpec)
    → all positive rs ≡ true
    → all positive (or_listed default_allocatable_resources rs) ≡ true
unfolding all
listed-positive [] h = refl
listed-positive (r ∷ rs) h = h

mode_accepted :
    (m : String)
    → elem m ("" ∷ support_node_resources_mode) ≡ true
    → validate_node_resources_mode_type (if str_eq m "" then "Least" else m) ≡ []
unfolding validate_node_resources_mode_type elem
mode_accepted m h = elim (Bool-cases (str_eq m "")) [
  | inl e ↦ rw e refl
  | inr e ↦ rw e (ground (arith, e, h, str_eq_sym m ""))
]

-- With the defaults, arguments of positive weights whose mode is empty or supported are valid.
pub defaults_accepted :
    (args : NodeResourcesAllocatableArgs)
    → all positive args.resources ≡ true
    → elem args.mode ("" ∷ support_node_resources_mode) ≡ true
    → validate_node_resources_allocatable_args (set_defaults_node_resources_allocatable_args args)
      ≡ []
unfolding validate_node_resources_allocatable_args set_defaults_node_resources_allocatable_args
defaults_accepted args weights h =
    rw
      (
        validate_resources-positive 0 (or_listed default_allocatable_resources args.resources)
            (listed-positive args.resources weights),
        mode_accepted args.mode h,
      )
      refl

weights_idempotent :
    (rs : List ResourceSpec) → map with_weight (map with_weight rs) ≡ map with_weight rs
weights_idempotent [] = refl
weights_idempotent (r ∷ rs) = ground (arith, weights_idempotent rs)

listed_idempotent :
    (rs : List ResourceSpec)
    → map with_weight
        (or_listed default_resource_spec (map with_weight (or_listed default_resource_spec rs)))
      ≡ map with_weight (or_listed default_resource_spec rs)
listed_idempotent [] = refl
listed_idempotent (r ∷ rs) = weights_idempotent (r ∷ rs)

or_default_twice : (d : String) (o : Option String) → or_default d (or_default d o) ≡ or_default d o
or_default_twice d none = refl
or_default_twice d (some a) = refl

-- Setting the defaults of the topology arguments again changes nothing.
pub set_defaults_twice :
    (args : NodeResourceTopologyMatchArgs)
    → set_defaults_node_resource_topology_match_args
        (set_defaults_node_resource_topology_match_args args)
      ≡ set_defaults_node_resource_topology_match_args args
unfolding set_defaults_node_resource_topology_match_args
set_defaults_twice args =
    let cache = default_cache args.cache in
    rw
      (
        listed_idempotent (default_strategy args.scoring_strategy).resources,
        or_default_twice "All" cache.foreign_pods_detect,
        or_default_twice "Autodetect" cache.resync_method,
        or_default_twice "Dedicated" cache.informer_mode,
      )
      refl
