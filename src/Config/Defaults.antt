-- ===== src/Config/Defaults.antt =====
-- The defaults of apis/config/v1/defaults.go, of the plugins whose arguments are not floating-point. A
-- pointer is an option; a name of a type of strings is a string.
use plugins_improve.Prelude.{
  ℤ, pos, eqb_ℤ, Option, none, some, List, [], ◌∷◌, map, String, str_eq, if◌then◌else◌,
}

abbrev pub or_default {ℓ} : {A : Type ℓ} → A → Option A → Option A
or_default d none = some d
or_default d (some a) = some a

abbrev pub or_listed {ℓ} : {A : Type ℓ} → List A → List A → List A
or_listed d [] = d
or_listed d (x ∷ xs) = x ∷ xs

pub record CoschedulingArgs : Type 0 where
  pub permit_waiting_time_seconds : Option ℤ
  pub pod_group_backoff_seconds : Option ℤ

unfoldable pub set_defaults_coscheduling_args : CoschedulingArgs → CoschedulingArgs
set_defaults_coscheduling_args args = record {
  permit_waiting_time_seconds = or_default (pos 60) args.permit_waiting_time_seconds;
  pod_group_backoff_seconds = or_default (pos 0) args.pod_group_backoff_seconds;
}

pub record ResourceSpec : Type 0 where
  pub name : String
  pub weight : ℤ

pub record NodeResourcesAllocatableArgs : Type 0 where
  pub resources : List ResourceSpec
  pub mode : String

abbrev pub default_allocatable_resources : List ResourceSpec
default_allocatable_resources =
    record { name = "cpu"; weight = pos 1048576 } ∷ record { name = "memory"; weight = pos 1 } ∷ []

unfoldable pub set_defaults_node_resources_allocatable_args :
    NodeResourcesAllocatableArgs → NodeResourcesAllocatableArgs
set_defaults_node_resources_allocatable_args args = record {
  resources = or_listed default_allocatable_resources args.resources;
  mode = if str_eq args.mode "" then "Least" else args.mode;
}

pub record ScoringStrategy : Type 0 where
  pub strategy_type : String
  pub resources : List ResourceSpec

pub record CacheArgs : Type 0 where
  pub foreign_pods_detect : Option String
  pub resync_method : Option String
  pub informer_mode : Option String

pub record NodeResourceTopologyMatchArgs : Type 0 where
  pub scoring_strategy : Option ScoringStrategy
  pub cache : Option CacheArgs

abbrev pub default_resource_spec : List ResourceSpec
default_resource_spec =
    record { name = "cpu"; weight = pos 1 } ∷ record { name = "memory"; weight = pos 1 } ∷ []

abbrev pub with_weight : ResourceSpec → ResourceSpec
with_weight r = record {
  name = r.name;
  weight = if eqb_ℤ r.weight (pos 0) then pos 1 else r.weight;
}

abbrev pub default_strategy : Option ScoringStrategy → ScoringStrategy
default_strategy none = record {
  strategy_type = "LeastAllocated";
  resources = default_resource_spec;
}
default_strategy (some s) = s

abbrev pub complete_strategy : ScoringStrategy → ScoringStrategy
complete_strategy s = record {
  strategy_type = s.strategy_type;
  resources = map with_weight (or_listed default_resource_spec s.resources);
}

abbrev pub default_cache : Option CacheArgs → CacheArgs
default_cache none = record {
  foreign_pods_detect = none;
  resync_method = none;
  informer_mode = none;
}
default_cache (some c) = c

abbrev pub complete_cache : CacheArgs → CacheArgs
complete_cache c = record {
  foreign_pods_detect = or_default "All" c.foreign_pods_detect;
  resync_method = or_default "Autodetect" c.resync_method;
  informer_mode = or_default "Dedicated" c.informer_mode;
}

unfoldable pub set_defaults_node_resource_topology_match_args :
    NodeResourceTopologyMatchArgs → NodeResourceTopologyMatchArgs
set_defaults_node_resource_topology_match_args args = record {
  scoring_strategy = some (complete_strategy (default_strategy args.scoring_strategy));
  cache = some (complete_cache (default_cache args.cache));
}

pub record NetworkOverheadArgs : Type 0 where
  pub namespaces : List String
  pub weights_name : Option String
  pub network_topology_name : Option String

unfoldable pub set_defaults_topological_sort_args : List String → List String
set_defaults_topological_sort_args namespaces = or_listed ("default" ∷ []) namespaces

unfoldable pub set_defaults_network_overhead_args : NetworkOverheadArgs → NetworkOverheadArgs
set_defaults_network_overhead_args args = record {
  namespaces = or_listed ("default" ∷ []) args.namespaces;
  weights_name = or_default "UserDefined" args.weights_name;
  network_topology_name = or_default "nt-default" args.network_topology_name;
}

pub record SySchedArgs : Type 0 where
  pub default_profile_namespace : Option String
  pub default_profile_name : Option String

unfoldable pub set_defaults_sy_sched_args : SySchedArgs → SySchedArgs
set_defaults_sy_sched_args args = record {
  default_profile_namespace = or_default "default" args.default_profile_namespace;
  default_profile_name = or_default "all-syscalls" args.default_profile_name;
}
