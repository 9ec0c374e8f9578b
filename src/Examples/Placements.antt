-- ===== src/Examples/Placements.antt =====
-- The theorems on the filter and the caches of pkg/noderesourcetopology, for a node of two zones.
use plugins_improve.Prelude.{
  ℤ, ◌≡◌, ◌⊎◌, refl, true, false, Option, none, some, List, [], ◌∷◌, String, lookup, insert, has,
  keep, all, elem,
}
use plugins_improve.Status.{success, unschedulable}
use plugins_improve.Quantities.{int_quantities, get_pod_effective_request, sum_into, raise}
use plugins_improve.Cache.Store.{Nrt, contains, new_nrt_store}
use plugins_improve.Cache.Interface.{
  over_reserve, discard_reserved, ForeignPods, is_foreign_pod, foreign_cache,
}
use plugins_improve.Cache.OverReserve.{OverReserve, new_over_reserve}
use plugins_improve.Cache.OverReserve.Trace.{Call, discarded, reserved}
use plugins_improve.Cache.OverReserve.Trace
use plugins_improve.Cache.DiscardReserved.{get_cached_nrt_copy}
use plugins_improve.Cache.DiscardReserved.Pending
use plugins_improve.Cache.DiscardReserved.Pending.{served-pending, abstract_run}
use plugins_improve.Topology.Config.{
  update_from_policies, update_from_attributes, topology_manager_defaults,
  topology_manager_from_nrt,
}
use plugins_improve.Topology.Numa.{extract_resources, is_resource_set_suitable}
use plugins_improve.Topology.Filter.{single_numa_container_level_handler, filter}
use plugins_improve.Topology.Filter.Verdicts.{Decides, container_handler-Decides}
use plugins_improve.Topology.Filter.Policy.{filter_pod_scope, foreign_pod_blocks}
use plugins_improve.Examples.Kubelet.{
  int_helpers, bits, names, two_zones, two_zone_node, four_cpus, big_node,
}

container_handler-Decides_example :
    Decides (single_numa_container_level_handler int_helpers bits four_cpus two_zones big_node)
container_handler-Decides_example =
    container_handler-Decides int_helpers bits four_cpus two_zones big_node ((refl, tt), (tt, tt))
      refl (((refl, tt), (tt, tt)), tt)

abbrev api_answer : String → Option (Nrt ℤ)
api_answer node = some two_zone_node

filter_pod_scope_example :
    filter int_helpers bits names (discard_reserved api_answer) four_cpus (some big_node) []
    ≡ some (success, [])
unfolding topology_manager_from_nrt update_from_policies update_from_attributes
    topology_manager_defaults get_cached_nrt_copy lookup all get_pod_effective_request sum_into
    raise insert has keep extract_resources is_resource_set_suitable
filter_pod_scope_example =
    filter_pod_scope int_helpers bits names (discard_reserved api_answer) four_cpus big_node []
      two_zone_node refl refl refl refl refl ((refl, tt), (tt, tt)) refl

abbrev own_profiles : ForeignPods
own_profiles = record { sched_profile_names = "topology" ∷ []; only_exclusive_resources = false }

abbrev over_reserving : OverReserve ℤ
over_reserving = new_over_reserve (two_zone_node ∷ [])

abbrev quiet : List (Trace.Call ℤ)
quiet = discarded "n1" ∷ reserved "n1" four_cpus ∷ []

foreign_pod_blocks_example :
    let after =
      Trace.run int_quantities
        (foreign_cache int_helpers own_profiles
          (over_reserve int_quantities)
          four_cpus
          over_reserving)
        quiet in
    filter int_helpers bits names (over_reserve int_quantities) four_cpus (some big_node) after
    ≡ some (unschedulable, after)
unfolding contains new_over_reserve new_nrt_store has lookup insert is_foreign_pod elem
foreign_pod_blocks_example =
    foreign_pod_blocks int_helpers bits names own_profiles four_cpus four_cpus big_node
      over_reserving quiet refl refl refl (refl, (refl, tt)) refl

abbrev one_pending : List (Pending.Call ℤ)
one_pending = Pending.reserved "n1" four_cpus ∷ Pending.bound "n2" four_cpus ∷ []

served-pending_example :
    ((get_cached_nrt_copy api_answer "n1" (Pending.run [] one_pending)
        ≡ (some two_zone_node, record { generation = 0; fresh = true }))
      × ((uid : String) → abstract_run (λ n u. false) one_pending "n1" uid ≡ false))
    ⊎ ((get_cached_nrt_copy api_answer "n1" (Pending.run [] one_pending)
          ≡ (none, record { generation = 0; fresh = false }))
        × ((uid : String) × (abstract_run (λ n u. false) one_pending "n1" uid ≡ true)))
served-pending_example = served-pending api_answer one_pending "n1"
