-- ===== src/Examples/Victims.antt =====
-- The selection of victims by pkg/capacityscheduling on a node with room for two pods.
use plugins_improve.Prelude.{
  ℤ, pos, ◌≡◌, refl, ◌+ℤ◌, add64, wrap64, ltb, ltb_ℤ, str_eq, true, false, some, List, [], ◌∷◌,
  String, length, all, lookup, lookup_or, insert, sort_slice, if◌then◌else◌,
}
use plugins_improve.Status.{success, unschedulable}
use plugins_improve.Preemption.Pdb.{SelectorApi, visit_pod, filter_pods_with_pdb_violation}
use plugins_improve.Preemption.Simulation.{Handle, take_out}
use plugins_improve.Preemption.Reprieve.{victims_of, reprieve, reprieve_all, reprieve_pod}
use plugins_improve.Capacity.Resource.{Resource, zero_resource, Pod, resource_list}
use plugins_improve.Capacity.Quota.{
  ElasticQuotaInfo, ElasticQuotaInfos, cmp, cmp2, over_scalars, used_over_min_with,
  used_over_max_with, aggregated_used_over_min_with,
}
use plugins_improve.Capacity.Plugin.{PreFilterState, CycleState}
use plugins_improve.Capacity.Preempt.{
  quota_mode, is_candidate, over_quota, settle, select_victims_on_node,
}
use plugins_improve.Capacity.Preempt.Candidates.{permitted, victims_are_permitted}
use plugins_improve.Examples.Framework.{int_framework, sample_pod, add_list, set_scalar}

abbrev any_selectors : SelectorApi
any_selectors = record {
  LabelSelector = String;
  Selector = String;
  as_selector = λ s. some s;
  is_empty = λ s. false;
  matches = λ s labels. true;
}

abbrev cpus : ℤ → Resource
cpus n = record zero_resource { milli_cpu = n }

abbrev team_info : ElasticQuotaInfo
team_info = record {
  namespace = "team";
  pods = [];
  min = some (cpus (pos 2000));
  max = some (cpus (pos 5000));
  used = cpus (pos 1000);
}

abbrev state : PreFilterState
state = record {
  pod_req = cpus (pos 1000);
  nominated_pods_req_in_eq_with_pod_req = cpus (pos 2000);
  nominated_pods_req_with_pod_req = cpus (pos 1000);
}

abbrev infos : ElasticQuotaInfos
infos = ("team", team_info) ∷ []

abbrev cycle : List (Pod ℤ) → CycleState
cycle s = record { snapshot = some infos; pre_filter_state = some state }

abbrev without : String → List (Pod ℤ) → List (Pod ℤ)
without name [] = []
without name (p ∷ ps) = if str_eq p.name name then ps else p ∷ without name ps

abbrev room_for_two : Handle (Pod ℤ) (List (Pod ℤ))
room_for_two = record {
  remove_pod = λ p s. some (without p.name s);
  add_pod = λ p s. some (p ∷ s);
  run_filters = λ s. if ltb (length s) 3 then success else unschedulable;
  node_pods = λ s. s;
  more_important_pod = λ a b. ltb_ℤ b.priority a.priority;
}

abbrev preemptor : Pod ℤ
preemptor = sample_pod "team" "p" (pos 10) []

-- Two pods of the team with a lower priority, and one of another namespace.
abbrev node_pods : List (Pod ℤ)
node_pods =
    sample_pod "team" "a" (pos 5) []
    ∷ sample_pod "team" "b" (pos 7) []
    ∷ sample_pod "other" "c" (pos 1) []
    ∷ []

one_victim :
    select_victims_on_node int_framework room_for_two cycle any_selectors [] preemptor node_pods
    ≡ victims_of (sample_pod "team" "a" (pos 5) [] ∷ []) 0
unfolding select_victims_on_node is_candidate take_out settle sort_slice lookup used_over_min_with
    cmp2 over_scalars over_quota used_over_max_with aggregated_used_over_min_with cmp resource_list
    add_list set_scalar reprieve reprieve_all reprieve_pod filter_pods_with_pdb_violation visit_pod
    add64 wrap64 ◌+ℤ◌ lookup_or insert
one_victim = refl

victims_are_permitted_example :
    all
      (permitted preemptor (quota_mode infos state preemptor))
      (sample_pod "team" "a" (pos 5) [] ∷ [])
    ≡ true
victims_are_permitted_example =
    victims_are_permitted int_framework (List (Pod ℤ)) room_for_two cycle any_selectors [] preemptor
      node_pods infos state (sample_pod "team" "a" (pos 5) [] ∷ []) 0 refl refl one_victim
