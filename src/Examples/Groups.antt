-- ===== src/Examples/Groups.antt =====
-- The theorems on the controllers, for a group of two pods and a quota of one namespace.
use plugins_improve.Prelude.{
  ℤ, pos, ◌≡◌, ◌+ℤ◌, ◌-ℤ◌, wrap32, keep, lookup_or, lookup, sort_slice, refl, arith, str_eq, true,
  false, some, List, [], ◌∷◌, String, if◌then◌else◌,
}
use plugins_improve.Controllers.PodGroup.{
  Phase, fresh, scheduling, running, PodPhase, pod_running, Pod, PodGroup, pod_group_label,
  reconcile_active, reconcile, get_pod_group_label, get_current_pod_stats,
}
use plugins_improve.Controllers.PodGroup.Phases.{
  number, is_running, is_succeeded, is_failed, phase_for, reconcile_active_lem, run, run_total,
}
use plugins_improve.Controllers.Usage.{QuotaApi, ElasticQuota, larger, compute_elastic_quota_used}
use plugins_improve.Controllers.Usage.{Pod as QuotaPod}
use plugins_improve.Controllers.Usage.Sums.{total_from, compute_elastic_quota_used_lem}

abbrev group_pod : PodPhase → Pod
group_pod phase = record {
  namespace = "shop";
  phase = phase;
  labels = (pod_group_label, "pg") ∷ [];
  owner_references = "job" ∷ [];
}

abbrev group : Phase → PodGroup
group phase = record {
  name = "pg";
  namespace = "shop";
  creation_timestamp = pos 0;
  min_member = pos 2;
  phase = phase;
  occupied_by = "";
  running_pods = pos 0;
  succeeded_pods = pos 0;
  failed_pods = pos 0;
  schedule_start_time = pos 0;
}

abbrev two_running : List Pod
two_running = group_pod pod_running ∷ group_pod pod_running ∷ []

reconcile_active_lem_example :
    let after = reconcile_active two_running (group scheduling) in
    (after.phase
      ≡ phase_for 2 2
          (number is_running two_running)
          (number is_succeeded two_running)
          (number is_failed two_running))
    × (after.running_pods ≡ pos (number is_running two_running))
    × (after.succeeded_pods ≡ pos (number is_succeeded two_running))
    × (after.failed_pods ≡ pos (number is_failed two_running))
reconcile_active_lem_example =
    reconcile_active_lem two_running (group scheduling) 2 refl (omega arith)

run_total_example :
    (after : PodGroup) × (run ([] ∷ two_running ∷ two_running ∷ []) (group fresh) ≡ some after)
    × (after.min_member ≡ pos 2)
run_total_example = run_total ([] ∷ two_running ∷ two_running ∷ []) (group fresh) (omega arith)

abbrev group_at_work : PodGroup
group_at_work = record (group running) { running_pods = pos 2; occupied_by = "shop/job" }

group_runs : run ([] ∷ two_running ∷ two_running ∷ []) (group fresh) ≡ some group_at_work
unfolding run reconcile ◌-ℤ◌ keep get_pod_group_label lookup_or lookup get_current_pod_stats
    sort_slice wrap32 ◌+ℤ◌
group_runs = refl

abbrev cpu_amount : String → ℤ → ℤ
cpu_amount name l = if str_eq name "cpu" then l else pos 0

cpu_zero : (name : String) → cpu_amount name (pos 0) ≡ pos 0
cpu_zero name = ground arith

cpu_add :
    (name : String) (a b : ℤ) → cpu_amount name (a +ℤ b) ≡ cpu_amount name a +ℤ cpu_amount name b
unfolding ◌+ℤ◌
cpu_add name a b = ground arith

cpu_max :
    (name : String) (a b : ℤ)
    → cpu_amount name (larger a b) ≡ larger (cpu_amount name a) (cpu_amount name b)
cpu_max name a b = ground arith

-- Lists of one resource.
abbrev cpu_lists : QuotaApi
cpu_lists = record {
  L = ℤ;
  amount = cpu_amount;
  empty = pos 0;
  add = ◌+ℤ◌;
  max = larger;
  resource_names = λ l. "cpu" ∷ [];
  insert_zero = λ name l. pos 0;
  deep_equal = λ a b. false;
  amount-empty = cpu_zero;
  amount-insert_zero = λ name other l h. cpu_zero other;
  amount-add = cpu_add;
  amount-max = cpu_max;
}

abbrev quota_pod : QuotaPod ℤ
quota_pod = record {
  running = true;
  containers = pos 500 ∷ pos 250 ∷ [];
  init_containers = pos 600 ∷ [];
  overhead = some (pos 100);
}

abbrev cpu_quota : ElasticQuota ℤ
cpu_quota = record { min = pos 1000; max = pos 2000; used = pos 0 }

compute_elastic_quota_used_lem_example :
    (used : ℤ) × (compute_elastic_quota_used cpu_lists (some (quota_pod ∷ [])) cpu_quota
      ≡ some used)
    × (cpu_amount "cpu" used ≡ total_from cpu_lists "cpu" (pos 0) (quota_pod ∷ []))
compute_elastic_quota_used_lem_example =
    compute_elastic_quota_used_lem cpu_lists "cpu" (quota_pod ∷ []) cpu_quota
