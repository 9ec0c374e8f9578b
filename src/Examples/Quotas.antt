-- ===== src/Examples/Quotas.antt =====
-- The theorems on quotas, for a quota of 3 cpus and pods of one cpu and one gpu.
use plugins_improve.Prelude.{
  ℤ, pos, InInt64, ◌≡◌, ◌≤ℤ◌, refl, arith, add64, sub64, wrap64, ◌+ℤ◌, ◌-ℤ◌, false, none, some,
  List, [], ◌∷◌, String, lookup, lookup_or, insert, delete, has,
}
use plugins_improve.Capacity.Resource.{
  Resource, zero_resource, Dim, cpu, memory, storage, pods, amount, scalar, Pod,
  compute_pod_resource_request,
}
use plugins_improve.Capacity.Quota.{
  ElasticQuotaInfo, cmp2, over_scalars, used_over_max_with, reserve_resource, unreserve_resource,
  add_scalars, sub_scalars, new_elastic_quota_info, add_pod_if_not_present, delete_pod_if_present,
}
use plugins_improve.Capacity.Quota.Reserving.{HasUniqueKeys, IsInt64, unreserve-reserve_resource}
use plugins_improve.Capacity.Quota.Limits.{amounts_within_max}
use plugins_improve.Capacity.Plugin.{
  ElasticQuota, on_quota, reserve, unreserve, add_pod, add_elastic_quota,
}
use plugins_improve.Capacity.Plugin.Accounting.{sum_of, Expected}
use plugins_improve.Capacity.Plugin.Trace.{
  Event, reserved, unreserved, pod_added, quota_added, step, run, used_is_the_sum,
}
use plugins_improve.Examples.Framework.{int_framework, sample_pod, add_list, raise_list, set_scalar}

abbrev one_cpu : List (String × ℤ)
one_cpu = ("cpu", pos 1000) ∷ ("gpu", pos 1) ∷ []

abbrev pod_a : Pod ℤ
pod_a = sample_pod "team" "a" (pos 5) one_cpu

abbrev pod_b : Pod ℤ
pod_b = sample_pod "team" "b" (pos 7) one_cpu

abbrev team_quota : ElasticQuota ℤ
team_quota = record {
  namespace = "team";
  min = some (("cpu", pos 2000) ∷ []);
  max = some (("cpu", pos 3000) ∷ []);
}

-- One cpu is expected under every key.
abbrev request_of : String → Resource
request_of key = record {
  milli_cpu = pos 1000;
  memory = pos 0;
  ephemeral_storage = pos 0;
  allowed_pod_number = pos 0;
  scalar_resources = ("gpu", pos 1) ∷ [];
}

request_of-InInt64 : (key : String) (d : Dim) → InInt64 (amount d (request_of key))
request_of-InInt64 key cpu = ground arith
request_of-InInt64 key memory = ground arith
request_of-InInt64 key storage = ground arith
request_of-InInt64 key pods = ground arith

abbrev sample_events : List (Event ℤ)
sample_events =
    quota_added team_quota
    ∷ reserved pod_a
    ∷ reserved pod_b
    ∷ pod_added none pod_b
    ∷ unreserved pod_a
    ∷ []

abbrev team_info : ElasticQuotaInfo
team_info = record {
  namespace = "team";
  pods = ("b", tt) ∷ [];
  min = some (record zero_resource { milli_cpu = pos 2000 });
  max = some (record zero_resource { milli_cpu = pos 3000 });
  used = record zero_resource { milli_cpu = pos 1000; scalar_resources = ("gpu", pos 1) ∷ [] };
}

compute_sample :
    (uid : String) (priority : ℤ)
    → compute_pod_resource_request int_framework (sample_pod "team" uid priority one_cpu)
      ≡ request_of uid
unfolding compute_pod_resource_request add_list raise_list set_scalar add64 insert wrap64 ◌+ℤ◌
    lookup_or lookup
compute_sample uid priority = refl

team_after_events : lookup "team" (run int_framework [] sample_events) ≡ some team_info
unfolding run step reserve lookup lookup_or has unreserve add_pod add_elastic_quota on_quota insert
    add_pod_if_not_present new_elastic_quota_info delete_pod_if_present delete add_list raise_list
    set_scalar compute_pod_resource_request reserve_resource unreserve_resource add_scalars
    sub_scalars add64 sub64 wrap64 ◌+ℤ◌ ◌-ℤ◌
team_after_events = refl

Expected-a : Expected int_framework request_of pod_a
Expected-a key k = compute_sample "a" (pos 5)

Expected-b : Expected int_framework request_of pod_b
Expected-b key k = compute_sample "b" (pos 7)

used_is_the_sum_example :
    ((d : Dim) → amount d team_info.used ≡ sum_of d request_of team_info.pods (pos 0))
    × HasUniqueKeys team_info.pods
used_is_the_sum_example =
    used_is_the_sum int_framework request_of sample_events "team" team_info request_of-InInt64
      (tt, (Expected-a, (Expected-b, (Expected-b, (Expected-a, tt))))) team_after_events

abbrev sample_max : Resource
sample_max = record zero_resource { milli_cpu = pos 3000; scalar_resources = ("gpu", pos 4) ∷ [] }

abbrev limited_info : ElasticQuotaInfo
limited_info = record team_info { max = some sample_max }

limited_lets_through : used_over_max_with limited_info (request_of "a") ≡ false
unfolding used_over_max_with cmp2 over_scalars lookup lookup_or add64 wrap64 ◌+ℤ◌
limited_lets_through = refl

request_of-HasUniqueKeys : HasUniqueKeys (request_of "a").scalar_resources
unfolding HasUniqueKeys has lookup
request_of-HasUniqueKeys = (refl, tt)

amounts_within_max_example :
    amount cpu (reserve_resource int_framework limited_info (request_of "a")).used ≤ℤ pos 3000
amounts_within_max_example =
    amounts_within_max int_framework limited_info (request_of "a") sample_max cpu refl
      limited_lets_through

request_of-IsInt64 : IsInt64 (request_of "a")
unfolding lookup_or lookup
request_of-IsInt64 = (λ d. request_of-InInt64 "a" d, λ name. ground arith)

unreserve-reserve_resource_example :
    let after =
      unreserve_resource int_framework
        (reserve_resource int_framework
          (record team_info { used = request_of "a" })
          (request_of "a"))
        (request_of "a") in
    ((d : Dim) → amount d after.used ≡ amount d (request_of "a"))
    × ((name : String) → scalar name after.used ≡ scalar name (request_of "a"))
unreserve-reserve_resource_example =
    unreserve-reserve_resource int_framework (record team_info { used = request_of "a" })
      (request_of "a") request_of-IsInt64 request_of-IsInt64 request_of-HasUniqueKeys
