-- ===== src/Capacity/Plugin/Trace.antt =====
-- The quotas of pkg/capacityscheduling/capacity_scheduling.go under any sequence of scheduling cycles
-- and informer events.
use plugins_improve.Prelude.{
  ◌≡◌, pos, InInt64, Option, some, List, [], ◌∷◌, String, All, lookup, arith,
}
use plugins_improve.Capacity.Resource.{Resource, Dim, amount, Pod, FrameworkApi}
use plugins_improve.Capacity.Quota.{ElasticQuotaInfo, ElasticQuotaInfos}
use plugins_improve.Capacity.Quota.Reserving.{HasUniqueKeys}
use plugins_improve.Capacity.Plugin.{
  ElasticQuota, reserve, unreserve, add_pod, delete_pod, update_pod, add_elastic_quota,
  update_elastic_quota, delete_elastic_quota,
}
use plugins_improve.Capacity.Plugin.Accounting.{sum_of, Expected}
use plugins_improve.Capacity.Plugin.Handlers.{
  AllAccounted, InRange, delete-AllAccounted, delete_pod-AllAccounted, add_pod-AllAccounted,
  reserve-AllAccounted, update_pod-AllAccounted, update_elastic_quota-AllAccounted,
  add_elastic_quota-AllAccounted,
}

pub data Event (Q : Type 0) : Type 0 where
  reserved unreserved pod_deleted : Pod Q → Event Q
  pod_added : Option (List (ElasticQuota Q)) → Pod Q → Event Q
  pod_updated : Pod Q → Pod Q → Event Q
  quota_added quota_deleted : ElasticQuota Q → Event Q
  quota_updated : ElasticQuota Q → ElasticQuota Q → Event Q

module _ (api : FrameworkApi) where
  open api use {Q}

  unfoldable pub step : ElasticQuotaInfos → Event Q → ElasticQuotaInfos
  step infos (reserved pod) = (reserve api pod infos).1
  step infos (unreserved pod) = unreserve api pod infos
  step infos (pod_deleted pod) = delete_pod api pod infos
  step infos (pod_added listed pod) = add_pod api listed pod infos
  step infos (pod_updated old new) = update_pod api old new infos
  step infos (quota_added eq) = add_elastic_quota api eq infos
  step infos (quota_deleted eq) = delete_elastic_quota api eq infos
  step infos (quota_updated old new) = update_elastic_quota api old new infos

  unfoldable pub run : ElasticQuotaInfos → List (Event Q) → ElasticQuotaInfos
  run infos [] = infos
  run infos (e ∷ es) = run (step infos e) es

module _ (api : FrameworkApi) (request_of : String → Resource) where
  open api use {Q, new_resource-nil}

  -- The pod of the event requests what is expected under its key.
  abbrev pub ExpectedEvent : Event Q → Type 0
  ExpectedEvent (reserved pod) = Expected api request_of pod
  ExpectedEvent (unreserved pod) = Expected api request_of pod
  ExpectedEvent (pod_deleted pod) = Expected api request_of pod
  ExpectedEvent (pod_added listed pod) = Expected api request_of pod
  ExpectedEvent (pod_updated old new) = Expected api request_of new
  ExpectedEvent (quota_added eq) = Unit
  ExpectedEvent (quota_deleted eq) = Unit
  ExpectedEvent (quota_updated old new) = Unit

  step-AllAccounted :
      (infos : ElasticQuotaInfos) (e : Event Q)
      → InRange api request_of
      → ExpectedEvent e
      → AllAccounted api request_of infos
      → AllAccounted api request_of (step api infos e)
  unfolding step unreserve delete_pod delete_elastic_quota
  step-AllAccounted infos (reserved pod) r x a = reserve-AllAccounted api request_of pod infos x a
  step-AllAccounted infos (unreserved pod) r x a =
      delete_pod-AllAccounted api request_of pod infos r x a
  step-AllAccounted infos (pod_deleted pod) r x a =
      delete_pod-AllAccounted api request_of pod infos r x a
  step-AllAccounted infos (pod_added listed pod) r x a =
      add_pod-AllAccounted api request_of listed pod infos x a
  step-AllAccounted infos (pod_updated old new) r x a =
      update_pod-AllAccounted api request_of old new infos r x a
  step-AllAccounted infos (quota_added eq) r x a =
      add_elastic_quota-AllAccounted api request_of eq infos a
  step-AllAccounted infos (quota_deleted eq) r x a =
      delete-AllAccounted api request_of infos eq.namespace a
  step-AllAccounted infos (quota_updated old new) r x a =
      update_elastic_quota-AllAccounted api request_of old new infos a

  run-AllAccounted :
      (infos : ElasticQuotaInfos) (es : List (Event Q))
      → InRange api request_of
      → All ExpectedEvent es
      → AllAccounted api request_of infos
      → AllAccounted api request_of (run api infos es)
  unfolding run
  run-AllAccounted infos [] r x a = a
  run-AllAccounted infos (e ∷ es) r x a =
      run-AllAccounted (step api infos e) es r x.1 (step-AllAccounted infos e r x.0 a)

-- From no quotas, whatever cycles and events follow, the used cpu, memory, storage and pods of a quota
-- are the int64 sums of the requests of the pods it records, none of which is recorded twice. The
-- request of a pod is the same in every event that names its key, and its values are int64.
pub used_is_the_sum :
    (api : FrameworkApi) (request_of : String → Resource) (es : List (Event api.Q)) (ns : String)
    (e : ElasticQuotaInfo)
    → ((key : String) (d : Dim) → InInt64 (amount d (request_of key)))
    → All (ExpectedEvent api request_of) es
    → lookup ns (run api [] es) ≡ some e
    → ((d : Dim) → amount d e.used ≡ sum_of d request_of e.pods (pos 0)) × HasUniqueKeys e.pods
unfolding lookup
used_is_the_sum api request_of es ns e r x l =
    run-AllAccounted api request_of [] es r x (λ k q h. ground arith) ns e l
