-- ===== src/Capacity/Plugin.antt =====
-- The extension points and the event handlers of
-- pkg/capacityscheduling/capacity_scheduling.go. Each handler holds the lock and is one step; the
-- pointers to quotas are entries of the map, which an operation writes back.
pub mod Accounting
pub mod Handlers
pub mod Trace
use plugins_improve.Prelude.{
  Bool, true, false, not, ◌&&◌, Option, none, some, List, [], ◌∷◌, String, str_eq, leb_ℤ, lookup,
  insert, delete, has, if◌then◌else◌,
}
use plugins_improve.Status.{Status, success, unschedulable, error}
use plugins_improve.Capacity.Resource.{
  Resource, zero_resource, Pod, Phase, pending, running, succeeded, failed, FrameworkApi,
  resource_list, compute_pod_resource_request,
}
use plugins_improve.Capacity.Quota.{
  ElasticQuotaInfo, ElasticQuotaInfos, Result, ok, err, clone, new_elastic_quota_info,
  used_over_max_with, used_over_min, aggregated_used_over_min_with, add_pod_if_not_present,
  delete_pod_if_present,
}

-- An ElasticQuota object.
pub record ElasticQuota (Q : Type 0) : Type 0 where
  pub namespace : String
  pub min : Option (List (String × Q))
  pub max : Option (List (String × Q))

pub record PreFilterState : Type 0 where
  pub pod_req : Resource
  pub nominated_pods_req_in_eq_with_pod_req : Resource
  pub nominated_pods_req_with_pod_req : Resource

-- The two entries of the cycle state that the plugin writes.
pub record CycleState : Type 0 where
  pub snapshot : Option ElasticQuotaInfos
  pub pre_filter_state : Option PreFilterState

-- An operation on the quota of a namespace, if there is one.
unfoldable pub on_quota :
    String
    → (ElasticQuotaInfo → Result ElasticQuotaInfo)
    → ElasticQuotaInfos
    → Result ElasticQuotaInfos
on_quota namespace f infos = elim (lookup namespace infos) [
  | none ↦ ok infos
  | some e ↦ elim (f e) [ ok e' ↦ ok (insert namespace e' infos) | err ↦ err ]
]

-- A handler that logs an error and goes on.
abbrev pub or_unchanged : ElasticQuotaInfos → Result ElasticQuotaInfos → ElasticQuotaInfos
or_unchanged infos (ok infos') = infos'
or_unchanged infos err = infos

unfoldable pub assigned_pod : {Q : Type 0} → Pod Q → Bool
assigned_pod pod = not (str_eq pod.node_name "")

abbrev pub is_over : Phase → Bool
is_over succeeded = true
is_over failed = true
is_over _ = false

abbrev pub is_active : Phase → Bool
is_active running = true
is_active pending = true
is_active _ = false

module _ (api : FrameworkApi) where
  open api use {Q, add}

  -- The loop over the nominated pods of one node.
  unfoldable pub add_nominated :
      ElasticQuotaInfos → Pod Q → List (Pod Q) → Resource × Resource → Resource × Resource
  add_nominated infos pod [] acc = acc
  add_nominated infos pod (p ∷ ps) acc = add_nominated infos pod ps (
      if str_eq p.uid pod.uid then acc else elim (lookup p.namespace infos) [
        | none ↦ acc
        | some info ↦
            let request = resource_list api (compute_pod_resource_request api p) in
            if str_eq p.namespace pod.namespace && leb_ℤ pod.priority p.priority
            then (add acc.0 request, add acc.1 request)
            else if not (str_eq p.namespace pod.namespace) && not (used_over_min info)
            then (acc.0, add acc.1 request)
            else acc
      ])

  add_all_nominated :
      ElasticQuotaInfos → Pod Q → List (List (Pod Q)) → Resource × Resource → Resource × Resource
  unfolding add_nominated
  add_all_nominated infos pod [] acc = acc
  add_all_nominated infos pod (ps ∷ nodes) acc =
      add_all_nominated infos pod nodes (add_nominated infos pod ps acc)

  unfoldable pub quota_state : ElasticQuotaInfos → Pod Q → List (List (Pod Q)) → PreFilterState
  unfolding add_all_nominated
  quota_state infos pod nodes =
      let pod_req = compute_pod_resource_request api pod in
      let nominated = add_all_nominated infos pod nodes (zero_resource, zero_resource) in
      record {
        pod_req = pod_req;
        nominated_pods_req_in_eq_with_pod_req = add nominated.0 (resource_list api pod_req);
        nominated_pods_req_with_pod_req = add nominated.1 (resource_list api pod_req);
      }

  unfoldable pub quota_verdict : ElasticQuotaInfos → ElasticQuotaInfo → PreFilterState → Status
  quota_verdict infos eq st =
      if used_over_max_with eq st.nominated_pods_req_in_eq_with_pod_req
      then unschedulable
      else if aggregated_used_over_min_with api infos st.nominated_pods_req_with_pod_req
      then unschedulable
      else success

  -- `nodes` is the nominated pods of each node of the snapshot, `none` where the list fails. No event
  -- comes between the snapshot and the reads of the plugin's own map.
  unfoldable pub pre_filter :
      ElasticQuotaInfos → Option (List (List (Pod Q))) → Pod Q → Status × CycleState
  unfolding quota_state quota_verdict clone
  pre_filter infos nodes pod =
      let snapshot = clone infos in
      elim (lookup pod.namespace snapshot) [
        | none ↦ (
          success,
          record {
            snapshot = some snapshot;
            pre_filter_state = some (record {
              pod_req = compute_pod_resource_request api pod;
              nominated_pods_req_in_eq_with_pod_req = zero_resource;
              nominated_pods_req_with_pod_req = zero_resource;
            });
          },
        )
        | some eq ↦ elim nodes [
          | none ↦ (error, record { snapshot = some snapshot; pre_filter_state = none })
          | some ns ↦
              let st = quota_state infos pod ns in
              (
                quota_verdict snapshot eq st,
                record { snapshot = some snapshot; pre_filter_state = some st },
              )
        ]
      ]

  -- The PreFilter extensions, on the snapshot of the cycle.
  unfoldable pub add_pod_extension : Pod Q → CycleState → Status × CycleState
  unfolding on_quota
  add_pod_extension pod c = elim c.snapshot [
    | none ↦ (error, c)
    | some infos ↦ (
      success,
      record c {
        snapshot =
            some
              (or_unchanged infos (on_quota pod.namespace (add_pod_if_not_present api pod) infos));
      },
    )
  ]

  unfoldable pub remove_pod_extension : Pod Q → CycleState → Status × CycleState
  unfolding on_quota
  remove_pod_extension pod c = elim c.snapshot [
    | none ↦ (error, c)
    | some infos ↦ (
      success,
      record c {
        snapshot =
            some
              (or_unchanged infos (on_quota pod.namespace (delete_pod_if_present api pod) infos));
      },
    )
  ]

  unfoldable pub reserve : Pod Q → ElasticQuotaInfos → Status × ElasticQuotaInfos
  unfolding on_quota
  reserve pod infos = elim (on_quota pod.namespace (add_pod_if_not_present api pod) infos) [
    | ok infos' ↦ (success, infos')
    | err ↦ (error, infos)
  ]

  unfoldable pub unreserve : Pod Q → ElasticQuotaInfos → ElasticQuotaInfos
  unfolding on_quota
  unreserve pod infos =
      or_unchanged infos (on_quota pod.namespace (delete_pod_if_present api pod) infos)

  -- One step, since the informer calls its handlers one after another; the source looks the quota up
  -- before it takes the lock.
  unfoldable pub add_elastic_quota : ElasticQuota Q → ElasticQuotaInfos → ElasticQuotaInfos
  unfolding has
  add_elastic_quota eq infos =
      if has eq.namespace infos
      then infos
      else insert eq.namespace (new_elastic_quota_info api eq.namespace eq.min eq.max []) infos

  unfoldable pub update_elastic_quota :
      ElasticQuota Q → ElasticQuota Q → ElasticQuotaInfos → ElasticQuotaInfos
  update_elastic_quota old new infos =
      let info = new_elastic_quota_info api new.namespace new.min new.max [] in
      insert new.namespace
        (elim (lookup old.namespace infos) [
          | none ↦ info
          | some e ↦ record info { pods = e.pods; used = e.used }
        ])
        infos

  unfoldable pub delete_elastic_quota : ElasticQuota Q → ElasticQuotaInfos → ElasticQuotaInfos
  delete_elastic_quota eq infos = delete eq.namespace infos

  -- `listed` is the client's list of the quotas in the pod's namespace, `none` where the call fails.
  unfoldable pub add_pod :
      Option (List (ElasticQuota Q)) → Pod Q → ElasticQuotaInfos → ElasticQuotaInfos
  unfolding on_quota has
  add_pod listed pod infos =
      if has pod.namespace infos
      then or_unchanged infos (on_quota pod.namespace (add_pod_if_not_present api pod) infos)
      else elim listed [
        | none ↦ infos
        | some eqs ↦ elim eqs [
          | [] ↦ infos
          | eq ∷ rest ↦
              let info = new_elastic_quota_info api eq.namespace eq.min eq.max [] in
              elim (add_pod_if_not_present api pod info) [
                | ok info' ↦ insert eq.namespace info' infos
                | err ↦ insert eq.namespace info infos
              ]
        ]
      ]

  unfoldable pub delete_pod : Pod Q → ElasticQuotaInfos → ElasticQuotaInfos
  unfolding on_quota
  delete_pod pod infos =
      or_unchanged infos (on_quota pod.namespace (delete_pod_if_present api pod) infos)

  unfoldable pub update_pod : Pod Q → Pod Q → ElasticQuotaInfos → ElasticQuotaInfos
  unfolding delete_pod
  update_pod old new infos =
      if is_over old.phase
      then infos
      else if is_active new.phase
      then infos
      else delete_pod new infos
