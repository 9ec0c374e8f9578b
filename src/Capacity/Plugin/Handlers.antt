-- ===== src/Capacity/Plugin/Handlers.antt =====
-- Every quota stays accounted for under each handler of
-- pkg/capacityscheduling/capacity_scheduling.go.
use plugins_improve.Prelude.{
  ◌≡◌, refl, ◌∙◌, ap, pos, InInt64, Bool, true, false, Option, none, some, List, [], ◌∷◌, String,
  str_eq, lookup, insert, delete, has, lookup-insert, lookup-delete, arith, Option-cases, inl, inr,
  Bool-cases, if◌then◌else◌,
}
use mathlib.Core.Path.{subst}
use plugins_improve.Status.{Status, success, error}
use plugins_improve.Capacity.Resource.{
  Resource, zero_resource, Dim, cpu, memory, storage, pods, amount, Pod, FrameworkApi,
}
use plugins_improve.Capacity.Quota.{
  ElasticQuotaInfo, ElasticQuotaInfos, Result, ok, err, new_elastic_quota_info,
  add_pod_if_not_present, delete_pod_if_present,
}
use plugins_improve.Capacity.Quota.Reserving.{HasUniqueKeys}
use plugins_improve.Capacity.Plugin.{
  ElasticQuota, on_quota, or_unchanged, reserve, add_pod, delete_pod, update_pod, add_elastic_quota,
  update_elastic_quota, is_over, is_active,
}
use plugins_improve.Capacity.Plugin.Accounting.{
  sum_of, Accounted, OkAccounted, Expected, add_pod_if_not_present-Accounted,
  delete_pod_if_present-Accounted,
}

module _ (api : FrameworkApi) (request_of : String → Resource) where
  open api use {Q, new_resource-nil}

  abbrev pub AllAccounted : ElasticQuotaInfos → Type 0
  AllAccounted infos =
      (ns : String) (e : ElasticQuotaInfo) → lookup ns infos ≡ some e → Accounted request_of e

  pub insert-AllAccounted :
      (infos : ElasticQuotaInfos) (key : String) (e : ElasticQuotaInfo)
      → AllAccounted infos
      → Accounted request_of e
      → AllAccounted (insert key e infos)
  insert-AllAccounted infos key e a h ns e' l = elim (Bool-cases (str_eq key ns)) [
    | inl b ↦
        subst {A = ElasticQuotaInfo} (Accounted request_of) {x = e} {y = e'}
          (ground (arith, lookup-insert key ns e infos)) h
    | inr b ↦ a ns e' (ground (arith, lookup-insert key ns e infos))
  ]

  pub delete-AllAccounted :
      (infos : ElasticQuotaInfos) (key : String)
      → AllAccounted infos
      → AllAccounted (delete key infos)
  delete-AllAccounted infos key a ns e l = a ns e (ground (arith, lookup-delete key ns infos))

  new_elastic_quota_info-Accounted :
      (ns : String) (min max : Option (List (String × Q)))
      → Accounted request_of (new_elastic_quota_info api ns min max [])
  unfolding new_elastic_quota_info sum_of HasUniqueKeys
  new_elastic_quota_info-Accounted ns min max = (λ d. ap (amount d) new_resource-nil ∙ by_dim d, tt)
    where
      by_dim : (d : Dim) → amount d zero_resource ≡ pos 0
      by_dim cpu = refl
      by_dim memory = refl
      by_dim storage = refl
      by_dim pods = refl

  -- An operation on one quota that keeps it accounted.
  pub on_quota-AllAccounted :
      (infos : ElasticQuotaInfos) (ns : String) (f : ElasticQuotaInfo → Result ElasticQuotaInfo)
      → AllAccounted infos
      → ((e : ElasticQuotaInfo) → Accounted request_of e → OkAccounted request_of (f e))
      → AllAccounted (or_unchanged infos (on_quota ns f infos))
  unfolding on_quota
  on_quota-AllAccounted infos ns f a k = elim (Option-cases (lookup ns infos)) [
    | inl n ↦ rw (n, or_unchanged) a
    | inr (e, l) ↦ rw (l, or_unchanged) (written (f e) (k e (a ns e l)))
  ]
    where
      written :
          (r : Result ElasticQuotaInfo)
          → OkAccounted request_of r
          → AllAccounted
              (or_unchanged infos (elim r [ ok e' ↦ ok (insert ns e' infos) | err ↦ err ]))
      written (ok e') h = insert-AllAccounted infos ns e' a h
      written err h = a

  abbrev pub InRange : Type 0
  InRange = (key : String) (d : Dim) → InInt64 (amount d (request_of key))

  pub delete_pod-AllAccounted :
      (pod : Pod Q) (infos : ElasticQuotaInfos)
      → InRange
      → Expected api request_of pod
      → AllAccounted infos
      → AllAccounted (delete_pod api pod infos)
  unfolding delete_pod
  delete_pod-AllAccounted pod infos r x a =
      on_quota-AllAccounted infos pod.namespace (delete_pod_if_present api pod) a
        (λ e h. delete_pod_if_present-Accounted api request_of pod e x r h)

  pub add_pod-AllAccounted :
      (listed : Option (List (ElasticQuota Q))) (pod : Pod Q) (infos : ElasticQuotaInfos)
      → Expected api request_of pod
      → AllAccounted infos
      → AllAccounted (add_pod api listed pod infos)
  unfolding add_pod reserve
  add_pod-AllAccounted listed pod infos x a = elim (Bool-cases (has pod.namespace infos)) [
    | inl b ↦ rw b (
        on_quota-AllAccounted infos pod.namespace (add_pod_if_not_present api pod) a
          (λ e h. add_pod_if_not_present-Accounted api request_of pod e x h))
    | inr b ↦ rw b (from_list listed)
  ]
    where
      created : ElasticQuota Q → ElasticQuotaInfo
      created eq = new_elastic_quota_info api eq.namespace eq.min eq.max []

      inserted :
          (eq : ElasticQuota Q) (r : Result ElasticQuotaInfo)
          → OkAccounted request_of r
          → AllAccounted (elim r [
            | ok info' ↦ insert eq.namespace info' infos
            | err ↦ insert eq.namespace (created eq) infos
          ])
      inserted eq (ok info') h = insert-AllAccounted infos eq.namespace info' a h
      inserted eq err h =
          insert-AllAccounted infos eq.namespace (created eq) a
            (new_elastic_quota_info-Accounted eq.namespace eq.min eq.max)

      from_list :
          (l : Option (List (ElasticQuota Q)))
          → AllAccounted (elim l [
            | none ↦ infos
            | some eqs ↦ elim eqs [
              | [] ↦ infos
              | eq ∷ rest ↦ elim (add_pod_if_not_present api pod (created eq)) [
                | ok info' ↦ insert eq.namespace info' infos
                | err ↦ insert eq.namespace (created eq) infos
              ]
            ]
          ])
      from_list none = a
      from_list (some []) = a
      from_list (some (eq ∷ rest)) = inserted eq (add_pod_if_not_present api pod (created eq)) (
          add_pod_if_not_present-Accounted api request_of pod (created eq) x
            (new_elastic_quota_info-Accounted eq.namespace eq.min eq.max))

  pub reserve-AllAccounted :
      (pod : Pod Q) (infos : ElasticQuotaInfos)
      → Expected api request_of pod
      → AllAccounted infos
      → AllAccounted (reserve api pod infos).1
  unfolding reserve
  reserve-AllAccounted pod infos x a =
      logged (on_quota pod.namespace (add_pod_if_not_present api pod) infos) (
        on_quota-AllAccounted infos pod.namespace (add_pod_if_not_present api pod) a
          (λ e h. add_pod_if_not_present-Accounted api request_of pod e x h))
    where
      logged :
          (r : Result ElasticQuotaInfos)
          → AllAccounted (or_unchanged infos r)
          → AllAccounted
              (elim r as (λ q. Status × ElasticQuotaInfos) [
                | ok infos' ↦ (success, infos')
                | err ↦ (error, infos)
              ]).1
      logged (ok infos') h = h
      logged err h = h

  pub update_pod-AllAccounted :
      (old new : Pod Q) (infos : ElasticQuotaInfos)
      → InRange
      → Expected api request_of new
      → AllAccounted infos
      → AllAccounted (update_pod api old new infos)
  unfolding update_pod
  update_pod-AllAccounted old new infos r x a = by_phase (is_over old.phase) (is_active new.phase)
    where
      by_phase :
          (over active : Bool)
          → AllAccounted
              (if over then infos else if active then infos else delete_pod api new infos)
      by_phase true active = a
      by_phase false true = a
      by_phase false false = delete_pod-AllAccounted new infos r x a

  pub update_elastic_quota-AllAccounted :
      (old new : ElasticQuota Q) (infos : ElasticQuotaInfos)
      → AllAccounted infos
      → AllAccounted (update_elastic_quota api old new infos)
  unfolding update_elastic_quota
  update_elastic_quota-AllAccounted old new infos a =
      elim (Option-cases (lookup old.namespace infos)) [
        | inl n ↦ rw n (insert-AllAccounted infos new.namespace info a fresh)
        | inr (e, l) ↦ rw l (
            insert-AllAccounted infos new.namespace (record info { pods = e.pods; used = e.used }) a
              (a old.namespace e l))
      ]
    where
      info : ElasticQuotaInfo
      info = new_elastic_quota_info api new.namespace new.min new.max []

      fresh : Accounted request_of info
      fresh = new_elastic_quota_info-Accounted new.namespace new.min new.max

  pub add_elastic_quota-AllAccounted :
      (eq : ElasticQuota Q) (infos : ElasticQuotaInfos)
      → AllAccounted infos
      → AllAccounted (add_elastic_quota api eq infos)
  unfolding add_elastic_quota
  add_elastic_quota-AllAccounted eq infos a = elim (Bool-cases (has eq.namespace infos)) [
    | inl b ↦ rw b a
    | inr b ↦ rw b (
        insert-AllAccounted infos eq.namespace
          (new_elastic_quota_info api eq.namespace eq.min eq.max []) a
          (new_elastic_quota_info-Accounted eq.namespace eq.min eq.max))
  ]
