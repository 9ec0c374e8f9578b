-- ===== src/Controllers/Usage/Sums.antt =====
-- The usage that the elastic quota controller writes (pkg/controllers/elasticquota_controller.go).
use plugins_improve.Prelude.{
  ℤ, pos, ◌≡◌, refl, ◌∙◌, ap, ◌+ℤ◌, some, List, [], ◌∷◌, String, arith, if◌then◌else◌,
}
use plugins_improve.Controllers.Usage.{
  QuotaApi, Pod, ElasticQuota, larger, add_containers, max_containers, compute_pod_resource_request,
  zero_names, new_zero_used, add_running, compute_elastic_quota_used,
}

module _ (api : QuotaApi) (name : String) where
  open api use {L, amount, empty, amount-empty, amount-insert_zero, amount-add, amount-max}

  -- The amount of the resource in the containers, added up from a start, and the largest.
  unfoldable pub sum_from : ℤ → List L → ℤ
  sum_from z [] = z
  sum_from z (c ∷ cs) = sum_from (z +ℤ amount name c) cs

  unfoldable pub max_from : ℤ → List L → ℤ
  max_from z [] = z
  max_from z (c ∷ cs) = max_from (larger z (amount name c)) cs

  -- What a pod needs of the resource: its containers together, or an init container that is larger.
  abbrev pub needs : Pod L → ℤ
  needs pod = larger (sum_from (pos 0) pod.containers) (max_from (pos 0) pod.init_containers)

  unfoldable pub total_from : ℤ → List (Pod L) → ℤ
  total_from z [] = z
  total_from z (p ∷ ps) = total_from (if p.running then z +ℤ needs p else z) ps

  amount-add_containers :
      (cs : List L) (r : L) → amount name (add_containers api cs r) ≡ sum_from (amount name r) cs
  unfolding add_containers sum_from
  amount-add_containers [] r = refl
  amount-add_containers (c ∷ cs) r =
      amount-add_containers cs (api.add r c) ∙ ap (λ z. sum_from z cs) (amount-add name r c)

  amount-max_containers :
      (cs : List L) (r : L) → amount name (max_containers api cs r) ≡ max_from (amount name r) cs
  unfolding max_containers max_from
  amount-max_containers [] r = refl
  amount-max_containers (c ∷ cs) r =
      amount-max_containers cs (api.max r c) ∙ ap (λ z. max_from z cs) (amount-max name r c)

  amount-compute_pod_resource_request :
      (pod : Pod L) → amount name (compute_pod_resource_request api pod) ≡ needs pod
  unfolding compute_pod_resource_request
  amount-compute_pod_resource_request pod = ground (
    arith,
    amount-empty name,
    amount-max name (add_containers api pod.containers empty)
        (max_containers api pod.init_containers empty),
    amount-add_containers pod.containers empty,
    amount-max_containers pod.init_containers empty,
  )

  amount-zero_names :
      (ns : List String) (res : L)
      → amount name res ≡ pos 0
      → amount name (zero_names api ns res) ≡ pos 0
  unfolding zero_names
  amount-zero_names [] res h = h
  amount-zero_names (n ∷ ns) res h =
      amount-zero_names ns (api.insert_zero n res) (amount-insert_zero n name res h)

  amount-add_running :
      (ps : List (Pod L)) (used : L)
      → amount name (add_running api ps used) ≡ total_from (amount name used) ps
  unfolding add_running total_from
  amount-add_running [] used = refl
  amount-add_running (p ∷ ps) used = ground (
    arith,
    amount-add name used (compute_pod_resource_request api p),
    amount-compute_pod_resource_request p,
    amount-add_running ps used,
    amount-add_running ps (api.add used (compute_pod_resource_request api p)),
  )

-- The usage that the controller computes is, in every resource, the sum over the running pods of the
-- namespace of what each needs: its containers together, or an init container that is larger. The
-- overhead of a pod does not count.
pub compute_elastic_quota_used_lem :
    (api : QuotaApi) (name : String) (pods : List (Pod api.L)) (eq : ElasticQuota api.L)
    → (used : api.L) × (compute_elastic_quota_used api (some pods) eq ≡ some used)
      × (api.amount name used ≡ total_from api name (pos 0) pods)
unfolding compute_elastic_quota_used new_zero_used
compute_elastic_quota_used_lem api name pods eq = (
  add_running api pods zero_used,
  refl,
  amount-add_running api name pods zero_used ∙ ap (λ z. total_from api name z pods) start,
)
  where
    zero_used : api.L
    zero_used =
        zero_names api (api.resource_names eq.max)
          (zero_names api (api.resource_names eq.min) api.empty)

    start : api.amount name zero_used ≡ pos 0
    start =
        amount-zero_names api name (api.resource_names eq.max)
          (zero_names api (api.resource_names eq.min) api.empty)
          (amount-zero_names api name (api.resource_names eq.min) api.empty (api.amount-empty name))
