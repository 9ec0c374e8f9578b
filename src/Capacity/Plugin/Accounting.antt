-- ===== src/Capacity/Plugin/Accounting.antt =====
-- The used quota against the recorded pods, for one quota
-- (pkg/capacityscheduling/elasticquota.go).
use plugins_improve.Prelude.{
  ◌≡◌, refl, ◌∙◌, ap, ℤ, pos, InInt64, true, false, some, [], ◌∷◌, String, add64, sub64,
  sub64-add64, add64-sub64, add64-InInt64, eq_iff, lookup, insert, delete, has, arith, has-insert,
  has-delete, Option-cases, inl, inr, Bool-cases,
}
use plugins_improve.Capacity.Resource.{
  Resource, Dim, amount, Pod, FrameworkApi, compute_pod_resource_request,
}
use plugins_improve.Capacity.Quota.{
  PodSet, ElasticQuotaInfo, Result, ok, err, reserve_resource, unreserve_resource,
  add_pod_if_not_present, delete_pod_if_present,
}
use plugins_improve.Capacity.Quota.Reserving.{
  HasUniqueKeys, amount-reserve_resource, amount-unreserve_resource,
}

-- The sum of one resource over the recorded pods, where `request_of` is what was requested under a
-- key.
unfoldable pub sum_of : Dim → (String → Resource) → PodSet → ℤ → ℤ
sum_of d request_of [] acc = acc
sum_of d request_of ((key, u) ∷ ks) acc =
    sum_of d request_of ks (add64 acc (amount d (request_of key)))

-- The used quota is that sum, and no pod is recorded twice.
abbrev pub Accounted : (String → Resource) → ElasticQuotaInfo → Type 0
Accounted request_of e =
    ((d : Dim) → amount d e.used ≡ sum_of d request_of e.pods (pos 0)) × HasUniqueKeys e.pods

sum_of-InInt64 :
    (d : Dim) (request_of : String → Resource) (ks : PodSet) (acc : ℤ)
    → InInt64 acc
    → InInt64 (sum_of d request_of ks acc)
unfolding sum_of
sum_of-InInt64 d request_of [] acc h = h
sum_of-InInt64 d request_of ((k, u) ∷ ks) acc h =
    sum_of-InInt64 d request_of ks (add64 acc (amount d (request_of k)))
      (add64-InInt64 acc (amount d (request_of k)))

sum_of-insert :
    (d : Dim) (request_of : String → Resource) (ks : PodSet) (acc : ℤ) (key : String)
    → has key ks ≡ false
    → sum_of d request_of (insert key tt ks) acc
      ≡ add64 (sum_of d request_of ks acc) (amount d (request_of key))
unfolding sum_of insert has lookup
sum_of-insert d request_of [] acc key h = refl
sum_of-insert d request_of ((k, u) ∷ ks) acc key h =
    ground (arith, sum_of-insert d request_of ks (add64 acc (amount d (request_of k))) key)

sum_of-sub64 :
    (d : Dim) (request_of : String → Resource) (ks : PodSet) (acc z : ℤ)
    → sum_of d request_of ks (sub64 acc z) ≡ sub64 (sum_of d request_of ks acc) z
unfolding sum_of
sum_of-sub64 d request_of [] acc z = refl
sum_of-sub64 d request_of ((k, u) ∷ ks) acc z =
    ap (sum_of d request_of ks) (add64-sub64 acc z (amount d (request_of k)))
    ∙ sum_of-sub64 d request_of ks (add64 acc (amount d (request_of k))) z

delete_id : (key : String) (ks : PodSet) → has key ks ≡ false → delete key ks ≡ ks
unfolding delete has lookup
delete_id key [] h = refl
delete_id key ((k, u) ∷ ks) h = ground (arith, delete_id key ks)

sum_of-delete :
    (d : Dim) (request_of : String → Resource) (ks : PodSet) (acc : ℤ) (key : String)
    → InInt64 acc
    → InInt64 (amount d (request_of key))
    → HasUniqueKeys ks
    → has key ks ≡ true
    → sum_of d request_of (delete key ks) acc
      ≡ sub64 (sum_of d request_of ks acc) (amount d (request_of key))
unfolding sum_of delete has lookup HasUniqueKeys
sum_of-delete d request_of [] acc key r q u h = ground arith
sum_of-delete d request_of ((k, w) ∷ ks) acc key r q u h = ground (
  arith,
  eq_iff k key,
  delete_id key ks,
  sub64-add64 acc (amount d (request_of key)),
  add64-InInt64 acc (amount d (request_of k)),
  sum_of-sub64 d request_of ks (add64 acc (amount d (request_of key))) (amount d (request_of key)),
  sum_of-delete d request_of ks (add64 acc (amount d (request_of k))) key,
)

insert-HasUniqueKeys :
    (key : String) (ks : PodSet) → HasUniqueKeys ks → HasUniqueKeys (insert key tt ks)
unfolding HasUniqueKeys insert has lookup
insert-HasUniqueKeys key [] u = (refl, tt)
insert-HasUniqueKeys key ((k, w) ∷ ks) u =
    ground (arith, eq_iff k key, eq_iff key k, has-insert key k tt ks, insert-HasUniqueKeys key ks)

delete-HasUniqueKeys :
    (key : String) (ks : PodSet) → HasUniqueKeys ks → HasUniqueKeys (delete key ks)
unfolding HasUniqueKeys delete
delete-HasUniqueKeys key [] u = tt
delete-HasUniqueKeys key ((k, w) ∷ ks) u =
    ground (arith, has-delete key k ks, delete-HasUniqueKeys key ks)

-- The same of what an operation returns, which is nothing where it fails.
abbrev pub OkAccounted : (String → Resource) → Result ElasticQuotaInfo → Type 0
OkAccounted request_of (ok e) = Accounted request_of e
OkAccounted request_of err = Unit

module _ (api : FrameworkApi) (request_of : String → Resource) where
  open api use {Q, get_pod_key}

  -- The pod requests what is expected under its key.
  abbrev pub Expected : Pod Q → Type 0
  Expected pod =
      (key : String)
      → get_pod_key pod ≡ some key
      → compute_pod_resource_request api pod ≡ request_of key

  -- The quota with the pod recorded, and without it.
  abbrev recorded : String → Pod Q → ElasticQuotaInfo → ElasticQuotaInfo
  recorded key pod e =
      reserve_resource api (record e { pods = insert key tt e.pods })
        (compute_pod_resource_request api pod)

  abbrev forgotten : String → Pod Q → ElasticQuotaInfo → ElasticQuotaInfo
  forgotten key pod e =
      unreserve_resource api (record e { pods = delete key e.pods })
        (compute_pod_resource_request api pod)

  recorded-Accounted :
      (key : String) (pod : Pod Q) (e : ElasticQuotaInfo)
      → compute_pod_resource_request api pod ≡ request_of key
      → has key e.pods ≡ false
      → Accounted request_of e
      → Accounted request_of (recorded key pod e)
  unfolding reserve_resource
  recorded-Accounted key pod e x b (s, u) = (
    λ d. ground (
      arith,
      x,
      s d,
      sum_of-insert d request_of e.pods (pos 0) key b,
      amount-reserve_resource api d (record e { pods = insert key tt e.pods })
          (compute_pod_resource_request api pod),
    ),
    insert-HasUniqueKeys key e.pods u,
  )

  forgotten-Accounted :
      (key : String) (pod : Pod Q) (e : ElasticQuotaInfo)
      → compute_pod_resource_request api pod ≡ request_of key
      → ((d : Dim) → InInt64 (amount d (request_of key)))
      → has key e.pods ≡ true
      → Accounted request_of e
      → Accounted request_of (forgotten key pod e)
  unfolding unreserve_resource
  forgotten-Accounted key pod e x r b (s, u) = (
    λ d. ground (
      arith,
      x,
      s d,
      sum_of-delete d request_of e.pods (pos 0) key (omega arith, omega arith) (r d) u b,
      amount-unreserve_resource api d (record e { pods = delete key e.pods })
          (compute_pod_resource_request api pod),
    ),
    delete-HasUniqueKeys key e.pods u,
  )

  pub add_pod_if_not_present-Accounted :
      (pod : Pod Q) (e : ElasticQuotaInfo)
      → Expected pod
      → Accounted request_of e
      → OkAccounted request_of (add_pod_if_not_present api pod e)
  unfolding add_pod_if_not_present
  add_pod_if_not_present-Accounted pod e x a = elim (Option-cases (get_pod_key pod)) [
    | inl n ↦ rw (n, OkAccounted) tt
    | inr (key, k) ↦ elim (Bool-cases (has key e.pods)) [
      | inl b ↦ rw (k, b, OkAccounted) a
      | inr b ↦ rw (k, b, OkAccounted) (recorded-Accounted key pod e (x key k) b a)
    ]
  ]

  pub delete_pod_if_present-Accounted :
      (pod : Pod Q) (e : ElasticQuotaInfo)
      → Expected pod
      → ((key : String) (d : Dim) → InInt64 (amount d (request_of key)))
      → Accounted request_of e
      → OkAccounted request_of (delete_pod_if_present api pod e)
  unfolding delete_pod_if_present
  delete_pod_if_present-Accounted pod e x r a = elim (Option-cases (get_pod_key pod)) [
    | inl n ↦ rw (n, OkAccounted) tt
    | inr (key, k) ↦ elim (Bool-cases (has key e.pods)) [
      | inl b ↦ rw (k, b, OkAccounted) (forgotten-Accounted key pod e (x key k) (r key) b a)
      | inr b ↦ rw (k, b, OkAccounted) a
    ]
  ]
