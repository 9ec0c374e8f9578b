-- ===== src/Capacity/Quota/Reserving.antt =====
-- What the reservations of one quota add up to (pkg/capacityscheduling/elasticquota.go).
use plugins_improve.Prelude.{
  ◌≡◌, refl, ◌∙◌, ℤ, InInt64, false, none, some, List, [], ◌∷◌, String, add64, sub64, sub64-add64,
  eq_iff, lookup, lookup_or, Option-cases, inl, inr, has, arith,
}
use plugins_improve.Capacity.Resource.{
  Resource, Dim, cpu, memory, storage, pods, amount, scalar, FrameworkApi,
}
use plugins_improve.Capacity.Quota.{
  raised, lowered, ElasticQuotaInfo, add_scalars, sub_scalars, reserve_resource, unreserve_resource,
}

-- No key occurs twice, as in every map.
unfoldable pub HasUniqueKeys {ℓ} : {V : Type ℓ} → List (String × V) → Type 0
HasUniqueKeys [] = Unit
HasUniqueKeys ((k, v) ∷ m) = (has k m ≡ false) × HasUniqueKeys m

module _ (api : FrameworkApi) where
  open api use {set_scalar, amount-set_scalar, scalar-set_scalar}

  pub amount-add_scalars :
      (d : Dim) (l : List (String × ℤ)) (r : Resource) → amount d (add_scalars api l r) ≡ amount d r
  unfolding add_scalars
  amount-add_scalars d [] r = refl
  amount-add_scalars d ((n, v) ∷ l) r = ground (
    arith,
    amount-add_scalars d l (set_scalar r n (add64 (scalar n r) v)),
    amount-set_scalar d r n (add64 (scalar n r) v),
  )

  pub amount-sub_scalars :
      (d : Dim) (l : List (String × ℤ)) (r : Resource) → amount d (sub_scalars api l r) ≡ amount d r
  unfolding sub_scalars
  amount-sub_scalars d [] r = refl
  amount-sub_scalars d ((n, v) ∷ l) r = ground (
    arith,
    amount-sub_scalars d l (set_scalar r n (sub64 (scalar n r) v)),
    amount-set_scalar d r n (sub64 (scalar n r) v),
  )

  pub scalar-add_scalars :
      (l : List (String × ℤ)) (r : Resource) (name : String)
      → HasUniqueKeys l
      → scalar name (add_scalars api l r)
        ≡ (elim (lookup name l) [ none ↦ scalar name r | some v ↦ add64 (scalar name r) v ])
  unfolding add_scalars HasUniqueKeys lookup has
  scalar-add_scalars [] r name u = refl
  scalar-add_scalars ((n, v) ∷ l) r name u = ground (
    arith,
    eq_iff n name,
    scalar-set_scalar r n name (add64 (scalar n r) v),
    scalar-add_scalars l (set_scalar r n (add64 (scalar n r) v)) name u.1,
  )

  pub scalar-sub_scalars :
      (l : List (String × ℤ)) (r : Resource) (name : String)
      → HasUniqueKeys l
      → scalar name (sub_scalars api l r)
        ≡ (elim (lookup name l) [ none ↦ scalar name r | some v ↦ sub64 (scalar name r) v ])
  unfolding sub_scalars HasUniqueKeys lookup has
  scalar-sub_scalars [] r name u = refl
  scalar-sub_scalars ((n, v) ∷ l) r name u = ground (
    arith,
    eq_iff n name,
    scalar-set_scalar r n name (sub64 (scalar n r) v),
    scalar-sub_scalars l (set_scalar r n (sub64 (scalar n r) v)) name u.1,
  )

  pub amount-reserve_resource :
      (d : Dim) (e : ElasticQuotaInfo) (req : Resource)
      → amount d (reserve_resource api e req).used ≡ add64 (amount d e.used) (amount d req)
  unfolding reserve_resource
  amount-reserve_resource d e req =
      amount-add_scalars d req.scalar_resources (raised e.used req) ∙ by_dim d
    where
      by_dim :
          (dim : Dim) → amount dim (raised e.used req) ≡ add64 (amount dim e.used) (amount dim req)
      by_dim cpu = refl
      by_dim memory = refl
      by_dim storage = refl
      by_dim pods = refl

  pub amount-unreserve_resource :
      (d : Dim) (e : ElasticQuotaInfo) (req : Resource)
      → amount d (unreserve_resource api e req).used ≡ sub64 (amount d e.used) (amount d req)
  unfolding unreserve_resource
  amount-unreserve_resource d e req =
      amount-sub_scalars d req.scalar_resources (lowered e.used req) ∙ by_dim d
    where
      by_dim :
          (dim : Dim) → amount dim (lowered e.used req) ≡ sub64 (amount dim e.used) (amount dim req)
      by_dim cpu = refl
      by_dim memory = refl
      by_dim storage = refl
      by_dim pods = refl

  pub scalar-reserve_resource :
      (name : String) (e : ElasticQuotaInfo) (req : Resource)
      → HasUniqueKeys req.scalar_resources
      → scalar name (reserve_resource api e req).used ≡ (elim (lookup name req.scalar_resources) [
        | none ↦ scalar name e.used
        | some v ↦ add64 (scalar name e.used) v
      ])
  unfolding reserve_resource
  scalar-reserve_resource name e req u =
      scalar-add_scalars req.scalar_resources (raised e.used req) name u

  pub scalar-unreserve_resource :
      (name : String) (e : ElasticQuotaInfo) (req : Resource)
      → HasUniqueKeys req.scalar_resources
      → scalar name (unreserve_resource api e req).used ≡ (elim (lookup name req.scalar_resources) [
        | none ↦ scalar name e.used
        | some v ↦ sub64 (scalar name e.used) v
      ])
  unfolding unreserve_resource
  scalar-unreserve_resource name e req u =
      scalar-sub_scalars req.scalar_resources (lowered e.used req) name u

-- The values are int64.
abbrev pub IsInt64 : Resource → Type 0
IsInt64 r = ((d : Dim) → InInt64 (amount d r)) × ((name : String) → InInt64 (scalar name r))

amount-undone :
    (api : FrameworkApi) (e : ElasticQuotaInfo) (req : Resource) (d : Dim)
    → InInt64 (amount d e.used)
    → InInt64 (amount d req)
    → amount d (unreserve_resource api (reserve_resource api e req) req).used ≡ amount d e.used
amount-undone api e req d h k = ground (
  arith,
  amount-reserve_resource api d e req,
  amount-unreserve_resource api d (reserve_resource api e req) req,
  sub64-add64 (amount d e.used) (amount d req) h k,
)

scalar-undone :
    (api : FrameworkApi) (e : ElasticQuotaInfo) (req : Resource) (name : String)
    → InInt64 (scalar name e.used)
    → InInt64 (scalar name req)
    → HasUniqueKeys req.scalar_resources
    → scalar name (unreserve_resource api (reserve_resource api e req) req).used
      ≡ scalar name e.used
unfolding lookup_or
scalar-undone api e req name h k u = elim (Option-cases (lookup name req.scalar_resources)) [
  | inl none_held ↦ ground (
    arith,
    scalar-reserve_resource api name e req u,
    scalar-unreserve_resource api name (reserve_resource api e req) req u,
  )
  | inr (v, held) ↦ ground (
    arith,
    scalar-reserve_resource api name e req u,
    scalar-unreserve_resource api name (reserve_resource api e req) req u,
    sub64-add64 (scalar name e.used) (scalar name req) h k,
  )
]

-- Taking the request of a pod back restores every resource of the used quota, also where a sum has
-- wrapped around, for int64 values and a request whose scalar resources have distinct names.
pub unreserve-reserve_resource :
    (api : FrameworkApi) (e : ElasticQuotaInfo) (req : Resource)
    → IsInt64 e.used
    → IsInt64 req
    → HasUniqueKeys req.scalar_resources
    → let after = unreserve_resource api (reserve_resource api e req) req in
      ((d : Dim) → amount d after.used ≡ amount d e.used)
      × ((name : String) → scalar name after.used ≡ scalar name e.used)
unreserve-reserve_resource api e req h k u = (
  λ d. amount-undone api e req d (h.0 d) (k.0 d),
  λ name. scalar-undone api e req name (h.1 name) (k.1 name) u,
)
