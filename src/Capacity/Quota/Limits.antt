-- ===== src/Capacity/Quota/Limits.antt =====
-- What the admission tests of a quota bound (pkg/capacityscheduling/elasticquota.go).
use plugins_improve.Prelude.{
  ◌≡◌, ℤ, ◌≤ℤ◌, false, some, List, [], ◌∷◌, String, ltb_ℤ, add64, add64_comm, lookup, lookup_or,
  eq_iff, arith,
}
use plugins_improve.Capacity.Resource.{
  Resource, Dim, cpu, memory, storage, pods, amount, scalar, FrameworkApi,
}
use plugins_improve.Capacity.Quota.{
  ElasticQuotaInfo, cmp2, over_scalars, used_over_max_with, reserve_resource, upper_bound_of_max,
}
use plugins_improve.Capacity.Quota.Reserving.{
  HasUniqueKeys, amount-reserve_resource, scalar-reserve_resource,
}

over_scalars_lem :
    (l : List (String × ℤ)) (x2 y : Resource) (bound : ℤ) (name : String) (v : ℤ)
    → over_scalars l x2 y bound ≡ false
    → lookup name l ≡ some v
    → ltb_ℤ (lookup_or name bound y.scalar_resources) (add64 v (scalar name x2)) ≡ false
unfolding over_scalars lookup
over_scalars_lem [] x2 y bound name v h k = ground arith
over_scalars_lem ((n, q) ∷ l) x2 y bound name v h k =
    ground (arith, eq_iff n name, over_scalars_lem l x2 y bound name v)

cmp2-amount :
    (d : Dim) (x1 x2 y : Resource) (bound : ℤ)
    → cmp2 x1 x2 y bound ≡ false
    → ltb_ℤ (amount d y) (add64 (amount d x1) (amount d x2)) ≡ false
unfolding cmp2
cmp2-amount cpu x1 x2 y bound h = ground arith
cmp2-amount memory x1 x2 y bound h = ground arith
cmp2-amount storage x1 x2 y bound h = ground arith
cmp2-amount pods x1 x2 y bound h = ground arith

cmp2-scalars :
    (x1 x2 y : Resource) (bound : ℤ)
    → cmp2 x1 x2 y bound ≡ false
    → over_scalars x1.scalar_resources x2 y bound ≡ false
unfolding cmp2
cmp2-scalars x1 x2 y bound h = ground arith

ltb_ℤ_false : (a b : ℤ) → ltb_ℤ a b ≡ false → b ≤ℤ a
ltb_ℤ_false a b h = ground arith

-- A reservation that the test against Max lets through leaves each of the four resources of the used
-- quota at or below Max.
pub amounts_within_max :
    (api : FrameworkApi) (e : ElasticQuotaInfo) (req max : Resource) (d : Dim)
    → e.max ≡ some max
    → used_over_max_with e req ≡ false
    → amount d (reserve_resource api e req).used ≤ℤ amount d max
unfolding used_over_max_with
amounts_within_max api e req max d m h =
    ltb_ℤ_false (amount d max) (amount d (reserve_resource api e req).used) (
      ground (
        arith,
        m,
        cmp2-amount d req e.used max upper_bound_of_max,
        amount-reserve_resource api d e req,
        add64_comm (amount d e.used) (amount d req),
      ))

-- It also leaves each scalar resource that the request names at or below its limit in Max, where
-- the limit of one that Max does not name is the largest int64, and the request's names are distinct.
pub scalars_within_max :
    (api : FrameworkApi) (e : ElasticQuotaInfo) (req max : Resource) (name : String) (v : ℤ)
    → e.max ≡ some max
    → used_over_max_with e req ≡ false
    → HasUniqueKeys req.scalar_resources
    → lookup name req.scalar_resources ≡ some v
    → scalar name (reserve_resource api e req).used
      ≤ℤ lookup_or name upper_bound_of_max max.scalar_resources
unfolding used_over_max_with
scalars_within_max api e req max name v m h u s =
    ltb_ℤ_false (lookup_or name upper_bound_of_max max.scalar_resources)
      (scalar name (reserve_resource api e req).used)
      (ground (
        arith,
        m,
        cmp2-scalars req e.used max upper_bound_of_max,
        over_scalars_lem req.scalar_resources e.used max upper_bound_of_max name v,
        scalar-reserve_resource api name e req u,
        add64_comm (scalar name e.used) v,
      ))
