-- ===== src/Capacity/Quota.antt =====
-- pkg/capacityscheduling/elasticquota.go: the accounting of one quota and of all quotas.
pub mod Reserving
pub mod Limits
use plugins_improve.Prelude.{
  ◌-◌, ◌^◌, ℤ, pos, Bool, true, false, Option, none, some, List, [], ◌∷◌, map, String, add64, sub64,
  ltb_ℤ, lookup_or, insert, delete, has, if◌then◌else◌,
}
use plugins_improve.Capacity.Resource.{
  Resource, zero_resource, scalar, Pod, FrameworkApi, resource_list, compute_pod_resource_request,
}

abbrev pub upper_bound_of_max : ℤ
upper_bound_of_max = pos (2 ^ 63 - 1)

abbrev pub lower_bound_of_min : ℤ
lower_bound_of_min = pos 0

-- `sets.Set[string]`, a map to the empty struct.
abbrev pub PodSet : Type 0
PodSet = List (String × Unit {0})

pub record ElasticQuotaInfo : Type 0 where
  pub namespace : String
  pub pods : PodSet
  pub min : Option Resource
  pub max : Option Resource
  pub used : Resource

abbrev pub ElasticQuotaInfos : Type 0
ElasticQuotaInfos = List (String × ElasticQuotaInfo)

-- A call that may fail on the pod's key.
pub data Result (A : Type 0) : Type 0 where
  ok : A → Result A
  err : Result A

unfoldable pub over_scalars : List (String × ℤ) → Resource → Resource → ℤ → Bool
over_scalars [] x2 y bound = false
over_scalars ((name, quant) ∷ rest) x2 y bound =
    let more = over_scalars rest x2 y bound in
    if ltb_ℤ (lookup_or name bound y.scalar_resources) (add64 quant (scalar name x2))
    then true
    else more

unfoldable pub cmp2 : Resource → Resource → Resource → ℤ → Bool
unfolding over_scalars
cmp2 x1 x2 y bound =
    if ltb_ℤ y.milli_cpu (add64 x1.milli_cpu x2.milli_cpu)
    then true
    else if ltb_ℤ y.memory (add64 x1.memory x2.memory)
    then true
    else if ltb_ℤ y.ephemeral_storage (add64 x1.ephemeral_storage x2.ephemeral_storage)
    then true
    else if ltb_ℤ y.allowed_pod_number (add64 x1.allowed_pod_number x2.allowed_pod_number)
    then true
    else over_scalars x1.scalar_resources x2 y bound

unfoldable pub cmp : Resource → Resource → ℤ → Bool
unfolding cmp2
cmp x y bound = cmp2 x zero_resource y bound

unfoldable pub used_over_min_with : ElasticQuotaInfo → Resource → Bool
unfolding cmp2
used_over_min_with e pod_request = elim e.min [
  | none ↦ true
  | some min ↦ cmp2 pod_request e.used min lower_bound_of_min
]

unfoldable pub used_over_max_with : ElasticQuotaInfo → Resource → Bool
unfolding cmp2
used_over_max_with e pod_request = elim e.max [
  | none ↦ false
  | some max ↦ cmp2 pod_request e.used max upper_bound_of_max
]

unfoldable pub used_over_min : ElasticQuotaInfo → Bool
unfolding cmp
used_over_min e = elim e.min [ none ↦ true | some min ↦ cmp e.used min lower_bound_of_min ]

-- The copies of the resources and of the set are values here.
unfoldable pub clone_info : ElasticQuotaInfo → ElasticQuotaInfo
clone_info e = record {
  namespace = e.namespace;
  pods = e.pods;
  min = e.min;
  max = e.max;
  used = e.used;
}

unfoldable pub clone : ElasticQuotaInfos → ElasticQuotaInfos
unfolding clone_info
clone e = map (λ entry. (entry.0, clone_info entry.1)) e

-- The four fields after `reserveResource` and `unreserveResource`.
abbrev pub raised : Resource → Resource → Resource
raised used request = record used {
  memory = add64 used.memory request.memory;
  milli_cpu = add64 used.milli_cpu request.milli_cpu;
  ephemeral_storage = add64 used.ephemeral_storage request.ephemeral_storage;
  allowed_pod_number = add64 used.allowed_pod_number request.allowed_pod_number;
}

abbrev pub lowered : Resource → Resource → Resource
lowered used request = record used {
  memory = sub64 used.memory request.memory;
  milli_cpu = sub64 used.milli_cpu request.milli_cpu;
  ephemeral_storage = sub64 used.ephemeral_storage request.ephemeral_storage;
  allowed_pod_number = sub64 used.allowed_pod_number request.allowed_pod_number;
}

module _ (api : FrameworkApi) where
  open api use {
    Q, new_quantity, new_milli_quantity, resource_cpu, resource_memory, resource_ephemeral_storage,
    new_resource, add, set_scalar, get_pod_key,
  }

  unfoldable pub make_resource_list_for_bound : ℤ → List (String × Q)
  unfolding insert
  make_resource_list_for_bound bound = insert resource_ephemeral_storage (new_quantity true bound) (
      insert resource_memory (new_quantity true bound)
        (insert resource_cpu (new_milli_quantity bound) []))

  abbrev or_bound : Option (List (String × Q)) → ℤ → List (String × Q)
  or_bound none bound = make_resource_list_for_bound bound
  or_bound (some l) bound = l

  -- The plugin passes nil for `used` everywhere, which is the empty list.
  unfoldable pub new_elastic_quota_info :
      String
      → Option (List (String × Q))
      → Option (List (String × Q))
      → List (String × Q)
      → ElasticQuotaInfo
  unfolding make_resource_list_for_bound
  new_elastic_quota_info namespace min max used = record {
    namespace = namespace;
    pods = [];
    min = some (new_resource (or_bound min lower_bound_of_min));
    max = some (new_resource (or_bound max upper_bound_of_max));
    used = new_resource used;
  }

  unfoldable pub add_scalars : List (String × ℤ) → Resource → Resource
  add_scalars [] used = used
  add_scalars ((name, v) ∷ rest) used =
      add_scalars rest (set_scalar used name (add64 (scalar name used) v))

  unfoldable pub sub_scalars : List (String × ℤ) → Resource → Resource
  sub_scalars [] used = used
  sub_scalars ((name, v) ∷ rest) used =
      sub_scalars rest (set_scalar used name (sub64 (scalar name used) v))

  unfoldable pub reserve_resource : ElasticQuotaInfo → Resource → ElasticQuotaInfo
  unfolding add_scalars
  reserve_resource e request = record e {
    used = add_scalars request.scalar_resources (raised e.used request);
  }

  unfoldable pub unreserve_resource : ElasticQuotaInfo → Resource → ElasticQuotaInfo
  unfolding sub_scalars
  unreserve_resource e request = record e {
    used = sub_scalars request.scalar_resources (lowered e.used request);
  }

  unfoldable pub add_pod_if_not_present : Pod Q → ElasticQuotaInfo → Result ElasticQuotaInfo
  unfolding has reserve_resource
  add_pod_if_not_present pod e = elim (get_pod_key pod) [
    | none ↦ err
    | some key ↦
        if has key e.pods
        then ok e
        else ok (
            reserve_resource (record e { pods = insert key tt e.pods })
              (compute_pod_resource_request api pod))
  ]

  unfoldable pub delete_pod_if_present : Pod Q → ElasticQuotaInfo → Result ElasticQuotaInfo
  unfolding has unreserve_resource
  delete_pod_if_present pod e = elim (get_pod_key pod) [
    | none ↦ err
    | some key ↦
        if has key e.pods
        then ok (
            unreserve_resource (record e { pods = delete key e.pods })
              (compute_pod_resource_request api pod))
        else ok e
  ]

  sum_used_min : ElasticQuotaInfos → Resource → Resource → Resource × Resource
  sum_used_min [] used min = (used, min)
  sum_used_min ((key, e) ∷ rest) used min =
      sum_used_min rest (add used (resource_list api e.used))
        (add min (resource_list api (elim e.min [ none ↦ zero_resource | some m ↦ m ])))

  -- A nil `Min`, which the constructor never leaves, would be read as a nil pointer here.
  unfoldable pub aggregated_used_over_min_with : ElasticQuotaInfos → Resource → Bool
  unfolding sum_used_min cmp
  aggregated_used_over_min_with e pod_request =
      let (used, min) = sum_used_min e (new_resource []) (new_resource []) in
      cmp (add used (resource_list api pod_request)) min lower_bound_of_min
