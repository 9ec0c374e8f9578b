-- ===== src/Controllers/Usage.antt =====
-- The elastic quota controller: pkg/controllers/elasticquota_controller.go. `Add`, `Max` and
-- `ResourceNames` are of the apiserver's quota package, and are an interface here.
pub mod Sums
use plugins_improve.Prelude.{
  ℤ, pos, ◌≡◌, ◌+ℤ◌, ltb_ℤ, Bool, true, false, Option, none, some, List, [], ◌∷◌, String,
  if◌then◌else◌,
}

abbrev pub larger : ℤ → ℤ → ℤ
larger a b = if ltb_ℤ a b then b else a

-- Resource lists with the amount of each name, which is 0 for a name that is not listed.
pub record QuotaApi : Type 1 where
  pub L : Type 0
  pub amount : String → L → ℤ
  pub empty : L
  pub add : L → L → L
  pub max : L → L → L
  pub resource_names : L → List String
  pub insert_zero : String → L → L
  pub deep_equal : L → L → Bool
  pub amount-empty : (name : String) → amount name empty ≡ pos 0
  pub amount-insert_zero :
      (name other : String) (l : L)
      → amount other l ≡ pos 0
      → amount other (insert_zero name l) ≡ pos 0
  pub amount-add :
      (name : String) (a b : L) → amount name (add a b) ≡ amount name a +ℤ amount name b
  pub amount-max :
      (name : String) (a b : L) → amount name (max a b) ≡ larger (amount name a) (amount name b)

-- What the controller reads of a pod; `running` says that the phase is Running.
pub record Pod (L : Type 0) : Type 0 where
  pub running : Bool
  pub containers : List L
  pub init_containers : List L
  pub overhead : Option L

pub record ElasticQuota (L : Type 0) : Type 0 where
  pub min : L
  pub max : L
  pub used : L

module _ (api : QuotaApi) where
  open api use {L, empty, add, max, resource_names, insert_zero, deep_equal}

  unfoldable pub add_containers : List L → L → L
  add_containers [] result = result
  add_containers (c ∷ cs) result = add_containers cs (add result c)

  unfoldable pub max_containers : List L → L → L
  max_containers [] result = result
  max_containers (c ∷ cs) result = max_containers cs (max result c)

  -- The sum with the overhead is computed and dropped, as in the source.
  unfoldable pub compute_pod_resource_request : Pod L → L
  unfolding add_containers max_containers
  compute_pod_resource_request pod =
      let result = add_containers pod.containers empty in
      let init_res = max_containers pod.init_containers empty in
      let unused : L = elim pod.overhead [ none ↦ result | some o ↦ add result o ] in
      max result init_res

  unfoldable pub zero_names : List String → L → L
  zero_names [] res = res
  zero_names (n ∷ ns) res = zero_names ns (insert_zero n res)

  unfoldable pub new_zero_used : ElasticQuota L → L
  unfolding zero_names
  new_zero_used eq = zero_names (resource_names eq.max) (zero_names (resource_names eq.min) empty)

  unfoldable pub add_running : List (Pod L) → L → L
  add_running [] used = used
  add_running (p ∷ ps) used =
      add_running ps (if p.running then add used (compute_pod_resource_request p) else used)

  -- `listed` is the client's list of the pods of the namespace, `none` where the call fails.
  unfoldable pub compute_elastic_quota_used : Option (List (Pod L)) → ElasticQuota L → Option L
  unfolding new_zero_used add_running
  compute_elastic_quota_used listed eq = elim listed [
    | none ↦ none
    | some pods ↦ some (add_running pods (new_zero_used eq))
  ]

  -- Reconcile after the lists: the quota that is patched, or `none` where nothing is.
  unfoldable pub reconcile : List (ElasticQuota L) → Option (List (Pod L)) → Option (ElasticQuota L)
  unfolding compute_elastic_quota_used
  reconcile [] listed = none
  reconcile (eq ∷ eqs) listed = elim (compute_elastic_quota_used listed eq) [
    | none ↦ none
    | some used ↦ if deep_equal used eq.used then none else some (record eq { used = used })
  ]
