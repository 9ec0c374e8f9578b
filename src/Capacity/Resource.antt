-- ===== src/Capacity/Resource.antt =====
-- `framework.Resource` and the calls of the scheduler framework that the plugin makes, with the
-- request of a pod (pkg/capacityscheduling/capacity_scheduling.go) and `ResourceList` of
-- pkg/util/resource.go.
use plugins_improve.Prelude.{
  ℤ, pos, ◌≡◌, Bool, true, Option, none, some, List, [], ◌∷◌, String, str_eq, insert, lookup_or,
  if◌then◌else◌,
}

-- The fields; the scalar resources are a map by name.
pub record Resource : Type 0 where
  pub milli_cpu : ℤ
  pub memory : ℤ
  pub ephemeral_storage : ℤ
  pub allowed_pod_number : ℤ
  pub scalar_resources : List (String × ℤ)

-- `framework.Resource{}`.
abbrev pub zero_resource : Resource
zero_resource = record {
  milli_cpu = pos 0;
  memory = pos 0;
  ephemeral_storage = pos 0;
  allowed_pod_number = pos 0;
  scalar_resources = [];
}

-- The four resources that are fields.
pub data Dim : Type 0 where
  cpu memory storage pods : Dim

abbrev pub amount : Dim → Resource → ℤ
amount cpu r = r.milli_cpu
amount memory r = r.memory
amount storage r = r.ephemeral_storage
amount pods r = r.allowed_pod_number

abbrev pub scalar : String → Resource → ℤ
scalar name r = lookup_or name (pos 0) r.scalar_resources

pub data Phase : Type 0 where
  pending running succeeded failed unknown : Phase

-- What the plugin reads of a pod. `priority` is the value of `corev1helpers.PodPriority`, the requests
-- are lists of quantities, and `terminating` says that the deletion timestamp is set.
pub record Pod (Q : Type 0) : Type 0 where
  pub namespace : String
  pub name : String
  pub uid : String
  pub priority : ℤ
  pub phase : Phase
  pub node_name : String
  pub nominated_node_name : String
  pub terminating : Bool
  pub preempts_never : Bool
  pub labels : List (String × String)
  pub containers : List (List (String × Q))
  pub init_containers : List (List (String × Q))
  pub overhead : Option (List (String × Q))

-- apimachinery's quantities and the framework's methods on resources, with what the plugin relies on:
-- `Add` adds the values of a list to the fields, and `SetScalar` writes one entry of the map.
pub record FrameworkApi : Type 1 where
  pub Q : Type 0
  pub value : Q → ℤ
  pub milli_value : Q → ℤ
  pub new_quantity : Bool → ℤ → Q
  pub new_milli_quantity : ℤ → Q
  pub is_huge_page_resource_name : String → Bool
  pub resource_cpu : String
  pub resource_memory : String
  pub resource_pods : String
  pub resource_ephemeral_storage : String
  pub new_resource : List (String × Q) → Resource
  pub add : Resource → List (String × Q) → Resource
  pub set_max_resource : Resource → List (String × Q) → Resource
  pub set_scalar : Resource → String → ℤ → Resource
  pub get_pod_key : Pod Q → Option String
  pub new_resource-nil : new_resource [] ≡ zero_resource
  pub amount-set_scalar :
      (d : Dim) (r : Resource) (name : String) (v : ℤ) → amount d (set_scalar r name v) ≡ amount d r
  pub scalar-set_scalar :
      (r : Resource) (name other : String) (v : ℤ)
      → scalar other (set_scalar r name v) ≡ (if str_eq name other then v else scalar other r)

module _ (api : FrameworkApi) where
  open api use {
    Q, new_quantity, new_milli_quantity, is_huge_page_resource_name, resource_cpu, resource_memory,
    resource_pods, resource_ephemeral_storage, add, set_max_resource,
  }

  insert_scalars : List (String × ℤ) → List (String × Q) → List (String × Q)
  insert_scalars [] result = result
  insert_scalars ((name, quant) ∷ rest) result =
      insert_scalars rest
        (insert name (new_quantity (is_huge_page_resource_name name) quant) result)

  -- `true` is the binary format of a quantity.
  unfoldable pub resource_list : Resource → List (String × Q)
  unfolding insert_scalars insert
  resource_list r = insert_scalars r.scalar_resources (
      insert resource_ephemeral_storage (new_quantity true r.ephemeral_storage) (
        insert resource_pods (new_quantity true r.allowed_pod_number) (
          insert resource_memory (new_quantity true r.memory)
            (insert resource_cpu (new_milli_quantity r.milli_cpu) []))))

  add_all : List (List (String × Q)) → Resource → Resource
  add_all [] r = r
  add_all (c ∷ cs) r = add_all cs (add r c)

  max_all : List (List (String × Q)) → Resource → Resource
  max_all [] r = r
  max_all (c ∷ cs) r = max_all cs (set_max_resource r c)

  unfoldable pub compute_pod_resource_request : Pod Q → Resource
  unfolding add_all max_all
  compute_pod_resource_request pod =
      let result = max_all pod.init_containers (add_all pod.containers zero_resource) in
      elim pod.overhead [ none ↦ result | some o ↦ add result o ]
