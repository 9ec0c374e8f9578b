-- ===== src/Examples/Framework.antt =====
-- An instance of the framework's resources with integers for quantities, and a pod of
-- pkg/capacityscheduling.
use plugins_improve.Prelude.{
  ℤ, ◌≡◌, refl, arith, ltb_ℤ, add64, false, Option, none, some, List, [], ◌∷◌, String, str_eq,
  lookup_or, insert, lookup-insert, if◌then◌else◌,
}
use plugins_improve.Capacity.Resource.{
  Resource, zero_resource, Dim, cpu, memory, storage, pods, amount, scalar, running, Pod,
  FrameworkApi,
}

unfoldable pub set_scalar : Resource → String → ℤ → Resource
set_scalar r name v = record r { scalar_resources = insert name v r.scalar_resources }

-- `Resource.Add`: one entry of the list.
unfoldable pub add_entry : Resource → String → ℤ → Resource
unfolding set_scalar
add_entry r name v =
    if str_eq name "cpu"
    then record r { milli_cpu = add64 r.milli_cpu v }
    else if str_eq name "memory"
    then record r { memory = add64 r.memory v }
    else if str_eq name "pods"
    then record r { allowed_pod_number = add64 r.allowed_pod_number v }
    else if str_eq name "ephemeral-storage"
    then record r { ephemeral_storage = add64 r.ephemeral_storage v }
    else set_scalar r name (add64 (scalar name r) v)

unfoldable pub add_list : Resource → List (String × ℤ) → Resource
unfolding add_entry
add_list r [] = r
add_list r ((name, v) ∷ l) = add_list (add_entry r name v) l

unfoldable pub larger : ℤ → ℤ → ℤ
larger a b = if ltb_ℤ a b then b else a

-- `Resource.SetMaxResource`: one entry of the list.
unfoldable pub raise_entry : Resource → String → ℤ → Resource
unfolding set_scalar larger
raise_entry r name v =
    if str_eq name "cpu"
    then record r { milli_cpu = larger r.milli_cpu v }
    else if str_eq name "memory"
    then record r { memory = larger r.memory v }
    else if str_eq name "ephemeral-storage"
    then record r { ephemeral_storage = larger r.ephemeral_storage v }
    else set_scalar r name (larger (scalar name r) v)

unfoldable pub raise_list : Resource → List (String × ℤ) → Resource
unfolding raise_entry
raise_list r [] = r
raise_list r ((name, v) ∷ l) = raise_list (raise_entry r name v) l

pub new_resource-nil : add_list zero_resource [] ≡ zero_resource
unfolding add_list
new_resource-nil = refl

pub amount-set_scalar :
    (d : Dim) (r : Resource) (name : String) (v : ℤ) → amount d (set_scalar r name v) ≡ amount d r
unfolding set_scalar
amount-set_scalar cpu r name v = refl
amount-set_scalar memory r name v = refl
amount-set_scalar storage r name v = refl
amount-set_scalar pods r name v = refl

pub scalar-set_scalar :
    (r : Resource) (name other : String) (v : ℤ)
    → scalar other (set_scalar r name v) ≡ (if str_eq name other then v else scalar other r)
unfolding set_scalar lookup_or
scalar-set_scalar r name other v = ground (arith, lookup-insert name other v r.scalar_resources)

abbrev pub key_of : Pod ℤ → Option String
key_of p = if str_eq p.uid "" then none else some p.uid

abbrev pub int_framework : FrameworkApi
int_framework = record {
  Q = ℤ;
  value = λ a. a;
  milli_value = λ a. a;
  new_quantity = λ b v. v;
  new_milli_quantity = λ v. v;
  is_huge_page_resource_name = λ name. false;
  resource_cpu = "cpu";
  resource_memory = "memory";
  resource_pods = "pods";
  resource_ephemeral_storage = "ephemeral-storage";
  new_resource = add_list zero_resource;
  add = add_list;
  set_max_resource = raise_list;
  set_scalar = set_scalar;
  get_pod_key = key_of;
  new_resource-nil = new_resource-nil;
  amount-set_scalar = amount-set_scalar;
  scalar-set_scalar = scalar-set_scalar;
}

-- A running pod with one container.
abbrev pub sample_pod : String → String → ℤ → List (String × ℤ) → Pod ℤ
sample_pod namespace uid priority requests = record {
  namespace = namespace;
  name = uid;
  uid = uid;
  priority = priority;
  phase = running;
  node_name = "n1";
  nominated_node_name = "";
  terminating = false;
  preempts_never = false;
  labels = [];
  containers = requests ∷ [];
  init_containers = [];
  overhead = none;
}
