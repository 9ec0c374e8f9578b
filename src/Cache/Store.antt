-- ===== src/Cache/Store.antt =====
-- pkg/noderesourcetopology/cache/store.go: the stores behind the cache.
pub mod Pessimism
use plugins_improve.Prelude.{
  ℕ, ℤ, suc, Bool, true, false, ◌&&◌, not, Option, none, some, List, [], ◌∷◌, String, map, str_eq,
  lookup, lookup_or, insert, delete, has, if◌then◌else◌,
}
use Prim.Native.String.{◌++◌ as str_append}
use plugins_improve.Quantities.{
  QuantityApi, ResourceList, PodSpec, is_less, get_pod_effective_request,
}

-- The fields of a NodeResourceTopology that the plugin and its cache read; `kind` is the type of a
-- zone.
pub record ResourceInfo (Q : Type 0) : Type 0 where
  pub name : String
  pub available : Q

pub record Zone (Q : Type 0) : Type 0 where
  pub name : String
  pub kind : String
  pub costs : List (String × ℤ)
  pub resources : List (ResourceInfo Q)

pub record Nrt (Q : Type 0) : Type 0 where
  pub name : String
  pub topology_policies : List String
  pub attributes : List (String × String)
  pub annotations : List (String × String)
  pub zones : List (Zone Q)

pub record Pod (Q : Type 0) : Type 0 where
  pub namespace : String
  pub name : String
  pub uid : String
  pub node_name : String
  pub scheduler_name : String
  pub spec : PodSpec Q

-- `nrtStore`: the data by node name. Values have no identity here, so a deep copy is the value.
abbrev pub NrtStore : Type 0 → Type 0
NrtStore Q = List (String × Nrt Q)

module _ {Q : Type 0} where
  unfoldable pub new_nrt_store : List (Nrt Q) → NrtStore Q → NrtStore Q
  new_nrt_store [] s = s
  new_nrt_store (n ∷ ns) s = new_nrt_store ns (insert n.name n s)

  unfoldable pub contains : String → NrtStore Q → Bool
  unfolding has
  contains node s = has node s

  unfoldable pub get_nrt_copy : String → NrtStore Q → Option (Nrt Q)
  get_nrt_copy node s = lookup node s

  unfoldable pub update : Nrt Q → NrtStore Q → NrtStore Q
  update n s = insert n.name n s

  unfoldable pub pod_key : Pod Q → String
  pod_key p = str_append p.namespace (str_append "/" p.name)

-- `resourceStore`: the requests by pod key.
abbrev pub ResourceStore : Type 0 → Type 0
ResourceStore Q = List (String × ResourceList Q)

module _ (api : QuantityApi) where
  open api use {Q, zero_q, sub, cmp}

  -- The result says whether an entry was there.
  unfoldable pub add_pod : Pod Q → ResourceStore Q → ResourceStore Q × Bool
  unfolding has pod_key
  add_pod p rs = (insert (pod_key p) (get_pod_effective_request api p.spec) rs, has (pod_key p) rs)

  unfoldable pub delete_pod : Pod Q → ResourceStore Q → ResourceStore Q × Bool
  unfolding has pod_key
  delete_pod p rs = (delete (pod_key p) rs, has (pod_key p) rs)

  -- One resource of one zone against the requests of one pod.
  unfoldable pub take_resource : ResourceList Q → ResourceInfo Q → ResourceInfo Q
  take_resource res zr = elim (lookup zr.name res) [
    | none ↦ zr
    | some qty ↦
        if is_less (cmp zr.available qty)
        then record zr { available = zero_q }
        else record zr { available = sub zr.available qty }
  ]

  abbrev pub take_zone : ResourceList Q → Zone Q → Zone Q
  take_zone res z = record z { resources = map (take_resource res) z.resources }

  unfoldable pub update_nrt : ResourceStore Q → Nrt Q → Nrt Q
  update_nrt [] nrt = nrt
  update_nrt ((key, res) ∷ rs) nrt =
      update_nrt rs (record nrt { zones = map (take_zone res) nrt.zones })

-- `counter`: it counts at most the calls of the process, and does not wrap.
abbrev pub Counter : Type 0
Counter = List (String × ℕ)

unfoldable pub incr : String → Counter → Counter
unfolding lookup_or
incr key c = insert key (suc (lookup_or key 0 c)) c

unfoldable pub is_set : String → Counter → Bool
unfolding has
is_set key c = has key c

unfoldable pub drop_key : String → Counter → Counter
drop_key key c = delete key c

-- `podfingerprint` and the attribute reader: names, `Get`, and the check of the signature of a list of
-- namespaced names.
pub data Fingerprint : Type 0 where
  matches mismatch failure : Fingerprint

pub record PfpApi : Type 0 where
  pub attribute : String
  pub attribute_method : String
  pub method_exclusive : String
  pub annotation : String
  pub attr_get : List (String × String) → String → Option String
  pub check : List (String × String) → String → Fingerprint

pub data ResyncMethod : Type 0 where
  autodetect all_pods only_exclusive_resources : ResyncMethod

abbrev by_attribute : PfpApi → List (String × String) → ResyncMethod → Bool
by_attribute pfp attrs only_exclusive_resources = true
by_attribute pfp attrs autodetect = elim (pfp.attr_get attrs pfp.attribute_method) [
  | none ↦ false
  | some m ↦ str_eq m pfp.method_exclusive
]
by_attribute pfp attrs all_pods = false

module _ {Q : Type 0} where
  unfoldable pub pod_fingerprint_for_node_topology : PfpApi → Nrt Q → ResyncMethod → String × Bool
  unfolding lookup_or
  pod_fingerprint_for_node_topology pfp nrt method =
      elim (pfp.attr_get nrt.attributes pfp.attribute) [
        | some value ↦ (value, by_attribute pfp nrt.attributes method)
        | none ↦ (lookup_or pfp.annotation "" nrt.annotations, false)
      ]

pub record PodData : Type 0 where
  pub namespace : String
  pub name : String
  pub has_exclusive_resources : Bool

-- The names that go into the fingerprint.
unfoldable pub fingerprint_names : Bool → List PodData → List (String × String)
fingerprint_names only_excl [] = []
fingerprint_names only_excl (o ∷ os) =
    let rest = fingerprint_names only_excl os in
    if only_excl && not o.has_exclusive_resources then rest else (o.namespace, o.name) ∷ rest

unfoldable pub check_pod_fingerprint_for_node : PfpApi → List PodData → String → Bool → Fingerprint
unfolding fingerprint_names
check_pod_fingerprint_for_node pfp objs expected only_excl =
    pfp.check (fingerprint_names only_excl objs) expected
