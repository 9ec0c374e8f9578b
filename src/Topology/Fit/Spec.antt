-- ===== src/Topology/Fit/Spec.antt =====
-- When a NUMA node meets a request, read off pkg/noderesourcetopology/filter.go without its masks.
use plugins_improve.Prelude.{
  ℕ, ltb, ◌==◌, ==_iff, Bool, true, false, not, ◌&&◌, ◌||◌, Option, none, some, List, [], ◌∷◌,
  String, ◌≡◌, arith, lookup, has, Option-cases, inl, inr,
}
use plugins_improve.Quantities.{QuantityApi, ResourceList}
use plugins_improve.Queue.Qos.{PodQosClass}
use plugins_improve.Topology.Numa.{
  Helpers, NumaNode, is_host_level_resource, is_resource_set_suitable,
}
use plugins_improve.Topology.Fit.{BitMaskApi, highest_numa_id, resource_bitmask}

abbrev pub lowest : List ℕ → ℕ × Bool
lowest [] = (highest_numa_id, false)
lowest (id ∷ ids) = (id, true)

module _ {api : QuantityApi} (helpers : Helpers api) where
  open api use {Q}

  -- Some node has the resource, in whatever amount.
  abbrev pub is_known : String → List (NumaNode Q) → Bool
  is_known name [] = false
  is_known name (n ∷ ns) = has name n.resources || is_known name ns

  -- A node with the id has enough of the resource.
  abbrev pub enough : PodQosClass → String → Q → Option Q → Bool
  enough qos name quantity none = false
  enough qos name quantity (some q) = is_resource_set_suitable helpers qos name quantity q

  abbrev pub suffices : PodQosClass → String → Q → List (NumaNode Q) → ℕ → Bool
  suffices qos name quantity [] id = false
  suffices qos name quantity (n ∷ ns) id =
      (n.numa_id == id && enough qos name quantity (lookup name n.resources))
      || suffices qos name quantity ns id

  -- A request that the NUMA node can meet: nothing, a resource of the host that no NUMA node has, or
  -- one of which the NUMA node has enough.
  abbrev pub fits : PodQosClass → List (NumaNode Q) → ℕ → String × Q → Bool
  fits qos nodes id r =
      helpers.is_zero r.1
      || (not (is_known r.0 nodes) && is_host_level_resource helpers r.0)
      || suffices qos r.0 r.1 nodes id

  -- A request that is not zero names a resource of the node.
  abbrev pub listed : ResourceList Q → String × Q → Bool
  listed node_resources r = helpers.is_zero r.1 || has r.0 node_resources

  module _ (mask : BitMaskApi) where
    open mask use {B, empty, fill, add, meet, is_empty, get_bits, has_bit}

    pub resource_bitmask-known :
        (qos : PodQosClass) (name : String) (quantity : Q) (nodes : List (NumaNode Q))
        (found : Bool × B)
        → (resource_bitmask helpers mask qos name quantity nodes found).0
          ≡ (found.0 || is_known name nodes)
    unfolding resource_bitmask has
    resource_bitmask-known qos name quantity [] found = ground arith
    resource_bitmask-known qos name quantity (n ∷ ns) found =
        elim (Option-cases (lookup name n.resources)) [
          | inl e ↦ ground (arith, e, resource_bitmask-known qos name quantity ns found)
          | inr (q, e) ↦ ground (
            arith,
            e,
            resource_bitmask-known qos name quantity ns (true, add n.numa_id found.1),
            resource_bitmask-known qos name quantity ns (true, found.1),
          )
        ]

    pub resource_bitmask-has_bit :
        (qos : PodQosClass) (name : String) (quantity : Q) (nodes : List (NumaNode Q))
        (found : Bool × B) (id : ℕ)
        → ltb id 64 ≡ true
        → has_bit (resource_bitmask helpers mask qos name quantity nodes found).1 id
          ≡ (has_bit found.1 id || suffices qos name quantity nodes id)
    unfolding resource_bitmask
    resource_bitmask-has_bit qos name quantity [] found id h = ground arith
    resource_bitmask-has_bit qos name quantity (n ∷ ns) found id h =
        elim (Option-cases (lookup name n.resources)) [
          | inl e ↦ ground (arith, e, resource_bitmask-has_bit qos name quantity ns found id h)
          | inr (q, e) ↦ ground (
            arith,
            e,
            mask.has_bit-add found.1 n.numa_id id,
            ==_iff n.numa_id id,
            resource_bitmask-has_bit qos name quantity ns (true, add n.numa_id found.1) id h,
            resource_bitmask-has_bit qos name quantity ns (true, found.1) id h,
          )
        ]
