-- ===== src/Topology/Exclusive.antt =====
-- pkg/noderesourcetopology/resourcerequests/exclusive.go: which pods take resources for themselves.
use plugins_improve.Prelude.{
  ℤ, pos, eqb_ℤ, ltb_ℤ, ◌*◌, wrap64, sub_ℕ, pos_part, neg_part, Bool, true, false, not, ◌&&◌, ◌||◌,
  List, [], ◌∷◌, ◌++◌, String, str_eq, if◌then◌else◌,
}
use plugins_improve.Quantities.{QuantityApi, ResourceList}
use plugins_improve.Queue.Qos.{PodQosClass}
use plugins_improve.Cache.Store.{Pod}
use plugins_improve.Topology.Numa.{Helpers, is_guaranteed}

-- An int64 times 1000.
abbrev pub times_1000 : ℤ → ℤ
times_1000 a = wrap64 (sub_ℕ (pos_part a * 1000) (neg_part a * 1000))

module _ {api : QuantityApi} (helpers : Helpers api) where
  open api use {Q}
  open helpers use {value, milli_value, get_pod_qos, is_native_resource, is_huge_page_resource_name}

  any_non_native : ResourceList Q → Bool
  any_non_native [] = false
  any_non_native ((name, q) ∷ rest) = not (is_native_resource name) || any_non_native rest

  any_container_non_native : List (ResourceList Q) → Bool
  unfolding any_non_native
  any_container_non_native [] = false
  any_container_non_native (c ∷ cs) = any_non_native c || any_container_non_native cs

  unfoldable pub include_non_native : Pod Q → Bool
  unfolding any_container_non_native
  include_non_native pod =
      any_container_non_native pod.spec.init_containers
      || any_container_non_native pod.spec.containers

  unfoldable pub is_exclusive : PodQosClass → String → Q → Bool
  is_exclusive qos resource quantity =
      if not (is_native_resource resource)
      then true
      else if not (is_guaranteed qos)
      then false
      else if str_eq resource "cpu"
          && eqb_ℤ (times_1000 (value quantity)) (milli_value quantity)
          && ltb_ℤ (pos 0) (value quantity)
      then true
      else if (str_eq resource "memory" || is_huge_page_resource_name resource)
          && ltb_ℤ (pos 0) (value quantity)
      then true
      else false

  any_exclusive : PodQosClass → ResourceList Q → Bool
  unfolding is_exclusive
  any_exclusive qos [] = false
  any_exclusive qos ((name, q) ∷ rest) = is_exclusive qos name q || any_exclusive qos rest

  unfoldable pub are_exclusive_for_any_container : PodQosClass → List (ResourceList Q) → Bool
  unfolding any_exclusive
  are_exclusive_for_any_container qos [] = false
  are_exclusive_for_any_container qos (c ∷ cs) =
      any_exclusive qos c || are_exclusive_for_any_container qos cs

  unfoldable pub are_exclusive_for_pod : Pod Q → Bool
  unfolding are_exclusive_for_any_container
  are_exclusive_for_pod pod =
      are_exclusive_for_any_container (get_pod_qos pod)
        (pod.spec.init_containers ++ pod.spec.containers)
