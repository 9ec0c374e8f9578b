-- ===== src/Topology/Config.antt =====
-- pkg/noderesourcetopology/nodeconfig/topologymanager.go: the kubelet's settings, read off a topology.
use plugins_improve.Prelude.{
  Bool, true, ◌&&◌, ◌||◌, List, [], ◌∷◌, String, str_eq, str_eq_refl, ◌≡◌, arith, if◌then◌else◌,
}
use plugins_improve.Cache.Store.{Nrt}

-- The strings of the kubelet's configuration and of the topology API.
pub record KubeletNames : Type 0 where
  pub container_scope : String
  pub pod_scope : String
  pub none_policy : String
  pub best_effort_policy : String
  pub restricted_policy : String
  pub single_numa_node_policy : String
  pub single_numa_node_pod_level : String
  pub single_numa_node_container_level : String
  pub best_effort_pod_level : String
  pub best_effort_container_level : String
  pub restricted_pod_level : String
  pub restricted_container_level : String

abbrev pub attribute_scope : String
attribute_scope = "topologyManagerScope"

abbrev pub attribute_policy : String
attribute_policy = "topologyManagerPolicy"

pub record TopologyManager : Type 0 where
  pub scope : String
  pub policy : String

module _ (k : KubeletNames) where
  unfoldable pub is_valid_scope : String → Bool
  is_valid_scope scope = str_eq scope k.container_scope || str_eq scope k.pod_scope

  unfoldable pub is_valid_policy : String → Bool
  is_valid_policy policy =
      str_eq policy k.none_policy
      || str_eq policy k.best_effort_policy
      || str_eq policy k.restricted_policy
      || str_eq policy k.single_numa_node_policy

  unfoldable pub topology_manager_defaults : TopologyManager
  topology_manager_defaults = record { scope = k.container_scope; policy = k.none_policy }

  -- The loop body.
  abbrev pub update_from_attribute : String → String → TopologyManager → TopologyManager
  update_from_attribute name value conf =
      if str_eq name attribute_scope && is_valid_scope value
      then record conf { scope = value }
      else if str_eq name attribute_policy && is_valid_policy value
      then record conf { policy = value }
      else conf

  unfoldable pub update_from_attributes : List (String × String) → TopologyManager → TopologyManager
  update_from_attributes [] conf = conf
  update_from_attributes ((name, value) ∷ attrs) conf =
      update_from_attributes attrs (update_from_attribute name value conf)

  unfoldable pub update_from_policies : List String → TopologyManager → TopologyManager
  update_from_policies [] conf = conf
  update_from_policies (name ∷ extra) conf =
      if str_eq name k.single_numa_node_pod_level
      then record { scope = k.pod_scope; policy = k.single_numa_node_policy }
      else if str_eq name k.single_numa_node_container_level
      then record { scope = k.container_scope; policy = k.single_numa_node_policy }
      else if str_eq name k.best_effort_pod_level
      then record { scope = k.pod_scope; policy = k.best_effort_policy }
      else if str_eq name k.best_effort_container_level
      then record { scope = k.container_scope; policy = k.best_effort_policy }
      else if str_eq name k.restricted_pod_level
      then record { scope = k.pod_scope; policy = k.restricted_policy }
      else if str_eq name k.restricted_container_level
      then record { scope = k.container_scope; policy = k.restricted_policy }
      else conf

  unfoldable pub topology_manager_from_nrt : {Q : Type 0} → Nrt Q → TopologyManager
  unfolding topology_manager_defaults
  topology_manager_from_nrt nrt =
      update_from_attributes nrt.attributes
        (update_from_policies nrt.topology_policies topology_manager_defaults)

  abbrev pub IsValid : TopologyManager → Type 0
  IsValid conf = (is_valid_scope conf.scope ≡ true) × (is_valid_policy conf.policy ≡ true)

  update_from_attributes-IsValid :
      (attrs : List (String × String)) (conf : TopologyManager)
      → IsValid conf
      → IsValid (update_from_attributes attrs conf)
  unfolding update_from_attributes
  update_from_attributes-IsValid [] conf h = h
  update_from_attributes-IsValid ((name, value) ∷ attrs) conf h =
      update_from_attributes-IsValid attrs (update_from_attribute name value conf) (ground arith)

  update_from_policies-IsValid :
      (policies : List String) (conf : TopologyManager)
      → IsValid conf
      → IsValid (update_from_policies policies conf)
  unfolding update_from_policies is_valid_scope is_valid_policy
  update_from_policies-IsValid [] conf h = h
  update_from_policies-IsValid (name ∷ extra) conf h = ground (
    arith,
    str_eq_refl k.container_scope,
    str_eq_refl k.pod_scope,
    str_eq_refl k.best_effort_policy,
    str_eq_refl k.restricted_policy,
    str_eq_refl k.single_numa_node_policy,
  )

  -- Whatever a topology declares, the settings that are read off it name a scope and a policy of the
  -- kubelet.
  pub topology_manager_from_nrt-IsValid :
      {Q : Type 0} (nrt : Nrt Q) → IsValid (topology_manager_from_nrt nrt)
  unfolding topology_manager_from_nrt topology_manager_defaults is_valid_scope is_valid_policy
  topology_manager_from_nrt-IsValid nrt =
      update_from_attributes-IsValid nrt.attributes
        (update_from_policies nrt.topology_policies topology_manager_defaults)
        (update_from_policies-IsValid nrt.topology_policies topology_manager_defaults
          (ground (arith, str_eq_refl k.container_scope, str_eq_refl k.none_policy)))
