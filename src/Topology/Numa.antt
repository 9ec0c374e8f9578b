-- ===== src/Topology/Numa.antt =====
-- The NUMA nodes of a topology: numaresources.go and pluginhelpers.go of pkg/noderesourcetopology.
pub mod Listing
use plugins_improve.Prelude.{
  ℕ, suc, ℤ, pos, eqb_ℤ, ltb_ℤ, ltb, leb, ◌==◌, Bool, true, false, not, ◌&&◌, ◌||◌, Option, none,
  some, List, [], ◌∷◌, String, str_eq, ◌≡◌, map, lookup, insert, has, get_elem?, if◌then◌else◌,
}
use plugins_improve.Quantities.{QuantityApi, ResourceList, Order, less, same, more, is_less}
use plugins_improve.Queue.Qos.{PodQosClass, guaranteed, burstable, best_effort, other}
use plugins_improve.Cache.Store.{ResourceInfo, Zone, Pod}

-- The helpers of Kubernetes and of the topology API on names, quantities and pods. `name_to_id` reads
-- the number of a NUMA zone's name, which is not negative.
pub record Helpers (api : QuantityApi) : Type 0 where
  pub is_zero : api.Q → Bool
  pub is_negative : api.Q → Bool
  pub value : api.Q → ℤ
  pub milli_value : api.Q → ℤ
  pub get_pod_qos : Pod api.Q → PodQosClass
  pub is_native_resource : String → Bool
  pub is_huge_page_resource_name : String → Bool
  pub name_to_id : String → Option ℕ
  pub is_zero-amount : (q : api.Q) → is_zero q ≡ eqb_ℤ (api.amount q) (pos 0)
  pub is_negative-amount : (q : api.Q) → is_negative q ≡ ltb_ℤ (api.amount q) (pos 0)

pub record NumaNode (Q : Type 0) : Type 0 where
  pub numa_id : ℕ
  pub resources : ResourceList Q
  pub costs : List (ℕ × ℤ)

abbrev pub max_numa_id : ℕ
max_numa_id = 64

abbrev pub is_guaranteed : PodQosClass → Bool
is_guaranteed guaranteed = true
is_guaranteed burstable = false
is_guaranteed best_effort = false
is_guaranteed other = false

-- A Go map with integer keys.
unfoldable pub cost_at : ℕ → List (ℕ × ℤ) → Option ℤ
cost_at id [] = none
cost_at id ((k, c) ∷ cs) = if k == id then some c else cost_at id cs

unfoldable pub set_cost : ℕ → ℤ → List (ℕ × ℤ) → List (ℕ × ℤ)
set_cost id cost [] = (id, cost) ∷ []
set_cost id cost ((k, c) ∷ cs) =
    let rest = set_cost id cost cs in if k == id then (id, cost) ∷ cs else (k, c) ∷ rest

-- An array of integers, of which the code reads and writes single places.
abbrev pub write : (ℕ → ℕ) → ℕ → ℕ → ℕ → ℕ
write ids id i k = if k == id then i else ids k

module _ {api : QuantityApi} (helpers : Helpers api) where
  open api use {Q, sub, cmp}
  open helpers use {
    is_zero, is_negative, is_native_resource, is_huge_page_resource_name, name_to_id,
  }

  unfoldable pub is_host_level_resource : String → Bool
  is_host_level_resource resource =
      if str_eq resource "ephemeral-storage"
      then true
      else if str_eq resource "storage"
      then true
      else if not (is_native_resource resource)
      then true
      else false

  unfoldable pub is_numa_affine_resource : String → Bool
  is_numa_affine_resource resource =
      if str_eq resource "cpu"
      then true
      else if str_eq resource "memory"
      then true
      else if is_huge_page_resource_name resource
      then true
      else false

  unfoldable pub is_resource_set_suitable : PodQosClass → String → Q → Q → Bool
  unfolding is_numa_affine_resource
  is_resource_set_suitable qos resource quantity numa_quantity =
      if not (is_guaranteed qos) && is_numa_affine_resource resource
      then true
      else not (is_less (cmp numa_quantity quantity))

  unfoldable pub extract_costs : List (String × ℤ) → List (ℕ × ℤ) → List (ℕ × ℤ)
  extract_costs [] node_costs = node_costs
  extract_costs ((name, value) ∷ costs) node_costs = extract_costs costs (elim (name_to_id name) [
    | none ↦ node_costs
    | some id ↦ if ltb max_numa_id id then node_costs else set_cost id value node_costs
  ])

  unfoldable pub extract_resources : List (ResourceInfo Q) → ResourceList Q → ResourceList Q
  extract_resources [] res = res
  extract_resources (r ∷ rs) res = extract_resources rs (insert r.name r.available res)

  -- The first loop, from the zone with index `i` on: the nodes without their costs, and the array from
  -- a NUMA id to the index of its zone. The array has 64 places, so that a write at 64 panics (`none`).
  unfoldable pub list_nodes : List (Zone Q) → ℕ → (ℕ → ℕ) → Option ((ℕ → ℕ) × List (NumaNode Q))
  unfolding extract_resources
  list_nodes [] i ids = some (ids, [])
  list_nodes (z ∷ zs) i ids =
      let skip = list_nodes zs (suc i) ids in
      if not (str_eq z.kind "Node") then skip else elim (name_to_id z.name) [
        | none ↦ skip
        | some id ↦ elim (ltb max_numa_id id) [
          | true ↦ skip
          | false ↦ elim (ltb id max_numa_id) [
            | false ↦ none
            | true ↦ elim (list_nodes zs (suc i) (write ids id i)) [
              | none ↦ none
              | some (ids', nodes) ↦ some (
                ids',
                record { numa_id = id; resources = extract_resources z.resources []; costs = [] }
                    ∷ nodes,
              )
            ]
          ]
        ]
      ]

  abbrev pub with_costs : List (Zone Q) → (ℕ → ℕ) → NumaNode Q → NumaNode Q
  with_costs zones ids node = record node {
    costs = elim (get_elem? zones (ids node.numa_id)) [
      | none ↦ []
      | some z ↦ extract_costs z.costs []
    ];
  }

  unfoldable pub create_numa_node_list : List (Zone Q) → Option (List (NumaNode Q))
  unfolding list_nodes extract_costs
  create_numa_node_list zones = elim (list_nodes zones 0 (λ k. 0)) [
    | none ↦ none
    | some (ids, nodes) ↦ some (map (with_costs zones ids) nodes)
  ]

  any_has : String → List (NumaNode Q) → Bool
  any_has name [] = false
  any_has name (n ∷ ns) = has name n.resources || any_has name ns

  unfoldable pub only_non_numa_resources : List (NumaNode Q) → ResourceList Q → Bool
  unfolding any_has has
  only_non_numa_resources nodes [] = true
  only_non_numa_resources nodes ((name, q) ∷ rest) =
      let others = only_non_numa_resources nodes rest in
      if any_has name nodes then false else others

  -- One request against one resource list; `none` is the error of a negative rest.
  unfoldable pub subtract_resource :
      PodQosClass → String → Q → ResourceList Q → Option (ResourceList Q)
  unfolding is_numa_affine_resource
  subtract_resource qos name quantity resources =
      if not (is_guaranteed qos) && is_numa_affine_resource name
      then some resources
      else if is_zero quantity
      then some resources
      else elim (lookup name resources) [
        | none ↦ some resources
        | some available ↦
            if is_negative (sub available quantity)
            then none
            else some (insert name (sub available quantity) resources)
      ]

  unfoldable pub subtract_all :
      PodQosClass → ResourceList Q → ResourceList Q → Option (ResourceList Q)
  unfolding subtract_resource
  subtract_all qos [] resources = some resources
  subtract_all qos ((name, quantity) ∷ rest) resources =
      elim (subtract_resource qos name quantity resources) [
        | none ↦ none
        | some left ↦ subtract_all qos rest left
      ]

  unfoldable pub subtract_resources_from_numa_node_list :
      PodQosClass → ResourceList Q → ℕ → List (NumaNode Q) → Option (List (NumaNode Q))
  unfolding subtract_all
  subtract_resources_from_numa_node_list qos requests numa_id [] = some []
  subtract_resources_from_numa_node_list qos requests numa_id (n ∷ ns) =
      elim (n.numa_id == numa_id) [
        | false ↦ elim (subtract_resources_from_numa_node_list qos requests numa_id ns) [
          | none ↦ none
          | some rest ↦ some (n ∷ rest)
        ]
        | true ↦ elim (subtract_all qos requests n.resources) [
          | none ↦ none
          | some left ↦ elim (subtract_resources_from_numa_node_list qos requests numa_id ns) [
            | none ↦ none
            | some rest ↦ some (record n { resources = left } ∷ rest)
          ]
        ]
      ]
