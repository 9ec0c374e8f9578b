-- ===== src/Topology/Numa/Listing.antt =====
-- What createNUMANodeList of pkg/noderesourcetopology/pluginhelpers.go makes of the zones.
use mathlib.Core.Path.{subst}
use plugins_improve.Prelude.{
  ℕ, suc, ◌+◌, ltb, ◌==◌, ==_iff, Bool, false, ◌||◌, Option, none, some, List, [], ◌∷◌, str_eq, ◌≡◌,
  refl, ap, arith, map, get_elem?, All, if◌then◌else◌, Option-cases, Bool-cases, inl, inr,
}
use plugins_improve.Quantities.{QuantityApi}
use plugins_improve.Cache.Store.{Zone}
use plugins_improve.Topology.Numa.{
  Helpers, NumaNode, max_numa_id, write, with_costs, extract_resources, extract_costs, list_nodes,
  create_numa_node_list,
}

module _ {api : QuantityApi} (helpers : Helpers api) where
  open api use {Q}

  -- The number of a zone that is a NUMA node.
  abbrev pub numa_number : Zone Q → Option ℕ
  numa_number z = if str_eq z.kind "Node" then helpers.name_to_id z.name else none

  -- Some zone has the number 64, the first one that is too large for the array.
  abbrev pub is_sixty_four : Option ℕ → Bool
  is_sixty_four none = false
  is_sixty_four (some id) = id == max_numa_id

  abbrev pub has_zone_64 : List (Zone Q) → Bool
  has_zone_64 [] = false
  has_zone_64 (z ∷ zs) = is_sixty_four (numa_number z) || has_zone_64 zs

  -- The zones that become nodes, with their numbers.
  abbrev pub number_zone : Option ℕ → Zone Q → List (ℕ × Zone Q) → List (ℕ × Zone Q)
  number_zone none z rest = rest
  number_zone (some id) z rest = if ltb id max_numa_id then (id, z) ∷ rest else rest

  abbrev pub numa_zones : List (Zone Q) → List (ℕ × Zone Q)
  numa_zones [] = []
  numa_zones (z ∷ zs) = number_zone (numa_number z) z (numa_zones zs)

  abbrev pub DistinctNumbers : List (ℕ × Zone Q) → Type 0
  DistinctNumbers [] = Unit
  DistinctNumbers (e ∷ es) = All (λ f. (e.0 == f.0) ≡ false) es × DistinctNumbers es

  -- A node has the resources and the costs of its own zone.
  abbrev pub node_of : ℕ × Zone Q → NumaNode Q
  node_of e = record {
    numa_id = e.0;
    resources = extract_resources helpers e.1.resources [];
    costs = extract_costs helpers e.1.costs [];
  }

  abbrev bare_node : ℕ × Zone Q → NumaNode Q
  bare_node e = record {
    numa_id = e.0;
    resources = extract_resources helpers e.1.resources [];
    costs = [];
  }

  abbrev place : Option ℕ → ℕ → (ℕ → ℕ) → ℕ → ℕ
  place none i ids = ids
  place (some id) i ids = if ltb id max_numa_id then write ids id i else ids

  abbrev final_ids : List (Zone Q) → ℕ → (ℕ → ℕ) → ℕ → ℕ
  final_ids [] i ids = ids
  final_ids (z ∷ zs) i ids = final_ids zs (suc i) (place (numa_number z) i ids)

  list_nodes_lem :
      (zs : List (Zone Q)) (i : ℕ) (ids : ℕ → ℕ)
      → list_nodes helpers zs i ids ≡ (
          if has_zone_64 zs then none else some (final_ids zs i ids, map bare_node (numa_zones zs)))
  unfolding list_nodes
  list_nodes_lem [] i ids = refl
  list_nodes_lem (z ∷ zs) i ids = elim (Option-cases (helpers.name_to_id z.name)) [
    | inl e ↦ ground (arith, e, list_nodes_lem zs (suc i) ids)
    | inr (id, e) ↦
        ground (arith, e, list_nodes_lem zs (suc i) ids, list_nodes_lem zs (suc i) (write ids id i))
  ]

  final_ids_step :
      (o : Option ℕ) (z : Zone Q) (zs : List (Zone Q)) (i : ℕ) (ids : ℕ → ℕ) (id : ℕ)
      → ((ids' : ℕ → ℕ)
          → All (λ f. (id == f.0) ≡ false) (numa_zones zs)
          → final_ids zs (suc i) ids' id ≡ ids' id)
      → All (λ f. (id == f.0) ≡ false) (number_zone o z (numa_zones zs))
      → final_ids zs (suc i) (place o i ids) id ≡ ids id
  final_ids_step none z zs i ids id ih h = ih ids h
  final_ids_step (some k) z zs i ids id ih h =
      ground (arith, ih ids, ih (write ids k i), ==_iff id k, ==_iff k id)

  final_ids_other :
      (zs : List (Zone Q)) (i : ℕ) (ids : ℕ → ℕ) (id : ℕ)
      → All (λ f. (id == f.0) ≡ false) (numa_zones zs)
      → final_ids zs i ids id ≡ ids id
  final_ids_other [] i ids id h = refl
  final_ids_other (z ∷ zs) i ids id h =
      final_ids_step (numa_number z) z zs i ids id (λ ids' k. final_ids_other zs (suc i) ids' id k)
        h

  place_step :
      (all : List (Zone Q)) (o : Option ℕ) (z : Zone Q) (zs : List (Zone Q)) (i : ℕ) (ids : ℕ → ℕ)
      → get_elem? all i ≡ some z
      → ((ids' : ℕ → ℕ)
          → DistinctNumbers (numa_zones zs)
          → All (λ e. get_elem? all (final_ids zs (suc i) ids' e.0) ≡ some e.1) (numa_zones zs))
      → DistinctNumbers (number_zone o z (numa_zones zs))
      → All
          (λ e. get_elem? all (final_ids zs (suc i) (place o i ids) e.0) ≡ some e.1)
          (number_zone o z (numa_zones zs))
  place_step all none z zs i ids g ih d = ih ids d
  place_step all (some k) z zs i ids g ih d = elim (Bool-cases (ltb k max_numa_id)) [
    | inl e ↦
        let apart : DistinctNumbers ((k, z) ∷ numa_zones zs) = rw e at d in
        rw e (
          ground (arith, g, final_ids_other zs (suc i) (write ids k i) k apart.0, ==_iff k k),
          ih (write ids k i) apart.1,
        )
    | inr e ↦ rw e (ih ids (rw e at d))
  ]

  place_of_zone :
      (all zs : List (Zone Q)) (i : ℕ) (ids : ℕ → ℕ)
      → ((k : ℕ) → get_elem? all (i + k) ≡ get_elem? zs k)
      → DistinctNumbers (numa_zones zs)
      → All (λ e. get_elem? all (final_ids zs i ids e.0) ≡ some e.1) (numa_zones zs)
  place_of_zone all [] i ids g d = tt
  place_of_zone all (z ∷ zs) i ids g d =
      place_step all (numa_number z) z zs i ids
        (subst (λ n. get_elem? all n ≡ some z) {x = i + 0} {y = i} (omega arith) (g 0))
        (λ ids' d'.
          place_of_zone all zs (suc i) ids'
            (λ k.
              subst (λ n. get_elem? all n ≡ get_elem? zs k) {x = i + suc k} {y = suc i + k}
                (omega arith) (g (suc k)))
            d')
        d

  map_nodes :
      (zs : List (Zone Q)) (ids : ℕ → ℕ) (es : List (ℕ × Zone Q))
      → All (λ e. get_elem? zs (ids e.0) ≡ some e.1) es
      → map (with_costs helpers zs ids) (map bare_node es) ≡ map node_of es
  map_nodes zs ids [] h = refl
  map_nodes zs ids (e ∷ es) h = ground (arith, map_nodes zs ids es h.1)

  -- The list has a node for each NUMA zone with a number below 64, in the order of the zones, each with
  -- the resources and the costs of its own zone, where the numbers are distinct. A zone with the number
  -- 64, which the test lets pass, is a write out of the array's range: the plugin panics.
  pub create_numa_node_list_lem :
      (zs : List (Zone Q))
      → DistinctNumbers (numa_zones zs)
      → create_numa_node_list helpers zs
        ≡ (if has_zone_64 zs then none else some (map node_of (numa_zones zs)))
  unfolding create_numa_node_list
  create_numa_node_list_lem zs d = ground (
    arith,
    list_nodes_lem zs 0 (λ k. 0),
    map_nodes zs (final_ids zs 0 (λ k. 0)) (numa_zones zs)
        (place_of_zone zs zs 0 (λ k. 0) (λ k. ap (get_elem? zs) (omega arith)) d),
  )
