-- ===== src/Topology/Filter/Accounting.antt =====
-- The accounting of pkg/noderesourcetopology/filter.go: what was found to fit can be subtracted.
use plugins_improve.Prelude.{
  ℕ, ◌==◌, -ℤ_parts, Bool, true, false, not, ◌||◌, Option, none, some, List, [], ◌∷◌, String,
  str_eq, ◌≡◌, ◌≢◌, inl, inr, refl, arith, lookup, lookup-insert, has, all, All, map, Option-cases,
  Bool-cases,
}
use plugins_improve.Quantities.{QuantityApi, ResourceList, less}
use plugins_improve.Queue.Qos.{PodQosClass}
use plugins_improve.Topology.Numa.{
  Helpers, NumaNode, is_numa_affine_resource, is_resource_set_suitable, subtract_resource,
  subtract_all, subtract_resources_from_numa_node_list,
}
use plugins_improve.Topology.Fit.Spec.{fits, is_known, suffices}

-- The keys of a Go map.
abbrev pub UniqueNames {ℓ} : {V : Type ℓ} → List (String × V) → Type 0
UniqueNames [] = Unit
UniqueNames (e ∷ es) = All (λ f. str_eq e.0 f.0 ≡ false) es × UniqueNames es

abbrev pub DistinctIds : {Q : Type 0} → List (NumaNode Q) → Type 0
DistinctIds [] = Unit
DistinctIds (n ∷ ns) = All (λ m. (n.numa_id == m.numa_id) ≡ false) ns × DistinctIds ns

module _ {api : QuantityApi} (helpers : Helpers api) (qos : PodQosClass) where
  open api use {Q, amount, cmp, sub}

  -- A request can be taken off what is there.
  abbrev pub covers : Option Q → String × Q → Bool
  covers none r = true
  covers (some q) r = helpers.is_zero r.1 || is_resource_set_suitable helpers qos r.0 r.1 q

  rest_not_negative :
      (available quantity : Q)
      → cmp available quantity ≢ less
      → helpers.is_negative (sub available quantity) ≡ false
  rest_not_negative available quantity h = ground (
    arith,
    api.cmp-amount available quantity,
    helpers.is_negative-amount (sub available quantity),
    api.amount-sub available quantity,
    -ℤ_parts (amount available) (amount quantity),
  )

  subtract_resource-ne-none :
      (name : String) (quantity : Q) (resources : ResourceList Q)
      → covers (lookup name resources) (name, quantity) ≡ true
      → subtract_resource helpers qos name quantity resources ≢ none
  unfolding subtract_resource is_resource_set_suitable is_numa_affine_resource
  subtract_resource-ne-none name quantity resources h =
      elim (Option-cases (lookup name resources)) [
        | inl e ↦ ground (arith, e)
        | inr (q, e) ↦ ground (arith, e, rest_not_negative q quantity)
      ]

  subtract_resource-other :
      (name key : String) (quantity : Q) (resources left : ResourceList Q)
      → subtract_resource helpers qos name quantity resources ≡ some left
      → str_eq name key ≡ false
      → lookup key left ≡ lookup key resources
  unfolding subtract_resource is_numa_affine_resource
  subtract_resource-other name key quantity resources left h k =
      elim (Option-cases (lookup name resources)) [
        | inl e ↦ ground (arith, e)
        | inr (q, e) ↦ ground (arith, e, lookup-insert name key (sub q quantity) resources)
      ]

  covers-all_left :
      (name : String) (quantity : Q) (resources left : ResourceList Q) (rs : ResourceList Q)
      → subtract_resource helpers qos name quantity resources ≡ some left
      → All (λ f. str_eq name f.0 ≡ false) rs
      → all (λ r. covers (lookup r.0 resources) r) rs ≡ true
      → all (λ r. covers (lookup r.0 left) r) rs ≡ true
  unfolding all
  covers-all_left name quantity resources left [] e u h = refl
  covers-all_left name quantity resources left (r ∷ rs) e u h = ground (
    arith,
    u,
    subtract_resource-other name r.0 quantity resources left e u.0,
    covers-all_left name quantity resources left rs e u.1,
  )

  subtract_all-some :
      (rs resources : ResourceList Q)
      → UniqueNames rs
      → all (λ r. covers (lookup r.0 resources) r) rs ≡ true
      → (left : ResourceList Q) × (subtract_all helpers qos rs resources ≡ some left)
  unfolding subtract_all all
  subtract_all-some [] resources u h = (resources, refl)
  subtract_all-some ((name, quantity) ∷ rs) resources u h =
      elim (Option-cases (subtract_resource helpers qos name quantity resources)) [
        | inl e ↦ absurd (ground (arith, e, subtract_resource-ne-none name quantity resources))
        | inr (left, e) ↦
            let rest =
              subtract_all-some rs left u.1
                (covers-all_left name quantity resources left rs e u.0 (ground arith)) in
            (rest.0, ground (arith, e, rest.1))
      ]

  -- The node with the id, if there is one, covers the requests.
  abbrev covered : ℕ → ResourceList Q → NumaNode Q → Bool
  covered id rs n = not (n.numa_id == id) || all (λ r. covers (lookup r.0 n.resources) r) rs

  subtract_everywhere :
      (rs : ResourceList Q) (id : ℕ) (nodes : List (NumaNode Q))
      → UniqueNames rs
      → all (covered id rs) nodes ≡ true
      → (left : List (NumaNode Q)) × (subtract_resources_from_numa_node_list helpers qos rs id nodes
          ≡ some left)
        × (map (λ n. n.numa_id) left ≡ map (λ n. n.numa_id) nodes)
  unfolding subtract_resources_from_numa_node_list all
  subtract_everywhere rs id [] u h = ([], refl, refl)
  subtract_everywhere rs id (n ∷ ns) u h =
      let rest = subtract_everywhere rs id ns u (ground arith) in
      elim (Bool-cases (n.numa_id == id)) [
        | inl e ↦
            let (left, f) = subtract_all-some rs n.resources u (ground arith) in
            (
              record n { resources = left } ∷ rest.0,
              ground (arith, e, f, rest.1),
              ground (arith, rest.2),
            )
        | inr e ↦ (n ∷ rest.0, ground (arith, e, rest.1), ground (arith, rest.2))
      ]

  -- The same for one request.
  abbrev covered_one : ℕ → String × Q → NumaNode Q → Bool
  covered_one id r n = not (n.numa_id == id) || covers (lookup r.0 n.resources) r

  covered_zero :
      (id : ℕ) (r : String × Q) (nodes : List (NumaNode Q))
      → helpers.is_zero r.1 ≡ true
      → all (covered_one id r) nodes ≡ true
  unfolding all
  covered_zero id r [] h = refl
  covered_zero id r (n ∷ ns) h = ground (arith, covered_zero id r ns h)

  covered_unknown :
      (id : ℕ) (r : String × Q) (nodes : List (NumaNode Q))
      → is_known helpers r.0 nodes ≡ false
      → all (covered_one id r) nodes ≡ true
  unfolding all has
  covered_unknown id r [] h = refl
  covered_unknown id r (n ∷ ns) h = ground (arith, covered_unknown id r ns)

  absent :
      (id : ℕ) (r : String × Q) (n : NumaNode Q) (nodes : List (NumaNode Q))
      → n.numa_id ≡ id
      → All (λ m. (n.numa_id == m.numa_id) ≡ false) nodes
      → (suffices helpers qos r.0 r.1 nodes id ≡ false) × (all (covered_one id r) nodes ≡ true)
  unfolding all
  absent id r n [] e d = (refl, refl)
  absent id r n (m ∷ ms) e d = ground (arith, d, absent id r n ms e d.1)

  covered_suffices :
      (id : ℕ) (r : String × Q) (nodes : List (NumaNode Q))
      → DistinctIds nodes
      → suffices helpers qos r.0 r.1 nodes id ≡ true
      → all (covered_one id r) nodes ≡ true
  unfolding all
  covered_suffices id r [] d h = refl
  covered_suffices id r (n ∷ ns) d h = elim (Option-cases (lookup r.0 n.resources)) [
    | inl e ↦ ground (arith, e, covered_suffices id r ns d.1, absent id r n ns)
    | inr (q, e) ↦ ground (arith, e, covered_suffices id r ns d.1, absent id r n ns)
  ]

  fits-covered_one :
      (id : ℕ) (r : String × Q) (nodes : List (NumaNode Q))
      → DistinctIds nodes
      → fits helpers qos nodes id r ≡ true
      → all (covered_one id r) nodes ≡ true
  fits-covered_one id r nodes d h =
      ground
        (arith, covered_zero id r nodes, covered_unknown id r nodes, covered_suffices id r nodes d)

  covered-cons :
      (id : ℕ) (r : String × Q) (rs : ResourceList Q) (nodes : List (NumaNode Q))
      → all (covered_one id r) nodes ≡ true
      → all (covered id rs) nodes ≡ true
      → all (covered id (r ∷ rs)) nodes ≡ true
  unfolding all
  covered-cons id r rs [] h k = refl
  covered-cons id r rs (n ∷ ns) h k = ground (arith, covered-cons id r rs ns)

  covered-nil : (id : ℕ) (nodes : List (NumaNode Q)) → all (covered id []) nodes ≡ true
  unfolding all
  covered-nil id [] = refl
  covered-nil id (n ∷ ns) = ground (arith, covered-nil id ns)

  fits-covered :
      (id : ℕ) (rs : ResourceList Q) (nodes : List (NumaNode Q))
      → DistinctIds nodes
      → all (fits helpers qos nodes id) rs ≡ true
      → all (covered id rs) nodes ≡ true
  unfolding all
  fits-covered id [] nodes d h = covered-nil id nodes
  fits-covered id (r ∷ rs) nodes d h =
      covered-cons id r rs nodes (fits-covered_one id r nodes d (ground arith))
        (fits-covered id rs nodes d (ground arith))

  -- What fits on a NUMA node can be subtracted from it.
  pub fits-subtract :
      (rs : ResourceList Q) (id : ℕ) (nodes : List (NumaNode Q))
      → UniqueNames rs
      → DistinctIds nodes
      → all (fits helpers qos nodes id) rs ≡ true
      → (left : List (NumaNode Q)) × (subtract_resources_from_numa_node_list helpers qos rs id nodes
          ≡ some left)
        × (map (λ n. n.numa_id) left ≡ map (λ n. n.numa_id) nodes)
  fits-subtract rs id nodes u d h = subtract_everywhere rs id nodes u (fits-covered id rs nodes d h)
