-- ===== src/Topology/Fit/Lowest.antt =====
-- The NUMA node that resourcesAvailableInAnyNUMANodes of pkg/noderesourcetopology/filter.go selects.
use plugins_improve.Prelude.{
  ℕ, ◌<◌, ◌⊎◌, true, false, not, ◌&&◌, Option, none, some, List, [], ◌∷◌, String, ◌≡◌, refl, ◌∙◌,
  arith, keep, all, Bool-cases, inl, inr, if◌then◌else◌,
}
use plugins_improve.Quantities.{QuantityApi, ResourceList}
use plugins_improve.Queue.Qos.{PodQosClass}
use plugins_improve.Topology.Numa.{Helpers, NumaNode}
use plugins_improve.Topology.Fit.{
  BitMaskApi, up_to, highest_numa_id, resource_bitmask, meet_resource, meet_resources,
  resources_available_in_any_numa_nodes,
}
use plugins_improve.Topology.Fit.Spec.{
  lowest, fits, listed, resource_bitmask-known, resource_bitmask-has_bit,
}
use plugins_improve.Topology.Fit.Bits.{All-up_to, keep-none, keep_ext, is_empty-has_bit}

module _ {api : QuantityApi} (helpers : Helpers api) (mask : BitMaskApi) where
  open api use {Q}
  open mask use {B, empty, fill, add, meet, is_empty, get_bits, has_bit}

  module _ (qos : PodQosClass) (nodes : List (NumaNode Q)) (node_resources : ResourceList Q) where
    -- What the loop from a set of candidates on has found.
    abbrev Verdict : B → ResourceList Q → Option B → Type 0
    Verdict b rs none =
        (all (listed helpers node_resources) rs ≡ false)
        ⊎ ((id : ℕ) → id < 64 → (has_bit b id && all (fits helpers qos nodes id) rs) ≡ false)
    Verdict b rs (some b') =
        (all (listed helpers node_resources) rs ≡ true)
        × (is_empty b' ≡ false)
        × ((id : ℕ)
            → id < 64
            → has_bit b' id ≡ (has_bit b id && all (fits helpers qos nodes id) rs))

    meet_resource-no_bit :
        (name : String) (quantity : Q) (b : B) (id : ℕ)
        → id < 64
        → meet_resource helpers mask qos nodes node_resources name quantity b ≡ none
        → listed helpers node_resources (name, quantity) ≡ true
        → (has_bit b id && fits helpers qos nodes id (name, quantity)) ≡ false
    unfolding meet_resource
    meet_resource-no_bit name quantity b id k e l =
        let found = resource_bitmask helpers mask qos name quantity nodes (false, empty) in
        ground (
          arith,
          resource_bitmask-known helpers mask qos name quantity nodes (false, empty),
          resource_bitmask-has_bit helpers mask qos name quantity nodes (false, empty) id,
          mask.has_bit-empty id,
          mask.has_bit-meet b found.1 id,
          is_empty-has_bit mask (meet b found.1) id,
        )

    meet_resource-none :
        (name : String) (quantity : Q) (rest : ResourceList Q) (b : B)
        → meet_resource helpers mask qos nodes node_resources name quantity b ≡ none
        → Verdict b ((name, quantity) ∷ rest) none
    unfolding all
    meet_resource-none name quantity rest b e =
        elim (Bool-cases (listed helpers node_resources (name, quantity))) [
          | inl l ↦ inr (λ id k. ground (arith, meet_resource-no_bit name quantity b id k e l))
          | inr l ↦ inl (ground arith)
        ]

    meet_resource-some :
        (name : String) (quantity : Q) (b b' : B) (id : ℕ)
        → id < 64
        → is_empty b ≡ false
        → meet_resource helpers mask qos nodes node_resources name quantity b ≡ some b'
        → (listed helpers node_resources (name, quantity) ≡ true)
          × (is_empty b' ≡ false)
          × (has_bit b' id ≡ (has_bit b id && fits helpers qos nodes id (name, quantity)))
    unfolding meet_resource
    meet_resource-some name quantity b b' id k n e =
        let found = resource_bitmask helpers mask qos name quantity nodes (false, empty) in
        ground (
          arith,
          resource_bitmask-known helpers mask qos name quantity nodes (false, empty),
          resource_bitmask-has_bit helpers mask qos name quantity nodes (false, empty) id,
          mask.has_bit-empty id,
          mask.has_bit-meet b found.1 id,
        )

    Verdict-nil : (b : B) → is_empty b ≡ false → Verdict b [] (some b)
    unfolding all
    Verdict-nil b n = (refl, n, λ id k. ground arith)

    Verdict-cons :
        (name : String) (quantity : Q) (rest : ResourceList Q) (b b' : B) (v : Option B)
        → is_empty b ≡ false
        → meet_resource helpers mask qos nodes node_resources name quantity b ≡ some b'
        → Verdict b' rest v
        → Verdict b ((name, quantity) ∷ rest) v
    unfolding all
    Verdict-cons name quantity rest b b' none n e (inl l) = inl (ground arith)
    Verdict-cons name quantity rest b b' none n e (inr h) =
        inr (λ id k. ground (arith, h id k, meet_resource-some name quantity b b' id k n e))
    Verdict-cons name quantity rest b b' (some b'') n e v = (
      ground (arith, v, meet_resource-some name quantity b b' 0 (omega arith) n e),
      v.1,
      λ id k. ground (arith, v.2 id k, meet_resource-some name quantity b b' id k n e),
    )

    Verdict-step :
        (name : String) (quantity : Q) (rest : ResourceList Q) (b : B) (o : Option B)
        → is_empty b ≡ false
        → meet_resource helpers mask qos nodes node_resources name quantity b ≡ o
        → ((b' : B)
            → is_empty b' ≡ false
            → Verdict b' rest (meet_resources helpers mask qos nodes node_resources rest b'))
        → Verdict b ((name, quantity) ∷ rest) (elim o [
          | none ↦ none
          | some both ↦ meet_resources helpers mask qos nodes node_resources rest both
        ])
    Verdict-step name quantity rest b none n e ih = meet_resource-none name quantity rest b e
    Verdict-step name quantity rest b (some b') n e ih =
        Verdict-cons name quantity rest b b'
          (meet_resources helpers mask qos nodes node_resources rest b') n e
          (ih b' (meet_resource-some name quantity b b' 0 (omega arith) n e).1)

    meet_resources-Verdict :
        (rs : ResourceList Q) (b : B)
        → is_empty b ≡ false
        → Verdict b rs (meet_resources helpers mask qos nodes node_resources rs b)
    unfolding meet_resources
    meet_resources-Verdict [] b n = Verdict-nil b n
    meet_resources-Verdict ((name, quantity) ∷ rest) b n =
        Verdict-step name quantity rest b
          (meet_resource helpers mask qos nodes node_resources name quantity b) n refl
          (λ b' m. meet_resources-Verdict rest b' m)

    read_bits :
        (b : B) (rs : ResourceList Q)
        → all (listed helpers node_resources) rs ≡ true
        → is_empty b ≡ false
        → (elim (get_bits b) [ [] ↦ none | id ∷ ids ↦ some (id, not (is_empty b)) ])
          ≡ some (
              if all (listed helpers node_resources) rs
              then lowest (get_bits b)
              else (highest_numa_id, false))
    read_bits b rs l n = ground (arith, mask.is_empty-get_bits b)

    fill-has : is_empty fill ≡ false
    fill-has = ground (arith, is_empty-has_bit mask fill 0, mask.has_bit-fill 0)

    read_verdict :
        (rs : ResourceList Q) (o : Option B)
        → Verdict fill rs o
        → (elim o [
          | none ↦ some (highest_numa_id, false)
          | some bitmask ↦ elim (get_bits bitmask) [
            | [] ↦ none
            | id ∷ ids ↦ some (id, not (is_empty bitmask))
          ]
        ])
          ≡ some (
              if all (listed helpers node_resources) rs
              then lowest (keep (λ id. all (fits helpers qos nodes id) rs) (up_to 64))
              else (highest_numa_id, false))
    read_verdict rs none (inl l) = ground arith
    read_verdict rs none (inr h) =
        let none_fits =
          keep-none (λ id. all (fits helpers qos nodes id) rs) (up_to 64)
            (All-up_to (λ id. all (fits helpers qos nodes id) rs ≡ false) 64
              (λ id k. ground (arith, h id k, mask.has_bit-fill id))) in
        rw none_fits (ground arith)
    read_verdict rs (some b) v =
        let bits : get_bits b ≡ keep (λ id. all (fits helpers qos nodes id) rs) (up_to 64) =
          mask.get_bits-has_bit b
          ∙ keep_ext (has_bit b) (λ id. all (fits helpers qos nodes id) rs) (up_to 64)
              (All-up_to (λ id. has_bit b id ≡ all (fits helpers qos nodes id) rs) 64
                (λ id k. ground (arith, v.2 id k, mask.has_bit-fill id))) in
        rw (← bits) (read_bits b rs v.0 v.1)

    -- The function returns the lowest NUMA id below 64 that can meet every request, and that there is
    -- none where no id can, or where a request that is not zero names a resource that the node does
    -- not list. It never reads an empty list of bits.
    pub resources_available_in_any_numa_nodes_lem :
        (rs : ResourceList Q)
        → resources_available_in_any_numa_nodes helpers mask nodes rs qos node_resources
          ≡ some (
              if all (listed helpers node_resources) rs
              then lowest (keep (λ id. all (fits helpers qos nodes id) rs) (up_to 64))
              else (highest_numa_id, false))
    unfolding resources_available_in_any_numa_nodes
    resources_available_in_any_numa_nodes_lem rs =
        read_verdict rs (meet_resources helpers mask qos nodes node_resources rs fill)
          (meet_resources-Verdict rs fill fill-has)
