-- ===== src/Topology/Least/Sets.antt =====
-- What a set of NUMA nodes offers, for numaNodesRequired of pkg/noderesourcetopology/least_numa.go.
use plugins_improve.Prelude.{
  ℕ, suc, ◌+◌, ◌≤◌, ◌<◌, ltb, ◌==◌, length, Bool, true, false, ◌&&◌, ◌||◌, Option, none, some, List,
  [], ◌∷◌, String, str_eq, eq_iff, lookup, lookup_or, lookup-insert, insert, has, all, ◌≡◌, ◌∙◌,
  ◌⊎◌, inl, inr, Option-cases, refl, arith, if◌then◌else◌,
}
use plugins_improve.Quantities.{QuantityApi, ResourceList}
use plugins_improve.Queue.Qos.{PodQosClass}
use plugins_improve.Topology.Numa.{Helpers, NumaNode, is_resource_set_suitable}
use plugins_improve.Topology.Fit.{BitMaskApi}
use plugins_improve.Topology.Least.{
  Distances, Combinations, at, combine_into, combine_from, combine_resources, check_resources_fit,
  has_all, is_valid_combine_resources, combination_fits, bits_of,
}

-- A set of indices from a first to below a last, in increasing order.
abbrev pub Increasing : ℕ → ℕ → List ℕ → Type 0
Increasing first last [] = Unit
Increasing first last (i ∷ is) = (first ≤ i) × (i < last) × Increasing (suc i) last is

-- A list is among the lists.
abbrev pub Among : List ℕ → List (List ℕ) → Type 0
Among c [] = ⊥
Among c (d ∷ ds) = (c ≡ d) ⊎ Among c ds

-- What gonum documents: the combinations of k of n are the sets of k indices below n.
pub record Lawful (combinations : Combinations) : Type 0 where
  pub sound :
      (n k : ℕ) (c : List ℕ) → Among c (combinations n k) → Increasing 0 n c × (length c ≡ k)
  pub complete :
      (n k : ℕ) (c : List ℕ) → Increasing 0 n c → length c ≡ k → Among c (combinations n k)

pub length-Increasing :
    (c : List ℕ) (first last : ℕ) → Increasing first last c → first ≤ last → first + length c ≤ last
length-Increasing [] first last h k = omega arith
length-Increasing (i ∷ is) first last (a, b, rest) k =
    omega (arith, length-Increasing is (suc i) last rest (omega arith))

pub all-Among :
    (p : List ℕ → Bool) (cs : List (List ℕ)) (c : List ℕ)
    → Among c cs
    → all p cs ≡ true
    → p c ≡ true
unfolding all
all-Among p [] c m h = absurd m
all-Among p (d ∷ ds) c (inl e) h = rw e (ground arith)
all-Among p (d ∷ ds) c (inr m) h = all-Among p ds c m (ground arith)

module _ {api : QuantityApi} (helpers : Helpers api) (mask : BitMaskApi) (dist : Distances)
    (combinations : Combinations) (qos : PodQosClass) (nodes : List (NumaNode api.Q))
    (requests : ResourceList api.Q) where
  open api use {Q, zero_q, add}

  abbrev pub node_at : ℕ → NumaNode Q
  node_at i = at helpers mask dist combinations nodes i

  -- The sum of the quantities of a name, none where no entry has it.
  abbrev sum_named : String → ResourceList Q → Option Q → Option Q
  sum_named name [] sum = sum
  sum_named name ((k, q) ∷ rest) sum =
      sum_named name rest
        (if str_eq k name then elim sum [ none ↦ some q | some v ↦ some (add v q) ] else sum)

  abbrev sum_over : String → List ℕ → Option Q → Option Q
  sum_over name [] sum = sum
  sum_over name (i ∷ is) sum = sum_over name is (sum_named name (node_at i).resources sum)

  abbrev pub total : String → List ℕ → Q
  total name c = elim (sum_over name c none) [ none ↦ zero_q | some q ↦ q ]

  -- The nodes suffice for the requests: each has all of the resources, and the sum of each that is
  -- requested is suitable.
  abbrev pub suffices : List ℕ → Bool
  suffices c =
      all (λ i. all (λ r. has r.0 (node_at i).resources) requests) c
      && all
          (λ r. helpers.is_zero r.1 || is_resource_set_suitable helpers qos r.0 r.1 (total r.0 c))
          requests

  -- The ids below 64 of the nodes.
  abbrev pub has_id : List ℕ → ℕ → Bool
  has_id [] id = false
  has_id (i ∷ is) id = ltb (node_at i).numa_id 64 && (node_at i).numa_id == id || has_id is id

  regroup : (a b c : Bool) → (a || b || c) ≡ (b || (a || c))
  regroup a b c = ground arith

  pub has_bit-bits_of :
      (c : List ℕ) (bm : mask.B) (id : ℕ)
      → mask.has_bit (bits_of helpers mask dist combinations nodes c bm) id
        ≡ (mask.has_bit bm id || has_id c id)
  unfolding bits_of
  has_bit-bits_of [] bm id = ground arith
  has_bit-bits_of (i ∷ is) bm id =
      has_bit-bits_of is (mask.add (node_at i).numa_id bm) id
      ∙ (rw (mask.has_bit-add bm (node_at i).numa_id id) (
          regroup (ltb (node_at i).numa_id 64 && (node_at i).numa_id == id) (mask.has_bit bm id)
            (has_id is id)))

  lookup-combined :
      (name k : String) (q : Q) (r : ResourceList Q)
      → lookup name
          (elim (lookup k r) [ none ↦ insert k q r | some value ↦ insert k (add value q) r ])
        ≡ (if str_eq k name
            then elim (lookup name r) [ none ↦ some q | some v ↦ some (add v q) ]
            else lookup name r)
  lookup-combined name k q r = elim (Option-cases (lookup k r)) [
    | inl e ↦ ground (arith, e, eq_iff k name, lookup-insert k name q r)
    | inr (value, e) ↦ ground (arith, e, eq_iff k name, lookup-insert k name (add value q) r)
  ]

  lookup-combine_into :
      (name : String) (entries r : ResourceList Q)
      → lookup name (combine_into helpers mask dist combinations r entries)
        ≡ sum_named name entries (lookup name r)
  unfolding combine_into
  lookup-combine_into name [] r = refl
  lookup-combine_into name ((k, q) ∷ rest) r =
      rw (← lookup-combined name k q r) (lookup-combine_into name rest _)

  lookup-combine_from :
      (name : String) (c : List ℕ) (r : ResourceList Q)
      → lookup name (combine_from helpers mask dist combinations nodes c r)
        ≡ sum_over name c (lookup name r)
  unfolding combine_from
  lookup-combine_from name [] r = refl
  lookup-combine_from name (i ∷ is) r =
      rw (← lookup-combine_into name (node_at i).resources r) (lookup-combine_from name is _)

  has_all-all :
      (rs available : ResourceList Q)
      → has_all helpers mask dist combinations rs available ≡ all (λ r. has r.0 available) rs
  unfolding has_all all
  has_all-all [] available = refl
  has_all-all (r ∷ rs) available = ground (arith, has_all-all rs available)

  valid-all :
      (c : List ℕ)
      → is_valid_combine_resources helpers mask dist combinations nodes requests c
        ≡ all (λ i. all (λ r. has r.0 (node_at i).resources) requests) c
  unfolding is_valid_combine_resources all
  valid-all [] = refl
  valid-all (i ∷ is) = ground (arith, valid-all is, has_all-all requests (node_at i).resources)

  lookup_or-total :
      (name : String) (c : List ℕ)
      → lookup_or name zero_q (combine_resources helpers mask dist combinations nodes c)
        ≡ total name c
  unfolding lookup_or combine_resources lookup
  lookup_or-total name c = rw (lookup_or, lookup-combine_from name c []) refl

  check-all :
      (rs : ResourceList Q) (c : List ℕ)
      → check_resources_fit helpers mask dist combinations qos rs
          (combine_resources helpers mask dist combinations nodes c)
        ≡ all
            (λ r. helpers.is_zero r.1 || is_resource_set_suitable helpers qos r.0 r.1 (total r.0 c))
            rs
  unfolding check_resources_fit all
  check-all [] c = refl
  check-all ((name, q) ∷ rs) c = ground (arith, check-all rs c, lookup_or-total name c)

  pub combination_fits-suffices :
      (c : List ℕ)
      → combination_fits helpers mask dist combinations qos nodes requests c ≡ suffices c
  unfolding combination_fits
  combination_fits-suffices c = rw (valid-all c, check-all requests c) refl
