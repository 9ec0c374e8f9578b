-- ===== src/Cache/OverReserve/Trace.antt =====
-- The cache of pkg/noderesourcetopology/cache/overreserve.go under any sequence of calls. A resync is
-- two calls, since it releases the lock between the choice of the updates and the flush.
use plugins_improve.Prelude.{
  ◌≡◌, refl, inl, inr, Bool, true, false, Option, none, some, List, [], ◌∷◌, String, arith, str_eq,
  eq_iff, str_eq_refl, lookup, lookup_or, lookup-insert, lookup-delete, has-insert, has-delete, suc,
  All, Option-cases, if◌then◌else◌,
}
use plugins_improve.Quantities.{QuantityApi}
use plugins_improve.Cache.Store.{Nrt, Pod, contains, incr, is_set, drop_key, update}
use plugins_improve.Cache.OverReserve.{
  OverReserve, new_over_reserve, node_maybe_over_reserved, node_has_foreign_pods, flush_node,
  flush_all, flush_nodes, get_cached_nrt_copy, reserve_node_resources, unreserve_node_resources,
}

pub data Call (Q : Type 0) : Type 0 where
  discarded foreign : String → Call Q
  reserved unreserved : String → Pod Q → Call Q
  flushed : List (Nrt Q) → Call Q

module _ (api : QuantityApi) where
  open api use {Q}

  unfoldable pub step : OverReserve Q → Call Q → OverReserve Q
  step ov (discarded node) = node_maybe_over_reserved node ov
  step ov (foreign node) = node_has_foreign_pods node ov
  step ov (reserved node pod) = reserve_node_resources api node pod ov
  step ov (unreserved node pod) = unreserve_node_resources api node pod ov
  step ov (flushed nrts) = flush_nodes nrts ov

  unfoldable pub run : OverReserve Q → List (Call Q) → OverReserve Q
  run ov [] = ov
  run ov (c ∷ cs) = run (step ov c) cs

module _ {Q : Type 0} where
  -- The topology of a node that a flush leaves: the last of that name.
  unfoldable pub last_named : String → List (Nrt Q) → Option (Nrt Q)
  last_named node [] = none
  last_named node (n ∷ ns) = elim (last_named node ns) [
    | some nrt ↦ some nrt
    | none ↦ if str_eq n.name node then some n else none
  ]

  -- Whether a call flushes the node.
  abbrev pub flushes : String → Call Q → Bool
  flushes node (flushed nrts) = elim (last_named node nrts) [ none ↦ false | some n ↦ true ]
  flushes node _ = false

  -- A node that is marked for foreign pods has topology data.
  abbrev pub Tracked : OverReserve Q → Type 0
  Tracked ov =
      (node : String) → is_set node ov.nodes_with_foreign_pods ≡ true → contains node ov.nrts ≡ true

  pub flush_all-foreign :
      (node : String) (ns : List (Nrt Q)) (ov : OverReserve Q)
      → is_set node (flush_all ns ov).nodes_with_foreign_pods ≡ (elim (last_named node ns) [
        | none ↦ is_set node ov.nodes_with_foreign_pods
        | some n ↦ false
      ])
  unfolding flush_all flush_node last_named is_set drop_key
  flush_all-foreign node [] ov = refl
  flush_all-foreign node (n ∷ ns) ov = ground (
    arith,
    flush_all-foreign node ns (flush_node n ov),
    has-delete n.name node ov.nodes_with_foreign_pods,
  )

  pub flush_all-nrts :
      (node : String) (ns : List (Nrt Q)) (ov : OverReserve Q)
      → lookup node (flush_all ns ov).nrts
        ≡ (elim (last_named node ns) [ none ↦ lookup node ov.nrts | some n ↦ some n ])
  unfolding flush_all flush_node last_named update
  flush_all-nrts node [] ov = refl
  flush_all-nrts node (n ∷ ns) ov =
      ground (arith, flush_all-nrts node ns (flush_node n ov), lookup-insert n.name node n ov.nrts)

  pub flush_all-assumed :
      (node : String) (ns : List (Nrt Q)) (ov : OverReserve Q)
      → lookup node (flush_all ns ov).assumed_resources
        ≡ (elim (last_named node ns) [ none ↦ lookup node ov.assumed_resources | some n ↦ none ])
  unfolding flush_all flush_node last_named
  flush_all-assumed node [] ov = refl
  flush_all-assumed node (n ∷ ns) ov = ground (
    arith,
    flush_all-assumed node ns (flush_node n ov),
    lookup-delete n.name node ov.assumed_resources,
  )

  pub flush_nodes-fields :
      (ns : List (Nrt Q)) (ov : OverReserve Q)
      → let f = flush_nodes ns ov in
        let a = flush_all ns ov in
        (f.nodes_with_foreign_pods ≡ a.nodes_with_foreign_pods)
        × (f.nrts ≡ a.nrts)
        × (f.assumed_resources ≡ a.assumed_resources)
  unfolding flush_nodes flush_all
  flush_nodes-fields [] ov = (refl, refl, refl)
  flush_nodes-fields (n ∷ ns) ov = (refl, refl, refl)

  nothing_marked :
      (node : String) (items : List (Nrt Q))
      → is_set node (new_over_reserve items).nodes_with_foreign_pods ≡ true
      → ⊥
  unfolding new_over_reserve is_set lookup
  nothing_marked node items h = ground arith

  node_has_foreign_pods-marks :
      (node : String) (ov : OverReserve Q)
      → contains node ov.nrts ≡ true
      → is_set node (node_has_foreign_pods node ov).nodes_with_foreign_pods ≡ true
  unfolding node_has_foreign_pods incr is_set
  node_has_foreign_pods-marks node ov h = ground (
    arith,
    str_eq_refl node,
    has-insert node node (suc (lookup_or node 0 ov.nodes_with_foreign_pods))
        ov.nodes_with_foreign_pods,
  )

module _ (api : QuantityApi) where
  open api use {Q}

  step-foreign :
      (node : String) (ov : OverReserve Q) (c : Call Q)
      → is_set node ov.nodes_with_foreign_pods ≡ true
      → flushes node c ≡ false
      → is_set node (step api ov c).nodes_with_foreign_pods ≡ true
  unfolding step node_maybe_over_reserved node_has_foreign_pods reserve_node_resources
      unreserve_node_resources is_set incr
  step-foreign node ov (discarded k) s f = s
  step-foreign node ov (foreign k) s f = ground (
    arith,
    has-insert k node (suc (lookup_or k 0 ov.nodes_with_foreign_pods)) ov.nodes_with_foreign_pods,
  )
  step-foreign node ov (reserved k pod) s f = s
  step-foreign node ov (unreserved k pod) s f = ground arith
  step-foreign node ov (flushed ns) s f =
      ground (arith, flush_nodes-fields ns ov, flush_all-foreign node ns ov)

  step-Tracked : (ov : OverReserve Q) (c : Call Q) → Tracked ov → Tracked (step api ov c)
  unfolding step node_maybe_over_reserved node_has_foreign_pods reserve_node_resources
      unreserve_node_resources is_set incr contains
  step-Tracked ov (discarded k) t node s = t node s
  step-Tracked ov (foreign k) t node s = ground (
    arith,
    t node,
    eq_iff k node,
    has-insert k node (suc (lookup_or k 0 ov.nodes_with_foreign_pods)) ov.nodes_with_foreign_pods,
  )
  step-Tracked ov (reserved k pod) t node s = t node s
  step-Tracked ov (unreserved k pod) t node s = ground (arith, t node)
  step-Tracked ov (flushed ns) t node s = elim (Option-cases (last_named node ns)) [
    | inl e ↦ ground (
      arith,
      t node,
      flush_nodes-fields ns ov,
      flush_all-foreign node ns ov,
      flush_all-nrts node ns ov,
    )
    | inr (n, e) ↦
        ground
          (arith, flush_nodes-fields ns ov, flush_all-foreign node ns ov, flush_all-nrts node ns ov)
  ]

  run-foreign :
      (node : String) (ov : OverReserve Q) (cs : List (Call Q))
      → is_set node ov.nodes_with_foreign_pods ≡ true
      → All (λ c. flushes node c ≡ false) cs
      → is_set node (run api ov cs).nodes_with_foreign_pods ≡ true
  unfolding run
  run-foreign node ov [] s f = s
  run-foreign node ov (c ∷ cs) s f =
      run-foreign node (step api ov c) cs (step-foreign node ov c s f.0) f.1

run-Tracked :
    (api : QuantityApi) (ov : OverReserve api.Q) (cs : List (Call api.Q)) (node : String)
    → Tracked ov
    → is_set node (run api ov cs).nodes_with_foreign_pods ≡ true
    → contains node (run api ov cs).nrts ≡ true
unfolding run
run-Tracked api ov [] node t s = t node s
run-Tracked api ov (c ∷ cs) node t s =
    run-Tracked api (step api ov c) cs node (step-Tracked api ov c t) s

-- From the cache that the constructor builds, no sequence of calls marks a node for foreign pods
-- that has no topology data.
pub foreign_nodes_have_data :
    (api : QuantityApi) (items : List (Nrt api.Q)) (cs : List (Call api.Q)) (node : String)
    → is_set node (run api (new_over_reserve items) cs).nodes_with_foreign_pods ≡ true
    → contains node (run api (new_over_reserve items) cs).nrts ≡ true
foreign_nodes_have_data api items cs node s =
    run-Tracked api (new_over_reserve items) cs node (λ n k. fresh_start n k) s
  where
    fresh_start :
        (n : String)
        → is_set n (new_over_reserve items).nodes_with_foreign_pods ≡ true
        → contains n (new_over_reserve items).nrts ≡ true
    fresh_start n k = absurd (nothing_marked n items k)

-- Once a node with topology data is marked for foreign pods, no data is served for it and it is
-- reported as not fresh, whatever calls follow, until one of them flushes the node.
pub foreign_until_flush :
    (api : QuantityApi) (ov : OverReserve api.Q) (node : String) (cs : List (Call api.Q))
    → contains node ov.nrts ≡ true
    → All (λ c. flushes node c ≡ false) cs
    → let after = run api (node_has_foreign_pods node ov) cs in
      get_cached_nrt_copy api node after
      ≡ (none, record { generation = after.generation; fresh = false })
unfolding get_cached_nrt_copy
foreign_until_flush api ov node cs h f =
    rw (run-foreign api node (node_has_foreign_pods node ov) cs (marked ov node h) f)
  where
    marked :
        (o : OverReserve api.Q) (n : String)
        → contains n o.nrts ≡ true
        → is_set n (node_has_foreign_pods n o).nodes_with_foreign_pods ≡ true
    marked o n k = node_has_foreign_pods-marks n o k
