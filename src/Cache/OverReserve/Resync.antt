-- ===== src/Cache/OverReserve/Resync.antt =====
-- What Resync of pkg/noderesourcetopology/cache/overreserve.go replaces.
use plugins_improve.Prelude.{
  suc, ◌+◌, ◌≡◌, refl, inl, inr, true, ◌||◌, Option, none, some, List, [], ◌∷◌, ◌++◌, String, arith,
  eq_iff, elem, elem-keys, has, keys, lookup_or, length, has-insert, Option-cases, ◌==◌,
  if◌then◌else◌,
}
use plugins_improve.Quantities.{QuantityApi}
use plugins_improve.Cache.Store.{Nrt, Counter, incr, is_set, Pod, PodData}
use plugins_improve.Cache.OverReserve.{
  OverReserve, incr_all, get_desynced_nodes, flush_nodes, get_cached_nrt_copy, ResyncEnv,
  node_to_pod_data, make_node_to_pod_data_map, resync_candidate, collect, resync_updates, resync,
}
use plugins_improve.Cache.OverReserve.Matching.{matching, resync_candidate-matching}
use plugins_improve.Cache.OverReserve.Trace.{last_named}
use plugins_improve.Cache.OverReserve.Flush.{flush_nodes_view}

has-incr_all :
    (k : String) (ks : List String) (c : Counter) → has k (incr_all ks c) ≡ (elem k ks || has k c)
unfolding incr_all elem incr
has-incr_all k [] c = refl
has-incr_all k (j ∷ ks) c =
    ground (arith, has-incr_all k ks (incr j c), has-insert j k (suc (lookup_or j 0 c)) c)

module _ {Q : Type 0} where
  last_named-append :
      (node : String) (a b : List (Nrt Q))
      → last_named node (a ++ b)
        ≡ (elim (last_named node b) [ none ↦ last_named node a | some n ↦ some n ])
  unfolding last_named
  last_named-append node [] b = ground arith
  last_named-append node (n ∷ a) b = ground (arith, last_named-append node a b)

  -- A lookup that returns objects of the name that it was asked for.
  abbrev pub Named : (String → Option (Nrt Q)) → Type 0
  Named f = (k : String) (c : Nrt Q) → f k ≡ some c → c.name ≡ k

module _ {Q : Type 0} (env : ResyncEnv Q) (named : Named env.get_nrt) where
  last_named-collect :
      (f : String → Option (Nrt Q)) (node : String) (names : List String)
      → Named f
      → last_named node (collect env f names) ≡ (if elem node names then f node else none)
  unfolding last_named collect elem
  last_named-collect f node [] h = refl
  last_named-collect f node (n ∷ ns) h = elim (Option-cases (f n)) [
    | inl e ↦ ground (arith, eq_iff n node, last_named-collect f node ns h)
    | inr (c, e) ↦
        ground (arith, eq_iff n node, eq_iff c.name node, h n c e, last_named-collect f node ns h)
  ]

  resync_candidate-get_nrt :
      (m : List (String × List PodData)) (node : String) (c : Nrt Q)
      → resync_candidate env m node ≡ some c
      → env.get_nrt node ≡ some c
  unfolding resync_candidate
  resync_candidate-get_nrt m node c h = ground arith

  -- The early return of a resync with nothing to do is a flush of nothing.
  shortcut :
      (f g : String → Option (Nrt Q)) (a b : List String) (ov : OverReserve Q)
      → (if (length a + length b) == 0
          then ov
          else flush_nodes (collect env f a ++ collect env g b) ov)
        ≡ flush_nodes (collect env f a ++ collect env g b) ov
  unfolding flush_nodes collect
  shortcut f g [] [] ov = refl
  shortcut f g [] (y ∷ b) ov = ground arith
  shortcut f g (x ∷ a) b ov = ground arith

  resync-flush :
      (ov : OverReserve Q) (pods : List (Pod Q))
      → env.list_pods ≡ some pods
      → resync env ov
        ≡ flush_nodes (resync_updates env (get_desynced_nodes ov) (node_to_pod_data env pods [])) ov
  unfolding resync resync_updates make_node_to_pod_data_map
  resync-flush ov pods h =
      let nodes = get_desynced_nodes ov in
      let m = node_to_pod_data env pods [] in
      rw h (
        shortcut (resync_candidate env m) env.get_nrt nodes.maybe_over_reserved nodes.config_changed
          ov)

  -- What a resync has for a node: the client's data if its attributes changed, the data that matches
  -- the pods if it was discarded or has foreign pods, else nothing.
  abbrev pub chosen : OverReserve Q → List (Pod Q) → String → Option (Nrt Q)
  chosen ov pods node =
      if is_set node ov.nodes_with_attr_update
      then env.get_nrt node
      else if is_set node ov.nodes_maybe_overreserved || is_set node ov.nodes_with_foreign_pods
      then matching env pods node
      else none

  last_named-resync_updates :
      (ov : OverReserve Q) (pods : List (Pod Q)) (node : String)
      → last_named node (resync_updates env (get_desynced_nodes ov) (node_to_pod_data env pods []))
        ≡ chosen ov pods node
  unfolding resync_updates get_desynced_nodes is_set
  last_named-resync_updates ov pods node =
      let m = node_to_pod_data env pods [] in
      let dirty = keys (incr_all (keys ov.nodes_maybe_overreserved) ov.nodes_with_foreign_pods) in
      let changed = keys ov.nodes_with_attr_update in
      let candidate_named : Named (resync_candidate env m) =
        λ k c e. named k c (resync_candidate-get_nrt m k c e) in
      rw (← resync_candidate-matching env pods node) (
        ground (
          arith,
          last_named-append node (collect env (resync_candidate env m) dirty)
              (collect env env.get_nrt changed),
          last_named-collect (resync_candidate env m) node dirty candidate_named,
          last_named-collect env.get_nrt node changed named,
          elem-keys node (incr_all (keys ov.nodes_maybe_overreserved) ov.nodes_with_foreign_pods),
          has-incr_all node (keys ov.nodes_maybe_overreserved) ov.nodes_with_foreign_pods,
          elem-keys node ov.nodes_maybe_overreserved,
          elem-keys node ov.nodes_with_attr_update,
          Option-cases (resync_candidate env m node),
          λ (c : Nrt Q). resync_candidate-get_nrt m node c,
        ))

-- If the pods can be listed and the client returns objects of the name that it is asked for, a resync
-- replaces what is served for exactly these nodes: those with changed attributes that the client
-- has, and those discarded or with foreign pods whose relevant pods, at least one, have the
-- fingerprint that the client's data announces. Only the pods with exclusive resources count for a
-- fingerprint of that kind. What is served for every other node stays as it was.
pub resync_view :
    (api : QuantityApi) (env : ResyncEnv api.Q) (named : Named env.get_nrt) (ov : OverReserve api.Q)
    (pods : List (Pod api.Q)) (node : String)
    → env.list_pods ≡ some pods
    → let before = get_cached_nrt_copy api node ov in
      let after = get_cached_nrt_copy api node (resync env ov) in
      (after.0 ≡ (elim (chosen env named ov pods node) [ none ↦ before.0 | some n ↦ some n ]))
      × (after.1.fresh
          ≡ (elim (chosen env named ov pods node) [ none ↦ before.1.fresh | some n ↦ true ]))
resync_view api env named ov pods node h =
    let view =
      flush_nodes_view api
        (resync_updates env (get_desynced_nodes ov) (node_to_pod_data env pods [])) ov node in
    rw (resync-flush env named ov pods h, ← last_named-resync_updates env named ov pods node)
      (view.0, view.1)
