-- ===== src/Cache/OverReserve/Matching.antt =====
-- When the pods of a node match the data of the client (makeNodeToPodDataMap and the fingerprints of
-- pkg/noderesourcetopology/cache/overreserve.go and store.go).
use plugins_improve.Prelude.{
  ◌≡◌, refl, ap, ◌∙◌, sym, Bool, true, false, not, ◌&&◌, ◌||◌, Option, none, some, List, [], ◌∷◌,
  ◌++◌, map, String, str_eq, eq_iff, lookup, lookup_or, lookup-insert, insert, keep, arith,
  Bool-cases, Option-cases, List-cases, inl, inr, if◌then◌else◌,
}
use mathlib.Core.List.{append_assoc, append-nil}
use plugins_improve.Cache.Store.{
  Nrt, Pod, Fingerprint, matches, mismatch, failure, autodetect, all_pods, only_exclusive_resources,
  PodData, fingerprint_names, pod_fingerprint_for_node_topology, check_pod_fingerprint_for_node,
}
use plugins_improve.Cache.OverReserve.{ResyncEnv, node_to_pod_data, resync_candidate}

module _ {Q : Type 0} (env : ResyncEnv Q) where
  open env use {pfp, method, get_nrt, is_pod_relevant, are_exclusive_for_pod}

  -- The relevant pods on a node.
  abbrev pub on_node : List (Pod Q) → String → List (Pod Q)
  on_node pods node = keep (λ p. is_pod_relevant p && str_eq p.node_name node) pods

  -- The fingerprint that the data of a node announces, empty for none, and whether it is one of the
  -- pods with exclusive resources only.
  abbrev pub announced : Nrt Q → String
  announced nrt = elim (pfp.attr_get nrt.attributes pfp.attribute) [
    | none ↦ lookup_or pfp.annotation "" nrt.annotations
    | some value ↦ value
  ]

  abbrev pub by_method : Option String → Bool
  by_method announced_method = elim method [
    | only_exclusive_resources ↦ true
    | all_pods ↦ false
    | autodetect ↦ elim announced_method [ none ↦ false | some m ↦ str_eq m pfp.method_exclusive ]
  ]

  abbrev pub exclusive_only : Nrt Q → Bool
  exclusive_only nrt = elim (pfp.attr_get nrt.attributes pfp.attribute) [
    | none ↦ false
    | some value ↦ by_method (pfp.attr_get nrt.attributes pfp.attribute_method)
  ]

  -- The names of the pods that count for a fingerprint.
  abbrev pub counted : Bool → List (Pod Q) → List (String × String)
  counted only ps =
      map (λ p. (p.namespace, p.name)) (keep (λ p. not only || are_exclusive_for_pod p) ps)

  abbrev pub is_match : Fingerprint → Bool
  is_match matches = true
  is_match mismatch = false
  is_match failure = false

  -- Whether the data announces a fingerprint, some relevant pod is on the node, and the fingerprint is
  -- that of the pods that count.
  abbrev pub agrees : List (Pod Q) → Nrt Q → Bool
  agrees [] nrt = false
  agrees (p ∷ ps) nrt =
      not (str_eq (announced nrt) "")
      && is_match (pfp.check (counted (exclusive_only nrt) (p ∷ ps)) (announced nrt))

  -- The client's data of a node, where the pods agree with it.
  abbrev pub matching : List (Pod Q) → String → Option (Nrt Q)
  matching pods node = elim (get_nrt node) [
    | none ↦ none
    | some nrt ↦ if agrees (on_node pods node) nrt then some nrt else none
  ]

  abbrev pod_data : Pod Q → PodData
  pod_data p = record {
    namespace = p.namespace;
    name = p.name;
    has_exclusive_resources = are_exclusive_for_pod p;
  }

  abbrev grown : Option (List PodData) → List PodData → Option (List PodData)
  grown none [] = none
  grown none (d ∷ ds) = some (d ∷ ds)
  grown (some old) ds = some (old ++ ds)

  grown_nothing : (o : Option (List PodData)) → o ≡ grown o []
  grown_nothing none = refl
  grown_nothing (some old) = ap some (sym (append-nil old))

  grown_twice :
      (o : Option (List PodData)) (d : PodData) (ds : List PodData)
      → grown (some (elim o [ none ↦ [] | some old ↦ old ] ++ d ∷ [])) ds ≡ grown o (d ∷ ds)
  grown_twice none d ds = refl
  grown_twice (some old) d ds = ap some (append_assoc old (d ∷ []) ds)

  abbrev added : Pod Q → List (String × List PodData) → List (String × List PodData)
  added p m =
      if is_pod_relevant p
      then insert p.node_name (lookup_or p.node_name [] m ++ pod_data p ∷ []) m
      else m

  lookup-added :
      (node : String) (p : Pod Q) (m : List (String × List PodData))
      → lookup node (added p m) ≡ (
          if is_pod_relevant p && str_eq p.node_name node
          then some (elim (lookup node m) [ none ↦ [] | some old ↦ old ] ++ pod_data p ∷ [])
          else lookup node m)
  unfolding lookup_or
  lookup-added node p m = ground (
    arith,
    eq_iff p.node_name node,
    lookup-insert p.node_name node (lookup_or p.node_name [] m ++ pod_data p ∷ []) m,
  )

  lookup-node_to_pod_data :
      (node : String) (ps : List (Pod Q)) (m : List (String × List PodData))
      → lookup node (node_to_pod_data env ps m)
        ≡ grown (lookup node m) (map pod_data (on_node ps node))
  unfolding node_to_pod_data keep lookup_or
  lookup-node_to_pod_data node [] m = grown_nothing (lookup node m)
  lookup-node_to_pod_data node (p ∷ ps) m =
      let step = lookup-node_to_pod_data node ps (added p m) in
      elim (Bool-cases (is_pod_relevant p && str_eq p.node_name node)) [
        | inl t ↦ rw t (
            step
            ∙ (rw (lookup-added node p m, t)
                (grown_twice (lookup node m) (pod_data p) (map pod_data (on_node ps node)))))
        | inr t ↦ rw t (step ∙ (rw (lookup-added node p m, t) refl))
      ]

  fingerprint_names-counted :
      (only : Bool) (ps : List (Pod Q)) → fingerprint_names only (map pod_data ps) ≡ counted only ps
  unfolding fingerprint_names keep
  fingerprint_names-counted only [] = refl
  fingerprint_names-counted only (p ∷ ps) =
      elim (Bool-cases (not only || are_exclusive_for_pod p)) [
        | inl t ↦ rw t (ground (arith, t, fingerprint_names-counted only ps))
        | inr t ↦ rw t (ground (arith, t, fingerprint_names-counted only ps))
      ]

  fingerprint_announced :
      (nrt : Nrt Q)
      → pod_fingerprint_for_node_topology pfp nrt method ≡ (announced nrt, exclusive_only nrt)
  unfolding pod_fingerprint_for_node_topology
  fingerprint_announced nrt = ground arith

  pub resync_candidate-matching :
      (pods : List (Pod Q)) (node : String)
      → resync_candidate env (node_to_pod_data env pods []) node ≡ matching pods node
  unfolding resync_candidate check_pod_fingerprint_for_node lookup
  resync_candidate-matching pods node = elim (Option-cases (get_nrt node)) [
    | inl e ↦ ground (arith, e)
    | inr (nrt, e) ↦ elim (List-cases (on_node pods node)) [
      | inl n ↦ ground (arith, e, n, lookup-node_to_pod_data node pods [])
      | inr (p, ps, n) ↦ ground (
        arith,
        e,
        n,
        lookup-node_to_pod_data node pods [],
        fingerprint_announced nrt,
        fingerprint_names-counted (exclusive_only nrt) (p ∷ ps),
      )
    ]
  ]
