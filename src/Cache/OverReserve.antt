-- ===== src/Cache/OverReserve.antt =====
-- pkg/noderesourcetopology/cache/overreserve.go: the cache that assumes the resources of scheduled
-- pods on every zone of their node. Each method is one step, since each holds the lock.
pub mod Trace
pub mod Flush
pub mod Matching
pub mod Resync
use plugins_improve.Prelude.{
  ℕ, ◌+◌, ◌%◌, ◌^◌, Bool, true, false, Option, none, some, List, [], ◌∷◌, ◌++◌, String, str_eq,
  lookup, lookup_or, insert, delete, keys, length, ◌==◌, if◌then◌else◌,
}
use plugins_improve.Quantities.{QuantityApi}
use plugins_improve.Cache.Store.{
  Nrt, Pod, NrtStore, new_nrt_store, contains, get_nrt_copy, update, ResourceStore, add_pod,
  delete_pod, update_nrt, Counter, incr, is_set, drop_key, PfpApi, matches, mismatch, failure,
  ResyncMethod, pod_fingerprint_for_node_topology, PodData, check_pod_fingerprint_for_node,
}

pub record OverReserve (Q : Type 0) : Type 0 where
  pub generation : ℕ
  pub nrts : NrtStore Q
  pub assumed_resources : List (String × ResourceStore Q)
  pub nodes_maybe_overreserved : Counter
  pub nodes_with_foreign_pods : Counter
  pub nodes_with_attr_update : Counter

pub record CachedNrtInfo : Type 0 where
  pub generation : ℕ
  pub fresh : Bool

-- The state after the list of all topologies was read.
unfoldable pub new_over_reserve : {Q : Type 0} → List (Nrt Q) → OverReserve Q
new_over_reserve items = record {
  generation = 0;
  nrts = new_nrt_store items [];
  assumed_resources = [];
  nodes_maybe_overreserved = [];
  nodes_with_foreign_pods = [];
  nodes_with_attr_update = [];
}

pub record DesyncedNodes : Type 0 where
  pub generation : ℕ
  pub maybe_over_reserved : List String
  pub config_changed : List String

incr_all : List String → Counter → Counter
incr_all [] c = c
incr_all (k ∷ ks) c = incr_all ks (incr k c)

module _ {Q : Type 0} where
  unfoldable pub node_maybe_over_reserved : String → OverReserve Q → OverReserve Q
  unfolding incr
  node_maybe_over_reserved node ov = record ov {
    nodes_maybe_overreserved = incr node ov.nodes_maybe_overreserved;
  }

  unfoldable pub node_has_foreign_pods : String → OverReserve Q → OverReserve Q
  unfolding incr contains
  node_has_foreign_pods node ov =
      if contains node ov.nrts
      then record ov { nodes_with_foreign_pods = incr node ov.nodes_with_foreign_pods }
      else ov

  -- The keys of the two counters are joined by counting the nodes of the second again.
  unfoldable pub get_desynced_nodes : OverReserve Q → DesyncedNodes
  unfolding incr_all
  get_desynced_nodes ov = record {
    generation = ov.generation;
    maybe_over_reserved =
        keys (incr_all (keys ov.nodes_maybe_overreserved) ov.nodes_with_foreign_pods);
    config_changed = keys ov.nodes_with_attr_update;
  }

  -- The loop body of FlushNodes.
  unfoldable pub flush_node : Nrt Q → OverReserve Q → OverReserve Q
  unfolding update drop_key
  flush_node nrt ov = record ov {
    nrts = update nrt ov.nrts;
    assumed_resources = delete nrt.name ov.assumed_resources;
    nodes_maybe_overreserved = drop_key nrt.name ov.nodes_maybe_overreserved;
    nodes_with_foreign_pods = drop_key nrt.name ov.nodes_with_foreign_pods;
    nodes_with_attr_update = drop_key nrt.name ov.nodes_with_attr_update;
  }

  unfoldable pub flush_all : List (Nrt Q) → OverReserve Q → OverReserve Q
  flush_all [] ov = ov
  flush_all (n ∷ ns) ov = flush_all ns (flush_node n ov)

  unfoldable pub flush_nodes : List (Nrt Q) → OverReserve Q → OverReserve Q
  flush_nodes [] ov = ov
  flush_nodes (n ∷ ns) ov =
      let flushed = flush_all (n ∷ ns) ov in
      record flushed { generation = (ov.generation + 1) % 2 ^ 64 }

module _ (api : QuantityApi) where
  open api use {Q}

  -- The cached data with the assumed resources taken off.
  unfoldable pub get_cached_nrt_copy : String → OverReserve Q → Option (Nrt Q) × CachedNrtInfo
  unfolding is_set get_nrt_copy
  get_cached_nrt_copy node ov =
      if is_set node ov.nodes_with_foreign_pods
      then (none, record { generation = ov.generation; fresh = false })
      else (
        elim (get_nrt_copy node ov.nrts) [
          | none ↦ none
          | some nrt ↦ elim (lookup node ov.assumed_resources) [
            | none ↦ some nrt
            | some assumed ↦ some (update_nrt api assumed nrt)
          ]
        ],
        record { generation = ov.generation; fresh = true },
      )

  unfoldable pub reserve_node_resources : String → Pod Q → OverReserve Q → OverReserve Q
  unfolding lookup_or drop_key
  reserve_node_resources node pod ov =
      let store = lookup_or node [] ov.assumed_resources in
      record ov {
        assumed_resources = insert node (add_pod api pod store).0 ov.assumed_resources;
        nodes_maybe_overreserved = drop_key node ov.nodes_maybe_overreserved;
      }

  unfoldable pub unreserve_node_resources : String → Pod Q → OverReserve Q → OverReserve Q
  unreserve_node_resources node pod ov = elim (lookup node ov.assumed_resources) [
    | none ↦ ov
    | some store ↦ record ov {
      assumed_resources = insert node (delete_pod api pod store).0 ov.assumed_resources;
    }
  ]

-- What a resync reads: the API client by node name, the relevant pods, and the libraries.
pub record ResyncEnv (Q : Type 0) : Type 0 where
  pub pfp : PfpApi
  pub method : ResyncMethod
  pub get_nrt : String → Option (Nrt Q)
  pub list_pods : Option (List (Pod Q))
  pub is_pod_relevant : Pod Q → Bool
  pub are_exclusive_for_pod : Pod Q → Bool

module _ {Q : Type 0} (env : ResyncEnv Q) where
  unfoldable pub node_to_pod_data :
      List (Pod Q) → List (String × List PodData) → List (String × List PodData)
  unfolding lookup_or
  node_to_pod_data [] m = m
  node_to_pod_data (p ∷ ps) m = node_to_pod_data ps (
      if env.is_pod_relevant p
      then insert p.node_name
          (lookup_or p.node_name [] m
            ++ record {
              namespace = p.namespace;
              name = p.name;
              has_exclusive_resources = env.are_exclusive_for_pod p;
            }
              ∷ [])
          m
      else m)

  unfoldable pub make_node_to_pod_data_map : Option (List (String × List PodData))
  unfolding node_to_pod_data
  make_node_to_pod_data_map = elim env.list_pods [
    | none ↦ none
    | some ps ↦ some (node_to_pod_data ps [])
  ]

  -- The first loop body of Resync: the data that replaces the cached one, if the pods on the node are
  -- those that the data was computed for.
  unfoldable pub resync_candidate : List (String × List PodData) → String → Option (Nrt Q)
  unfolding pod_fingerprint_for_node_topology
  resync_candidate objs_map node = elim (env.get_nrt node) [
    | none ↦ none
    | some candidate ↦ elim (lookup node objs_map) [
      | none ↦ none
      | some objs ↦
          let (expected, only_excl) =
            pod_fingerprint_for_node_topology env.pfp candidate env.method in
          if str_eq expected ""
          then none
          else elim (check_pod_fingerprint_for_node env.pfp objs expected only_excl) [
            | matches ↦ some candidate
            | mismatch ↦ none
            | failure ↦ none
          ]
    ]
  ]

  unfoldable pub collect : (String → Option (Nrt Q)) → List String → List (Nrt Q)
  collect f [] = []
  collect f (n ∷ ns) = let rest = collect f ns in elim (f n) [ none ↦ rest | some nrt ↦ nrt ∷ rest ]

  unfoldable pub resync_updates : DesyncedNodes → List (String × List PodData) → List (Nrt Q)
  unfolding collect resync_candidate
  resync_updates nodes objs_map =
      collect (resync_candidate objs_map) nodes.maybe_over_reserved
      ++ collect env.get_nrt nodes.config_changed

  unfoldable pub resync : OverReserve Q → OverReserve Q
  unfolding get_desynced_nodes
  resync ov =
      let nodes = get_desynced_nodes ov in
      if (length nodes.maybe_over_reserved + length nodes.config_changed) == 0
      then ov
      else elim make_node_to_pod_data_map [
        | none ↦ ov
        | some objs_map ↦ flush_nodes (resync_updates nodes objs_map) ov
      ]
