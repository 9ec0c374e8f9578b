-- ===== src/Cache/Interface.antt =====
-- pkg/noderesourcetopology/cache/cache.go: what the plugin knows of a cache, the three caches that
-- provide it, and the detection of foreign pods of foreign_pods.go.
use plugins_improve.Prelude.{
  Bool, true, false, not, Option, List, String, str_eq, elem, if◌then◌else◌,
}
use plugins_improve.Quantities.{QuantityApi}
use plugins_improve.Cache.Store.{Nrt, Pod}
use plugins_improve.Cache.OverReserve.{OverReserve, CachedNrtInfo}
use plugins_improve.Cache.OverReserve
use plugins_improve.Cache.DiscardReserved.{ReservationMap}
use plugins_improve.Cache.DiscardReserved
use plugins_improve.Topology.Numa.{Helpers}
use plugins_improve.Topology.Exclusive.{are_exclusive_for_pod}

pub record TopologyCache (Q : Type 0) : Type 1 where
  pub S : Type 0
  pub get_cached_nrt_copy : String → S → Option (Nrt Q) × CachedNrtInfo
  pub node_maybe_over_reserved : String → S → S
  pub node_has_foreign_pods : String → S → S
  pub reserve_node_resources : String → Pod Q → S → S
  pub unreserve_node_resources : String → Pod Q → S → S
  pub post_bind : String → Pod Q → S → S

abbrev pub over_reserve : (api : QuantityApi) → TopologyCache api.Q
over_reserve api = record {
  S = OverReserve api.Q;
  get_cached_nrt_copy = OverReserve.get_cached_nrt_copy api;
  node_maybe_over_reserved = OverReserve.node_maybe_over_reserved;
  node_has_foreign_pods = OverReserve.node_has_foreign_pods;
  reserve_node_resources = OverReserve.reserve_node_resources api;
  unreserve_node_resources = OverReserve.unreserve_node_resources api;
  post_bind = λ node pod s. s;
}

abbrev pub discard_reserved : {Q : Type 0} → (String → Option (Nrt Q)) → TopologyCache Q
discard_reserved get = record {
  S = ReservationMap;
  get_cached_nrt_copy = DiscardReserved.get_cached_nrt_copy get;
  node_maybe_over_reserved = λ node s. s;
  node_has_foreign_pods = λ node s. s;
  reserve_node_resources = DiscardReserved.reserve_node_resources;
  unreserve_node_resources = DiscardReserved.unreserve_node_resources;
  post_bind = DiscardReserved.post_bind;
}

-- passthrough.go: every read asks the API.
abbrev pub passthrough : {Q : Type 0} → (String → Option (Nrt Q)) → TopologyCache Q
passthrough get = record {
  S = Unit {0};
  get_cached_nrt_copy = λ node s. (get node, record { generation = 0; fresh = true });
  node_maybe_over_reserved = λ node s. s;
  node_has_foreign_pods = λ node s. s;
  reserve_node_resources = λ node pod s. s;
  unreserve_node_resources = λ node pod s. s;
  post_bind = λ node pod s. s;
}

-- The variables of the package that the plugin's start writes.
pub record ForeignPods : Type 0 where
  pub sched_profile_names : List String
  pub only_exclusive_resources : Bool

module _ {api : QuantityApi} (helpers : Helpers api) (config : ForeignPods) where
  open api use {Q}

  unfoldable pub is_foreign_pod : Pod Q → Bool
  is_foreign_pod pod =
      if str_eq pod.node_name ""
      then false
      else if elem pod.scheduler_name config.sched_profile_names
      then false
      else if not config.only_exclusive_resources
      then true
      else are_exclusive_for_pod helpers pod

  -- The handler of every pod event.
  unfoldable pub foreign_cache : (cache : TopologyCache Q) → Pod Q → cache.S → cache.S
  unfolding is_foreign_pod
  foreign_cache cache pod s =
      if not (is_foreign_pod pod) then s else cache.node_has_foreign_pods pod.node_name s
