-- ===== src/Examples/Caches.antt =====
-- The theorems on the topology cache, for a node of one zone.
use plugins_improve.Prelude.{
  ℤ, pos, ◌≡◌, refl, arith, str_eq, eq_iff, true, false, Option, none, some, List, [], ◌∷◌, String,
  map, lookup, lookup_or, has, insert, if◌then◌else◌,
}
use plugins_improve.Quantities.{int_quantities}
use plugins_improve.Cache.Store.{
  ResourceInfo, Nrt, Pod, pod_key, PfpApi, matches, all_pods, ResourceStore, new_nrt_store,
  contains, update_nrt,
}
use plugins_improve.Cache.Store.Pessimism.{
  NonNegative, sat_sub, requested, take_all, take_zone_all, update_nrt_lem,
}
use plugins_improve.Cache.OverReserve.{
  OverReserve, ResyncEnv, new_over_reserve, node_has_foreign_pods, get_cached_nrt_copy,
  reserve_node_resources, unreserve_node_resources, resync,
}
use plugins_improve.Cache.OverReserve.Trace.{
  Call, discarded, reserved, flushed, run, foreign_until_flush, last_named,
}
use plugins_improve.Cache.OverReserve.Flush.{unreserve-reserve}
use plugins_improve.Cache.OverReserve.Resync.{Named, chosen, resync_view}

abbrev topology : Nrt ℤ
topology = record {
  name = "n1";
  topology_policies = [];
  attributes = [];
  annotations = [];
  zones =
      record {
        name = "zone-0";
        kind = "Node";
        costs = [];
        resources = record { name = "cpu"; available = pos 8 } ∷ [];
      }
      ∷ [];
}

abbrev cache : OverReserve ℤ
cache = new_over_reserve (topology ∷ [])

abbrev two_cpus : Pod ℤ
two_cpus = record {
  namespace = "shop";
  name = "p";
  uid = "1";
  node_name = "n1";
  scheduler_name = "s";
  spec = record { init_containers = []; containers = (("cpu", pos 2) ∷ []) ∷ []; overhead = [] };
}

cache_has_topology : contains "n1" cache.nrts ≡ true
unfolding contains new_over_reserve new_nrt_store has lookup insert
cache_has_topology = refl

abbrev quiet_calls : List (Call ℤ)
quiet_calls = discarded "n1" ∷ reserved "n1" two_cpus ∷ flushed [] ∷ []

foreign_until_flush_example :
    let after = run int_quantities (node_has_foreign_pods "n1" cache) quiet_calls in
    get_cached_nrt_copy int_quantities "n1" after
    ≡ (none, record { generation = after.generation; fresh = false })
unfolding last_named
foreign_until_flush_example =
    foreign_until_flush int_quantities cache "n1" quiet_calls cache_has_topology
      (refl, (refl, (refl, tt)))

nothing_assumed : lookup (pod_key two_cpus) (lookup_or "n1" [] cache.assumed_resources) ≡ none
unfolding new_over_reserve lookup lookup_or
nothing_assumed = refl

unreserve-reserve_example :
    get_cached_nrt_copy int_quantities "n1" (
      unreserve_node_resources int_quantities "n1" two_cpus
        (reserve_node_resources int_quantities "n1" two_cpus cache))
    ≡ get_cached_nrt_copy int_quantities "n1" cache
unreserve-reserve_example =
    unreserve-reserve int_quantities cache "n1" "n1" two_cpus nothing_assumed

abbrev fingerprints : PfpApi
fingerprints = record {
  attribute = "fp";
  attribute_method = "fp-method";
  method_exclusive = "exclusive";
  annotation = "fp";
  attr_get = λ attrs name. lookup name attrs;
  check = λ names expected. matches;
}

abbrev client : String → Option (Nrt ℤ)
client name =
    if str_eq "n1" name then some (record topology { annotations = ("fp", "x") ∷ [] }) else none

client-Named : Named client
client-Named k c e = ground (arith, eq_iff "n1" k)

abbrev resync_env : ResyncEnv ℤ
resync_env = record {
  pfp = fingerprints;
  method = all_pods;
  get_nrt = client;
  list_pods = some (two_cpus ∷ []);
  is_pod_relevant = λ p. true;
  are_exclusive_for_pod = λ p. false;
}

abbrev marked : OverReserve ℤ
marked = node_has_foreign_pods "n1" cache

resync_view_example :
    let before = get_cached_nrt_copy int_quantities "n1" marked in
    let after = get_cached_nrt_copy int_quantities "n1" (resync resync_env marked) in
    (after.0 ≡ (elim (chosen resync_env client-Named marked (two_cpus ∷ []) "n1") [
      | none ↦ before.0
      | some n ↦ some n
    ]))
    × (after.1.fresh ≡ (elim (chosen resync_env client-Named marked (two_cpus ∷ []) "n1") [
      | none ↦ before.1.fresh
      | some n ↦ true
    ]))
resync_view_example =
    resync_view int_quantities resync_env client-Named marked (two_cpus ∷ []) "n1" refl

abbrev two_assumed : ResourceStore ℤ
two_assumed = ("shop/p", ("cpu", pos 2) ∷ []) ∷ ("shop/q", ("cpu", pos 3) ∷ []) ∷ []

two_assumed-NonNegative : NonNegative int_quantities two_assumed
unfolding lookup
two_assumed-NonNegative = (λ name q h. ground arith, (λ name q h. ground arith, tt))

abbrev cpu_info : ResourceInfo ℤ
cpu_info = record { name = "cpu"; available = pos 8 }

update_nrt_lem_example :
    (update_nrt int_quantities two_assumed topology
      ≡ record topology { zones = map (take_zone_all int_quantities two_assumed) topology.zones })
    × ((take_all int_quantities two_assumed cpu_info).available
        ≡ sat_sub (pos 8) (requested int_quantities "cpu" two_assumed))
update_nrt_lem_example =
    update_nrt_lem int_quantities two_assumed topology cpu_info two_assumed-NonNegative
      (omega arith)
