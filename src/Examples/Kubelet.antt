-- ===== src/Examples/Kubelet.antt =====
-- An instance of what pkg/noderesourcetopology takes from Kubernetes, and a node of two NUMA zones.
use plugins_improve.Prelude.{
  ℕ, ltb, ◌==◌, length, ℤ, pos, ltb_ℤ, eqb_ℤ, Bool, false, ◌&&◌, ◌||◌, none, some, List, [], ◌∷◌,
  String, str_eq, keep, refl, if◌then◌else◌,
}
use plugins_improve.Quantities.{int_quantities}
use plugins_improve.Queue.Qos.{guaranteed}
use plugins_improve.Cache.Store.{Zone, Nrt, Pod}
use plugins_improve.Topology.Config.{KubeletNames}
use plugins_improve.Topology.Numa.{Helpers, NumaNode}
use plugins_improve.Topology.Fit.{BitMaskApi, up_to}
use plugins_improve.Topology.Filter.{NodeInfo}
use plugins_improve.Topology.Least.{Distances}

abbrev pub int_helpers : Helpers int_quantities
int_helpers = record {
  is_zero = λ q. eqb_ℤ q (pos 0);
  is_negative = λ q. ltb_ℤ q (pos 0);
  value = λ q. q;
  milli_value = λ q. q;
  get_pod_qos = λ p. guaranteed;
  is_native_resource = λ name. str_eq name "cpu" || str_eq name "memory";
  is_huge_page_resource_name = λ name. false;
  name_to_id = λ name.
      if str_eq name "node-0" then some 0 else if str_eq name "node-1" then some 1 else none;
  is_zero-amount = λ q. refl;
  is_negative-amount = λ q. refl;
}

abbrev pub bits : BitMaskApi
bits = record {
  B = ℕ → Bool;
  empty = λ i. false;
  fill = λ i. ltb i 64;
  add = λ i b j. ltb i 64 && i == j || b j;
  meet = λ a b i. a i && b i;
  is_empty = λ b. length (keep b (up_to 64)) == 0;
  get_bits = λ b. keep b (up_to 64);
  count = λ b. length (keep b (up_to 64));
  has_bit = λ b. b;
  has_bit-empty = λ i. refl;
  has_bit-fill = λ i. refl;
  has_bit-add = λ b i j. refl;
  has_bit-meet = λ a b i. refl;
  get_bits-has_bit = λ b. refl;
  is_empty-get_bits = λ b. refl;
  count-get_bits = λ b. refl;
}

-- Distances as integers: the sum in place of the quotient.
abbrev pub int_distances : Distances
int_distances = record {
  D = ℤ;
  average = λ accu n. accu;
  max_distance_value = pos 255;
  over_max = pos 256;
  lt = ltb_ℤ;
  eq = eqb_ℤ;
}

abbrev pub names : KubeletNames
names = record {
  container_scope = "container";
  pod_scope = "pod";
  none_policy = "none";
  best_effort_policy = "best-effort";
  restricted_policy = "restricted";
  single_numa_node_policy = "single-numa-node";
  single_numa_node_pod_level = "SingleNUMANodePodLevel";
  single_numa_node_container_level = "SingleNUMANodeContainerLevel";
  best_effort_pod_level = "BestEffortPodLevel";
  best_effort_container_level = "BestEffortContainerLevel";
  restricted_pod_level = "RestrictedPodLevel";
  restricted_container_level = "RestrictedContainerLevel";
}

abbrev pub zone_of : String → ℤ → ℤ → Zone ℤ
zone_of name cpus memory = record {
  name = name;
  kind = "Node";
  costs = ("node-0", pos 10) ∷ ("node-1", pos 20) ∷ [];
  resources =
      record { name = "cpu"; available = cpus }
      ∷ record { name = "memory"; available = memory }
      ∷ [];
}

abbrev pub two_zones : List (Zone ℤ)
two_zones = zone_of "node-0" (pos 2) (pos 8) ∷ zone_of "node-1" (pos 6) (pos 8) ∷ []

abbrev pub two_zone_node : Nrt ℤ
two_zone_node = record {
  name = "n1";
  topology_policies = "SingleNUMANodePodLevel" ∷ [];
  attributes = [];
  annotations = [];
  zones = two_zones;
}

abbrev pub four_cpus : Pod ℤ
four_cpus = record {
  namespace = "shop";
  name = "p";
  uid = "1";
  node_name = "n1";
  scheduler_name = "s";
  spec = record {
    init_containers = [];
    containers = (("cpu", pos 4) ∷ ("memory", pos 4) ∷ []) ∷ [];
    overhead = [];
  };
}

abbrev pub big_node : NodeInfo ℤ
big_node = record { name = "n1"; allocatable = ("cpu", pos 8) ∷ ("memory", pos 16) ∷ [] }

abbrev pub numa_node : ℕ → ℤ → NumaNode ℤ
numa_node id cpus = record {
  numa_id = id;
  resources = ("cpu", cpus) ∷ ("memory", pos 8) ∷ [];
  costs = (0, pos 10) ∷ (1, pos 20) ∷ [];
}

abbrev pub two_nodes : List (NumaNode ℤ)
two_nodes = numa_node 0 (pos 2) ∷ numa_node 1 (pos 6) ∷ []
