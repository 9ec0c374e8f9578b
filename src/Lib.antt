-- ===== src/Lib.antt =====
-- Scheduler plugins for Kubernetes: a model of the repository's plugins in functions, and the
-- theorems that make them correct.
--
-- The scheduler framework runs a cycle for each pod. A plugin is asked in PreFilter, Filter and Score
-- and told in Reserve and Unreserve, informers call its event handlers, and a preemption dry-runs the
-- removal of pods on one node. The parts that are modelled:
--
-- - Network: pkg/networkaware. `Search` is the loop of the three binary searches, `Util` the helpers
--   of util/util.go, `Costs` the cost map (populateCostMap and the two lookups of resources),
--   `Passes` checkMaxNetworkCostRequirements and getAccumulatedCost, and `Overhead` PreFilter,
--   Filter, Score and NormalizeScore of networkoverhead/networkoverhead.go. PreFilter returns the state that the
--   cycle holds afterwards; the panic of a nil pointer is a result of its own.
-- - Cache: pkg/noderesourcetopology/cache. `Store` is store.go, `OverReserve` overreserve.go and
--   `DiscardReserved` discardreserved.go. A method is one step on the record of the cache's fields,
--   since each holds the lock; Resync is the choice of the updates and the flush, and `Trace` runs any
--   sequence of calls. `Interface` is the interface of cache.go with its three caches, and the
--   detection of foreign pods. Pod quantities are those of `Quantities`, which has
--   GetPodEffectiveRequest of pkg/util/resource.go.
-- - Topology: pkg/noderesourcetopology, which asks such a cache. `Config` reads the kubelet's policy and
--   scope (nodeconfig/topologymanager.go), `Numa` the NUMA nodes (numaresources.go, pluginhelpers.go),
--   `Exclusive` is resourcerequests/exclusive.go, `Fit` the search of filter.go over bit masks,
--   `Filter` its handlers with Filter, Reserve, Unreserve and PostBind, `Strategies` the scores of one
--   NUMA node, `Score` the score of a node, and `Least` the score by the fewest NUMA nodes
--   (least_numa.go).
-- - Capacity: pkg/capacityscheduling. `Resource` has the framework's resources and ResourceList,
--   `Quota` is elasticquota.go, `Plugin` the extension points and the event handlers of
--   capacity_scheduling.go, and `Preempt` its preemptor. A map of pointers to quotas is a map of
--   values that an operation writes back.
-- - Preemption: what the two preemptors share, `Pdb` (filterPodsWithPDBViolation), `Simulation` (the
--   dry run) and `Reprieve` (reprievePod and its loops), and `Toleration`, which is
--   pkg/preemptiontoleration. The node and the cycle state are one abstract state there, and the
--   calls of the framework are fields of `Handle`.
-- - Config: the defaults and the validation of the plugin arguments in apis/config.
-- - Controllers: pkg/controllers. `PodGroup` is podgroup_controller.go, where a reconciliation is a
--   step on the group, and `Usage` is elasticquota_controller.go.
-- - Prelude: maps, integers and lists. Integers of 64 and 32 bits wrap around where the source
--   computes with them. Instants are nanoseconds without a bound.
-- - Queue: the comparisons of the scheduling queue, `Qos` of pkg/qos/queue_sort.go and `Topological`
--   of pkg/networkaware/topologicalsort/topologicalsort.go.
-- - Rescheduler: pkg/rescheduler. `Calculator` and `Plugin` are the resource calculator, Filter,
--   Score, Reserve, Unreserve and PreBind of rescheduler.go, `Settings` parses its arguments, applies
--   them to the configuration and validates it, `Reservations` its reservation manager, `Migration`
--   which pods controller.go may move, with the history, and `Controller` its measured usages, analyses
--   and round of evictions. The arithmetic of float64 (`Float64` of Floats), the API's answers and the clock are
--   parameters.
-- - Scores: NormalizeScore of pkg/noderesources/allocatable.go, which pkg/podstate/pod_state.go has
--   line by line, and the score of the latter; `Allocatable` is the rest of pkg/noderesources.
-- - Sysched: pkg/sysched/sysched.go. `Paths` is parseNameNS, `Profiles` the system calls of a pod, and
--   `Hosts` the state with the handlers of pod events and Score; `Tracking` runs any sequence of
--   events. The average of the scores, which only a log reads, is kept too.
-- - Examples: the theorems at concrete inputs.
--
-- The search loop runs on fuel, one more than the length of the list, and a theorem shows that the
-- fuel is never used up. All other loops are recursion on lists. A range over a Go map follows the
-- order of an association list, so what holds for every list holds for every order. `sort.Slice` is
-- an insertion sort, which is one of the orders that the library may leave.
--
-- Code of other repositories is an interface with the laws that the source relies on: resource
-- quantities (`QuantityApi`, `QuotaApi`), the framework's resources (`FrameworkApi`), label selectors
-- (`SelectorApi`), pod fingerprints (`PfpApi`), the names and tests of Kubernetes (`Helpers`,
-- `KubeletNames`), the kubelet's bit masks (`BitMaskApi`), the combinations of gonum and float32
-- (`Combinations`, `Distances`), sets of strings (`CallSets`), and the clients and listers, which are functions.
--
-- Not modelled: the watcher of attributes behind the cache and the start of the topology plugin; the
-- cross-node preemption, whose code is commented out; the load watching plugins, whose scores are floating-point
-- statistics of an outside service; logging, the types of the configuration, generated clients and entry points.
pub mod Prelude
pub mod Status
pub mod Preemption
pub mod Network
pub mod Quantities
pub mod Cache
pub mod Capacity
pub mod Config
pub mod Controllers
pub mod Examples
pub mod Queue
pub mod Topology
pub mod Floats
pub mod Rescheduler
pub mod Sysched
pub mod Scores
