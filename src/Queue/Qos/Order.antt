-- ===== src/Queue/Qos/Order.antt =====
-- The comparison of pkg/qos/queue_sort.go is one that a heap can use.
use plugins_improve.Prelude.{◌≡◌, ◌<◌, ◌⊎◌, ◌↔◌, ltb_ℤ, true, false, arith}
use plugins_improve.Queue.Qos.{QueuedPodInfo, less, comp_qos, qos_order}

-- The lexicographic order that the comparison decides, read off the three keys.
abbrev pub Before : QueuedPodInfo → QueuedPodInfo → Type 0
Before p q =
    (ltb_ℤ q.priority p.priority ≡ true)
    ⊎ (ltb_ℤ p.priority q.priority ≡ false)
      × ((qos_order q.qos < qos_order p.qos)
          ⊎ (qos_order q.qos ≡ qos_order p.qos) × (ltb_ℤ p.timestamp q.timestamp ≡ true))

-- The code decides the lexicographic order: the higher priority first, then the class with the
-- stronger guarantees, then the pod that waits longer.
pub less-Before : (p q : QueuedPodInfo) → (less p q ≡ true) ↔ Before p q
unfolding less comp_qos
less-Before p q = ground arith

-- The comparison is a strict weak order: no pod comes before itself, and both the order and its
-- negation are transitive.
pub less_is_strict_weak :
    (p q r : QueuedPodInfo)
    → (less p p ≡ false)
      × (less p q ≡ true → less q r ≡ true → less p r ≡ true)
      × (less p q ≡ false → less q r ≡ false → less p r ≡ false)
less_is_strict_weak p q r =
    ground (arith, less-Before p p, less-Before p q, less-Before q r, less-Before p r)
