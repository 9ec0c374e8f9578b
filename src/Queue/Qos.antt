-- ===== src/Queue/Qos.antt =====
-- The comparison of pkg/qos/queue_sort.go. The priority and the class of a pod are read by helpers of
-- Kubernetes, so that a queued pod is what they answer, with the time at which it was queued.
pub mod Order
use plugins_improve.Prelude.{ℕ, ℤ, pos, negsuc, eqb_ℤ, ltb_ℤ, Bool, ltb, not, if◌then◌else◌}

-- `v1.PodQOSClass`: a string, of which the code names three.
pub data PodQosClass : Type 0 where
  best_effort burstable guaranteed other : PodQosClass

pub record QueuedPodInfo : Type 0 where
  pub priority : ℤ
  pub qos : PodQosClass
  pub timestamp : ℤ

-- `qosOrder`, 0 for a class that is not a key.
unfoldable pub qos_order : PodQosClass → ℕ
qos_order best_effort = 1
qos_order burstable = 2
qos_order guaranteed = 3
qos_order other = 0

unfoldable pub comp_qos : QueuedPodInfo → QueuedPodInfo → ℤ
unfolding qos_order
comp_qos p q =
    if ltb (qos_order q.qos) (qos_order p.qos)
    then pos 1
    else if ltb (qos_order p.qos) (qos_order q.qos)
    then negsuc 0
    else pos 0

unfoldable pub less : QueuedPodInfo → QueuedPodInfo → Bool
unfolding comp_qos
less p q =
    let qos_result = comp_qos p q in
    if not (eqb_ℤ p.priority q.priority)
    then ltb_ℤ q.priority p.priority
    else if not (eqb_ℤ qos_result (pos 0))
    then ltb_ℤ (pos 0) qos_result
    else ltb_ℤ p.timestamp q.timestamp
