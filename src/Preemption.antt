-- ===== src/Preemption.antt =====
-- Preemption: the parts that pkg/capacityscheduling and pkg/preemptiontoleration share, and the
-- latter plugin.
pub mod Pdb
pub mod Simulation
pub mod Reprieve
pub mod Toleration
