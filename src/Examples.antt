-- ===== src/Examples.antt =====
-- The theorems at concrete inputs.
pub mod Framework
pub mod Choices
pub mod Kubelet
mod Rescheduling
mod Queues
mod Quotas
mod Preemptions
mod Victims
mod Groups
mod Caches
mod Topologies
mod Zones
mod Placements
mod Syscalls
mod Scoring
mod Settings
