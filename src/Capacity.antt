-- ===== src/Capacity.antt =====
-- The capacity scheduling plugin: pkg/capacityscheduling.
pub mod Resource
pub mod Quota
pub mod Plugin
pub mod Preempt
