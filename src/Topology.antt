-- ===== src/Topology.antt =====
-- The topology match plugin: pkg/noderesourcetopology.
pub mod Config
pub mod Numa
pub mod Fit
pub mod Exclusive
pub mod Filter
pub mod Strategies
pub mod Score
pub mod Least
