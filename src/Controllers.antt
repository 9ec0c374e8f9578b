-- ===== src/Controllers.antt =====
-- The controllers of pkg/controllers.
pub mod PodGroup
pub mod Usage
