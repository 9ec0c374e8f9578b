-- ===== src/Queue.antt =====
-- The plugins that order the scheduling queue: pkg/qos and pkg/networkaware/topologicalsort.
pub mod Qos
pub mod Topological
