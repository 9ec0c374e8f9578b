-- ===== src/Cache.antt =====
-- The caches of node topologies: pkg/noderesourcetopology/cache.
pub mod Store
pub mod OverReserve
pub mod DiscardReserved
pub mod Interface
