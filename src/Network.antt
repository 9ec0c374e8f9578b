-- ===== src/Network.antt =====
-- The network-aware plugins: pkg/networkaware.
pub mod Search
pub mod Types
pub mod Util
pub mod Costs
pub mod Passes
pub mod Overhead
