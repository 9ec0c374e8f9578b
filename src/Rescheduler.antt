-- ===== src/Rescheduler.antt =====
-- The rescheduler: pkg/rescheduler.
pub mod Calculator
pub mod Reservations
pub mod Plugin
pub mod Migration
pub mod Controller
pub mod Settings
