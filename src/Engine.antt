-- ===== src/Engine.antt =====
-- The sandbox engine, crates/shbox-sandbox.
pub mod Policy
pub mod Command
pub mod Error
pub mod Paths
pub mod Rules
pub mod Validate
