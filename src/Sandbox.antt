-- ===== src/Sandbox.antt =====
-- crates/shbox/src/sandbox: what is on disk for one sandbox.
pub mod Metadata
