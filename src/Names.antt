-- ===== src/Names.antt =====
-- The validated texts that name a sandbox and its owner: crates/shbox/src/sandbox/id.rs and the
-- fingerprints of crates/shbox/src/auth.rs.
pub mod SandboxId
pub mod Fingerprint
