-- ===== src/Storage.antt =====
-- crates/shbox/src/sandbox/storage.rs: the fault points, and what the registry and the lease ledger
-- use of a directory of files.
pub mod Faults
pub mod Files
