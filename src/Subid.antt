-- ===== src/Subid.antt =====
-- crates/shbox/src/sandbox/subid: subordinate-ID delegation, the free-ID intervals, the lease
-- ledger and the allocator over it.
pub mod Cache
pub mod Delegation
pub mod Available
pub mod Ledger
pub mod Allocator
pub mod Reconcile
