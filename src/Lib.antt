-- ===== src/Lib.antt =====
-- shbox maps SSH clients onto persistent sandbox workspaces. On Linux each durable sandbox leases one
-- subordinate UID and one subordinate GID from the delegation of the daemon's account. This library
-- models that part, crates/shbox/src/sandbox/subid, with the names it builds on, and proves what keeps
-- two sandboxes from ever sharing an identity. It also models the checks that the sandbox engine makes
-- of a policy.
--
-- The parts, and the files that model them:
-- - Subid/Delegation.antt: `SubidRange` and `Delegation` of delegation.rs. `SubidRange::new` is `new`,
--   with the wrapping sums and casts of a release build.
-- - Subid/Delegation/Getsubids.antt: `parse_getsubids_output` of delegation.rs, over code points, with
--   what it uses of `str`. Delegation/Words and Delegation/Output relate it to what getsubids prints.
-- - Subid/Cache.antt: `DelegationCache` of delegation.rs. What a call reads from outside, the
--   generations of three files, the account's name and the answers of getsubids, is its argument.
-- - Subid/Available.antt: `AvailableIds` of mod.rs, the free intervals of one ID kind. The
--   `BTreeMap<u32, u32>` is the list of its entries in key order; `from_ranges`, `remove` and `lowest`
--   have the names of the methods. Sums such as `id + 1` stay inside an interval, so they do not wrap.
-- - Subid/Ledger.antt: `LeaseState`, `LeaseRecord` and the errors of ledger.rs. Texts are byte lists;
--   `SandboxId` and `KeyFingerprint` are the texts inside these types. Message texts are left out of
--   errors, and the values that they quote are kept.
-- - Subid/Ledger/Codec.antt: the text of a lease record, `encode` and `decode` of ledger.rs. UTF-8
--   decoding, the TOML parser and the formats of std are the parameter `Texts`.
-- - Names/SandboxId.antt and Names/Fingerprint.antt: `SandboxId::parse` of
--   crates/shbox/src/sandbox/id.rs and `KeyFingerprint::parse` of crates/shbox/src/auth.rs.
-- - Sandbox/Metadata.antt: crates/shbox/src/sandbox/metadata.rs, the durable record of a sandbox, with
--   the same functions as the parameter `Documents`.
-- - Subid/Ledger/Interface.antt: what the allocator uses of `LeaseStore`, as a record of operations and
--   laws over the list of readable records. A failed write or removal may have taken effect.
-- - Subid/Ledger/Disk.antt: `LeaseStore` of ledger.rs itself, its operations on a directory of files,
--   with the names of the methods. Disk/Monad.antt is its state: the directory, the fault to inject
--   next, and `TEMP_COUNTER`. A wait for the lock that a signal interrupts is part of the call.
-- - Storage/Files.antt: the system calls that sandbox/storage.rs wraps, as a record of operations with
--   what POSIX says of them. Storage/Faults.antt: the fault injector of storage.rs.
-- - Subid/Allocator.antt, with Allocator/Monad.antt and Allocator/Pool.antt: `SubidAllocator` of
--   mod.rs, one function for each method, in a monad of state and errors that keeps the state a failing
--   method leaves. The state has the store, the two maps in memory, and a flag for each mutex that a
--   panic may have poisoned. The flock and the selection mutex make each method one step. The token
--   that `new_lease_id` draws at random and the effective IDs are arguments of `claim`; where a theorem
--   needs it, that the token is in no record is a hypothesis.
-- - Subid/Reconcile.antt: `reconcile` and `reconcile_loaded` of mod.rs. The scan of the durable
--   sandboxes is a function argument, the proof of a successful runtime sweep a flag.
--
-- Each of these has its theorems in child modules. Available/Intervals and Available/Merge relate
-- the intervals to the set of IDs that they hold. Allocator/Triple and Allocator/Steps give Hoare
-- triples about the records on disk, from which Allocator/Effects, Methods and Claim prove one
-- triple for each method; Allocator/Change is the lifecycle specification, and Allocator/History
-- lets any number of daemons call the methods in any order; Allocator/Total and Allocator/Success
-- say when a lease is granted, and Allocator/Activation that it is acknowledged once.
-- Reconcile/Verdict is the table of the arms of reconciliation, and Reconcile/Promise what becomes
-- of a lease.
--
-- Ledger/Order shows that an ordered ledger is determined by what is found in it. Disk/Contents says
-- which records a directory holds, Disk/Names and Disk/Listing that each has one file; Disk/Triple is a
-- logic for the operations on it, Disk/Reads, Effects, Publication and Removal give one triple for
-- each operation, and Disk/Refines fills the interface of the allocator with them.
--
-- The sandbox engine, crates/shbox-sandbox, is handed a policy and a command by the daemon and checks
-- both before it starts a child:
-- - Engine/Policy.antt and Engine/Command.antt: the types of src/policy.rs and src/command.rs.
-- - Engine/Error.antt: `SandboxError::InvalidPolicy` of src/error.rs, with a reason for each message.
-- - Engine/Validate.antt: all of src/validate.rs, with the names of its functions. What it asks of the
--   running system is the parameter `Host`, whose answers stay the same during one validation.
--   Engine/Paths.antt has what it uses of `std::path`.
-- Engine/Rules is a notion of rule books, Validate/Book the book of this validation, Validate/Verdict
-- and Validate/Accepted what validation makes of it.
--
-- On the SSH side, Ssh/Channel.antt is `ChannelRegistry` of crates/shbox/src/ssh/channel.rs, the state of
-- a connection's channels, one step for each operation under its lock; the history of a connection is a
-- list of operations. Ssh/Channel/Window.antt is `synchronize_window`, whose loop looks at the registry
-- between the operations of other tasks. Channel/Ageing relates a channel to its later states, from
-- which Channel/Once and Channel/Window take their theorems; Channel/Cap counts the channels.
--
-- No function here takes fuel: every loop is a recursion on a list. The loop of
-- `synchronize_window` takes the operations of the other tasks, one list for each turn.
--
-- Not modelled: the creation of the lease directory and its lock file, what a power failure makes
-- of calls that fsync has not made durable, running getsubids, and the rest of the daemon and of
-- the sandbox engine, which is system calls for the most part.
--
pub mod Prelude
pub mod Names
pub mod Storage
pub mod Engine
pub mod Ssh
pub mod Sandbox
pub mod Subid
mod Tests
