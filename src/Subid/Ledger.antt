-- ===== src/Subid/Ledger.antt =====
-- crates/shbox/src/sandbox/subid/ledger.rs: lease states and lease records. Message texts inside
-- errors are left out; the values that they quote are kept.
pub mod Codec
pub mod Disk
pub mod Interface
pub mod Order
pub mod Records
use shbox.Prelude.{ℕ, Bool, true, false, ◌&&◌, ◌≡◌, Option, none, some, ◌==◌, if◌then◌else◌}
use shbox.Prelude.Bytes.{Bytes, bytes_eq, codes}

pub data LeaseState : Type 0 where
  reserved active releasing quarantined : LeaseState

-- `ledger::Error`
pub data Error : Type 0 where
  io unsafe_directory not_utf8 toml invalid_sandbox_id invalid_owner zero_id : Error
  invalid_quarantine_reason : Error
  unknown_file_name corrupt_record missing_record invalid_lease_id invalid_state : Bytes → Error
  too_large unsupported_version : ℕ → Error
  mismatched_lease_id : Bytes → Bytes → Error

pub data Result {ℓ} (A : Type ℓ) : Type ℓ where
  ok : A → Result A
  err : Error → Result A

unfoldable pub as_str : LeaseState → Bytes
as_str reserved = codes "reserved"
as_str active = codes "active"
as_str releasing = codes "releasing"
as_str quarantined = codes "quarantined"

unfoldable pub parse_state : Bytes → Result LeaseState
parse_state raw =
    if bytes_eq raw (codes "reserved")
    then ok reserved
    else if bytes_eq raw (codes "active")
    then ok active
    else if bytes_eq raw (codes "releasing")
    then ok releasing
    else if bytes_eq raw (codes "quarantined")
    then ok quarantined
    else err (invalid_state raw)

-- `state == LeaseState::Quarantined`
abbrev pub is_quarantined : LeaseState → Bool
is_quarantined quarantined = true
is_quarantined _ = false

-- The sandbox ID and the owner's fingerprint are validated texts.
pub record LeaseRecord : Type 0 where
  pub lease_id : Bytes
  pub sandbox_id : Bytes
  pub owner : Bytes
  pub uid : ℕ
  pub gid : ℕ
  pub state : LeaseState
  pub quarantine_reason : Option Bytes

unfoldable pub with_state : LeaseRecord → LeaseState → LeaseRecord
with_state r state = record r {
  state = state;
  quarantine_reason = if is_quarantined state then r.quarantine_reason else none;
}

unfoldable pub with_quarantine_reason : LeaseRecord → Bytes → LeaseRecord
unfolding with_state
with_quarantine_reason r reason = record (with_state r quarantined) {
  quarantine_reason = some reason;
}

unfoldable pub same_incarnation : LeaseRecord → LeaseRecord → Bool
same_incarnation current expected =
    bytes_eq current.lease_id expected.lease_id
    && bytes_eq current.sandbox_id expected.sandbox_id
    && bytes_eq current.owner expected.owner
    && current.uid == expected.uid
    && current.gid == expected.gid
