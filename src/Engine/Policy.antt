-- ===== src/Engine/Policy.antt =====
-- crates/shbox-sandbox/src/policy.rs: the policy that a caller composes. Paths are byte strings.
use shbox.Prelude.{ℕ, Bool, true, false, ◌||◌, Option, none, some, List, [], leb, if◌then◌else◌}
use shbox.Prelude.Bytes.{Bytes}
use shbox.Prelude.Integers.{ℤ}

pub data Limit (A : Type 0) : Type 0 where
  inherit unlimited : Limit A
  value : A → Limit A

unfoldable pub requires_own_cgroup : {A : Type 0} → Limit A → Bool
requires_own_cgroup inherit = false
requires_own_cgroup _ = true

pub record PathRule : Type 0 where
  pub path : Bytes

pub data FilesystemPolicy : Type 0 where
  unrestricted : FilesystemPolicy
  restricted : (read_only read_write execute : List PathRule) → FilesystemPolicy

pub data NetworkPolicy : Type 0 where
  unrestricted outbound_tcp disabled : NetworkPolicy

pub data NetworkNamespacePolicy : Type 0 where
  host isolated : NetworkNamespacePolicy

pub record IsolatedIdentity : Type 0 where
  pub runtime_uid : ℕ
  pub runtime_gid : ℕ
  pub host_uid : ℕ
  pub host_gid : ℕ

pub data IdentityPolicy : Type 0 where
  host caller_mapped_root : IdentityPolicy
  isolated : IsolatedIdentity → IdentityPolicy

pub record NamespacePolicy : Type 0 where
  pub pid : Bool
  pub mount : Bool
  pub ipc : Bool
  pub uts : Bool
  pub network : NetworkNamespacePolicy

pub record CpuMax : Type 0 where
  pub quota_us : ℕ
  pub period_us : ℕ

pub record ResourceLimits : Type 0 where
  pub memory_bytes : Limit ℕ
  pub swap_bytes : Limit ℕ
  pub pids : Limit ℕ
  pub cpu_max : Limit CpuMax

unfoldable pub requires_cgroup : ResourceLimits → Bool
unfolding requires_own_cgroup
requires_cgroup limits =
    requires_own_cgroup limits.memory_bytes
    || requires_own_cgroup limits.swap_bytes
    || requires_own_cgroup limits.pids
    || requires_own_cgroup limits.cpu_max

pub data SeccompAction : Type 0 where
  allow kill_thread kill_process log trap : SeccompAction
  errno trace : ℕ → SeccompAction

pub data ArgLen : Type 0 where
  dword qword : ArgLen

pub data CmpOp : Type 0 where
  equal greater greater_equal less less_equal masked_equal not_equal : CmpOp

pub data Syscall : Type 0 where
  named : Bytes → Syscall
  number : ℤ → Syscall

pub record SyscallCondition : Type 0 where
  pub arg : ℕ
  pub len : ArgLen
  pub op : CmpOp
  pub value : ℕ

pub record SyscallRule : Type 0 where
  pub syscall : Syscall
  pub conditions : List SyscallCondition

pub data SyscallPolicy : Type 0 where
  unrestricted : SyscallPolicy
  filter :
      (default_action matched_action : SeccompAction) (rules : List SyscallRule) → SyscallPolicy

-- A capability's number.
pub record Capability : Type 0 where
  pub number : ℕ

abbrev pub cap_last_number : ℕ
cap_last_number = 40

unfoldable pub from_number : ℕ → Option Capability
from_number n = if leb n cap_last_number then some (record { number = n }) else none

pub data CapabilityPolicy : Type 0 where
  drop_all : CapabilityPolicy
  retain : List Capability → CapabilityPolicy

pub record SandboxConfig : Type 0 where
  pub filesystem : FilesystemPolicy
  pub network : NetworkPolicy
  pub resources : ResourceLimits
  pub syscalls : SyscallPolicy
  pub namespaces : NamespacePolicy
  pub identity : IdentityPolicy
  pub capabilities : CapabilityPolicy
  pub inherited_fds : List ℤ
  pub cgroup_parent : Option Bytes

-- `SandboxConfig::unrestricted`
abbrev pub unrestricted_config : SandboxConfig
unrestricted_config = record {
  filesystem = FilesystemPolicy.unrestricted;
  network = NetworkPolicy.unrestricted;
  resources = record {
    memory_bytes = inherit;
    swap_bytes = inherit;
    pids = inherit;
    cpu_max = inherit;
  };
  syscalls = SyscallPolicy.unrestricted;
  namespaces = record {
    pid = false;
    mount = false;
    ipc = false;
    uts = false;
    network = NetworkNamespacePolicy.host;
  };
  identity = IdentityPolicy.host;
  capabilities = drop_all;
  inherited_fds = [];
  cgroup_parent = none;
}
