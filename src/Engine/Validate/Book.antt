-- ===== src/Engine/Validate/Book.antt =====
-- The rules of crates/shbox-sandbox/src/validate.rs, in the order in which they are checked, and the
-- error of each.
use shbox.Prelude.{ℕ, true, ◌≡◌, ◌≢◌, ◌≤◌, Option, none, some, List, [], ◌∷◌, ◌++◌, All}
use shbox.Prelude.Bytes.{Bytes, codes}
use shbox.Prelude.Integers.{ℤ}
use shbox.Engine.Command.{CommandSpec, Stdio, fd}
use shbox.Engine.Error.{
  Reason, namespace_root, host_root, no_mount_namespace, retained_capabilities, empty_program,
  has_nul, empty_name, no_quota, no_memory, no_pids, same_actions, relative_program,
  name_has_equals, relative_cwd, relative_rule, program_uncovered, cwd_uncovered, unknown_syscall,
  negative_source, standard_slot, listed_twice, not_open, negative_number, period_outside,
  argument_outside,
}
use shbox.Engine.Paths.{IsAbsolute, Beneath}
use shbox.Engine.Policy.{
  SandboxConfig, IdentityPolicy, FilesystemPolicy, restricted, PathRule, ResourceLimits, Limit,
  value, CpuMax, SyscallPolicy, filter, SyscallRule, Syscall, named, number, SyscallCondition,
}
use shbox.Engine.Rules.{Rule, rule, for_each, ◌+++◌}
use shbox.Engine.Validate.{Host, canonical, listed}
use shbox.Engine.Validate.Facts.{Lacks, IsAtLeast, RetainsNone, Some}

abbrev pub identity_rules : SandboxConfig → IdentityPolicy → List Rule
identity_rules config (IdentityPolicy.isolated i) =
    rule ((i.runtime_uid ≢ 0) × (i.runtime_gid ≢ 0)) (codes "identity") namespace_root
    +++ rule ((i.host_uid ≢ 0) × (i.host_gid ≢ 0)) (codes "identity") host_root
    +++ rule (config.namespaces.mount ≡ true) (codes "identity") no_mount_namespace
    +++ rule (RetainsNone config.capabilities) (codes "identity") retained_capabilities
identity_rules config _ = []

abbrev pub nul_rules : Bytes → Bytes → List Rule
nul_rules field text = rule (Lacks 0 text) field has_nul

abbrev pub variable_rules : Bytes × Bytes → List Rule
variable_rules (name, content) =
    nul_rules (codes "env") name
    +++ nul_rules (codes "env") content
    +++ rule (name ≢ []) (codes "env") empty_name
    +++ rule (Lacks 61 name) (codes "env") (name_has_equals name)

abbrev pub cwd_rules : Option Bytes → List Rule
cwd_rules none = []
cwd_rules (some cwd) =
    nul_rules (codes "cwd") cwd +++ rule (IsAbsolute cwd) (codes "cwd") (relative_cwd cwd)

abbrev pub stream_rules : Bytes → Stdio → List Rule
stream_rules field (fd n) = rule (IsAtLeast 0 n) field (negative_source n)
stream_rules field _ = []

abbrev pub command_rules : CommandSpec → List Rule
command_rules command =
    rule (command.program ≢ []) (codes "program") empty_program
    +++ rule (IsAbsolute command.program) (codes "program") (relative_program command.program)
    +++ nul_rules (codes "program") command.program
    +++ for_each (nul_rules (codes "args")) (listed command.argv0 ++ command.args)
    +++ for_each variable_rules command.env
    +++ cwd_rules command.cwd
    +++ stream_rules (codes "stdin") command.stdin
    +++ stream_rules (codes "stdout") command.stdout
    +++ stream_rules (codes "stderr") command.stderr

abbrev pub cpu_rules : Limit CpuMax → List Rule
cpu_rules (value cpu) =
    rule (cpu.quota_us ≢ 0) (codes "resources.cpu_max") no_quota
    +++ rule ((1000 ≤ cpu.period_us) × (cpu.period_us ≤ 1000000)) (codes "resources.cpu_max")
        (period_outside cpu.period_us)
cpu_rules _ = []

abbrev pub limit_rules : Bytes → Reason → Limit ℕ → List Rule
limit_rules field reason (value n) = rule (n ≢ 0) field reason
limit_rules field reason _ = []

abbrev pub resource_rules : ResourceLimits → List Rule
resource_rules resources =
    cpu_rules resources.cpu_max
    +++ limit_rules (codes "resources.memory_bytes") no_memory resources.memory_bytes
    +++ limit_rules (codes "resources.pids") no_pids resources.pids

module _ (system : Host) where
  -- A descriptor is no standard stream, is not among those before it, and is open.
  abbrev pub fd_rules : List ℤ → List ℤ → List Rule
  fd_rules earlier [] = []
  fd_rules earlier (n ∷ fds) =
      rule (IsAtLeast 3 n) (codes "inherited_fds") (standard_slot n)
      +++ rule (All (λ m. m ≢ n) earlier) (codes "inherited_fds") (listed_twice n)
      +++ rule (system.is_open n ≡ true) (codes "inherited_fds") (not_open n)
      +++ fd_rules (n ∷ earlier) fds

  abbrev pub path_rules : Bytes → PathRule → List Rule
  path_rules tier grant =
      rule (IsAbsolute grant.path) tier (relative_rule grant.path)
      +++ nul_rules (codes "filesystem") grant.path

  -- Some grant is the path or one of its ancestors.
  abbrev pub Covers : List PathRule → Bytes → Type 0
  Covers grants path =
      Some (λ (grant : PathRule). Beneath path (canonical system grant.path)) grants

  abbrev pub program_rules : List PathRule → Option Bytes → List Rule
  program_rules grants none = []
  program_rules grants (some program) =
      rule (Covers grants program) (codes "filesystem") (program_uncovered program)

  abbrev pub resolved_rules : List PathRule → Option Bytes → List Rule
  resolved_rules grants none = []
  resolved_rules grants (some cwd) =
      rule (Covers grants cwd) (codes "filesystem.read_only") (cwd_uncovered cwd)

  abbrev pub directory_rules : List PathRule → Option Bytes → List Rule
  directory_rules grants none = []
  directory_rules grants (some cwd) = resolved_rules grants (system.canonicalize cwd)

  abbrev pub filesystem_rules : FilesystemPolicy → CommandSpec → List Rule
  filesystem_rules (restricted read_only read_write execute) command =
      for_each (path_rules (codes "filesystem.read_only")) read_only
      +++ for_each (path_rules (codes "filesystem.read_write")) read_write
      +++ for_each (path_rules (codes "filesystem.execute")) execute
      +++ program_rules (read_write ++ execute) (system.canonicalize command.program)
      +++ directory_rules (read_only ++ read_write ++ execute) command.cwd
  filesystem_rules FilesystemPolicy.unrestricted command = []

  abbrev pub call_rules : Syscall → List Rule
  call_rules (named name) =
      rule (system.is_known name ≡ true) (codes "syscalls.rules") (unknown_syscall name)
  call_rules (number n) = rule (IsAtLeast 0 n) (codes "syscalls.rules") (negative_number n)

  abbrev pub condition_rules : SyscallCondition → List Rule
  condition_rules condition =
      rule (condition.arg ≤ 5) (codes "syscalls.rules") (argument_outside condition.arg)

  abbrev pub syscall_rules : SyscallPolicy → List Rule
  syscall_rules (filter default_action matched_action rules) =
      rule (default_action ≢ matched_action) (codes "syscalls") same_actions
      +++ for_each
          (λ (r : SyscallRule). call_rules r.syscall +++ for_each condition_rules r.conditions)
          rules
  syscall_rules SyscallPolicy.unrestricted = []

  abbrev pub all_rules : SandboxConfig → CommandSpec → List Rule
  all_rules config command =
      command_rules command
      +++ fd_rules [] config.inherited_fds
      +++ filesystem_rules config.filesystem command
      +++ resource_rules config.resources
      +++ syscall_rules config.syscalls
      +++ identity_rules config config.identity
