-- ===== src/Engine/Validate.antt =====
-- crates/shbox-sandbox/src/validate.rs. `Host` is what it asks of the running system, and the table of
-- syscall names.
pub mod Facts
pub mod Book
pub mod Verdict
pub mod Accepted
use native.Mathlib.Decide.{ℕ_discrete}
use shbox.Prelude.{
  ℕ, Bool, true, false, not, ◌&&◌, ◌||◌, ◌==◌, leb, ltb, any, Option, none, some, List, [], ◌∷◌,
  ◌++◌, if◌then◌else◌,
}
use shbox.Prelude.Bytes.{Bytes, codes}
use shbox.Prelude.Integers.{ℤ, is_negative, is_below, int_eq}
use shbox.Engine.Command.{CommandSpec, Stdio, null, pipe, fd}
use shbox.Engine.Error.{
  Reason, Checked, Result, ok, ◌>>◌, require, each, namespace_root, host_root, no_mount_namespace,
  retained_capabilities, empty_program, has_nul, empty_name, no_quota, no_memory, no_pids,
  same_actions, relative_program, name_has_equals, relative_cwd, relative_rule, program_uncovered,
  cwd_uncovered, unknown_syscall, negative_source, standard_slot, listed_twice, not_open,
  negative_number, period_outside, argument_outside,
}
use shbox.Engine.Paths.{is_absolute, starts_with}
use shbox.Engine.Policy.{
  SandboxConfig, IdentityPolicy, IsolatedIdentity, CapabilityPolicy, retain, FilesystemPolicy,
  restricted, PathRule, ResourceLimits, Limit, value, CpuMax, SyscallPolicy, filter, SyscallRule,
  Syscall, named, number, SyscallCondition, SeccompAction, allow, kill_thread, kill_process, log,
  trap, errno, trace, Capability,
}
use shbox.Engine.Policy

-- `std::fs::canonicalize`, whether `fcntl(fd, F_GETFD)` is not -1, and whether `syscall_number` has
-- the name, which every name counts as outside Linux.
pub record Host : Type 0 where
  pub canonicalize : Bytes → Option Bytes
  pub is_open : ℤ → Bool
  pub is_known : Bytes → Bool

abbrev pub is_empty {ℓ} : {A : Type ℓ} → List A → Bool
is_empty [] = true
is_empty (x ∷ xs) = false

-- `contains` on bytes, and the `BTreeSet` of the descriptors that were seen.
unfoldable pub has_byte : ℕ → Bytes → Bool
has_byte b bytes = any (λ c. c == b) bytes

unfoldable pub is_seen : ℤ → List ℤ → Bool
is_seen n seen = any (λ m. int_eq m n) seen

abbrev pub listed : Option Bytes → List Bytes
listed none = []
listed (some text) = text ∷ []

pub SeccompAction-discrete : Discrete SeccompAction
SeccompAction-discrete = hlevel (ℕ_discrete)

abbrev pub decided : {P : Type 0} → Dec P → Bool
decided (yes p) = true
decided (no f) = false

-- The derived `==`.
unfoldable pub same_action : SeccompAction → SeccompAction → Bool
unfolding SeccompAction-discrete
same_action a b = decided (SeccompAction-discrete a b)

-- `let CapabilityPolicy::Retain(retained) = ... && !retained.is_empty()`
abbrev pub retains : CapabilityPolicy → Bool
retains (retain retained) = not (is_empty retained)
retains _ = false

abbrev pub validate_isolated : SandboxConfig → IdentityPolicy → Checked
validate_isolated config (IdentityPolicy.isolated identity) = do
  require (not (identity.runtime_uid == 0 || identity.runtime_gid == 0)) (codes "identity")
      namespace_root
  require (not (identity.host_uid == 0 || identity.host_gid == 0)) (codes "identity") host_root
  require config.namespaces.mount (codes "identity") no_mount_namespace
  require (not (retains config.capabilities)) (codes "identity") retained_capabilities
validate_isolated config _ = ok tt

unfoldable pub validate_identity : SandboxConfig → Checked
validate_identity config = validate_isolated config config.identity

unfoldable pub check_no_nul : Bytes → Bytes → Checked
check_no_nul field text = require (not (has_byte 0 text)) field has_nul

unfoldable pub check_variable : Bytes × Bytes → Checked
check_variable (name, content) = do
  check_no_nul (codes "env") name
  check_no_nul (codes "env") content
  require (not (is_empty name)) (codes "env") empty_name
  require (not (has_byte 61 name)) (codes "env") (name_has_equals name)

unfoldable pub check_cwd : Option Bytes → Checked
check_cwd none = ok tt
check_cwd (some cwd) = do
  check_no_nul (codes "cwd") cwd
  require (is_absolute cwd) (codes "cwd") (relative_cwd cwd)

unfoldable pub check_stream : Bytes → Stdio → Checked
check_stream field (fd n) = require (not (is_negative n)) field (negative_source n)
check_stream field _ = ok tt

unfoldable pub validate_command : CommandSpec → Checked
validate_command command = do
  require (not (is_empty command.program)) (codes "program") empty_program
  require (is_absolute command.program) (codes "program") (relative_program command.program)
  check_no_nul (codes "program") command.program
  each (check_no_nul (codes "args")) (listed command.argv0 ++ command.args)
  each check_variable command.env
  check_cwd command.cwd
  check_stream (codes "stdin") command.stdin
  check_stream (codes "stdout") command.stdout
  check_stream (codes "stderr") command.stderr

abbrev pub check_cpu : Limit CpuMax → Checked
check_cpu (value cpu) = do
  require (not (cpu.quota_us == 0)) (codes "resources.cpu_max") no_quota
  require (leb 1000 cpu.period_us && leb cpu.period_us 1000000) (codes "resources.cpu_max")
      (period_outside cpu.period_us)
check_cpu _ = ok tt

-- A limit that is a number is not 0.
abbrev pub check_limit : Bytes → Reason → Limit ℕ → Checked
check_limit field reason (value n) = require (not (n == 0)) field reason
check_limit field reason _ = ok tt

unfoldable pub validate_resources : ResourceLimits → Checked
validate_resources resources = do
  check_cpu resources.cpu_max
  check_limit (codes "resources.memory_bytes") no_memory resources.memory_bytes
  check_limit (codes "resources.pids") no_pids resources.pids

module _ (system : Host) where
  -- The loop of `validate_inherited_fds`, with the descriptors that it has seen.
  unfoldable pub validate_fds : List ℤ → List ℤ → Checked
  validate_fds seen [] = ok tt
  validate_fds seen (n ∷ fds) =
      let later = validate_fds (n ∷ seen) fds in
      (do
        require (not (is_below n 3)) (codes "inherited_fds") (standard_slot n)
        require (not (is_seen n seen)) (codes "inherited_fds") (listed_twice n)
        require (system.is_open n) (codes "inherited_fds") (not_open n)
        later)

  unfoldable pub validate_inherited_fds : SandboxConfig → Checked
  validate_inherited_fds config = validate_fds [] config.inherited_fds

  unfoldable pub check_rule : Bytes → PathRule → Checked
  check_rule tier rule = do
    require (is_absolute rule.path) tier (relative_rule rule.path)
    check_no_nul (codes "filesystem") rule.path

  abbrev pub or_written : Bytes → Option Bytes → Bytes
  or_written path none = path
  or_written path (some resolved) = resolved

  unfoldable pub canonical : Bytes → Bytes
  canonical path = or_written path (system.canonicalize path)

  unfoldable pub covered_by : Bytes → Bytes → Bool
  covered_by path grant = starts_with path grant

  abbrev pub is_covered : List PathRule → Bytes → Bool
  is_covered rules path = any (λ (rule : PathRule). covered_by path (canonical rule.path)) rules

  -- A path that cannot be resolved is not checked.
  abbrev pub check_program : List PathRule → Option Bytes → Checked
  check_program rules none = ok tt
  check_program rules (some program) =
      require (is_covered rules program) (codes "filesystem") (program_uncovered program)

  abbrev pub check_resolved : List PathRule → Option Bytes → Checked
  check_resolved rules none = ok tt
  check_resolved rules (some cwd) =
      require (is_covered rules cwd) (codes "filesystem.read_only") (cwd_uncovered cwd)

  abbrev pub check_directory : List PathRule → Option Bytes → Checked
  check_directory rules none = ok tt
  check_directory rules (some cwd) = check_resolved rules (system.canonicalize cwd)

  unfoldable pub validate_filesystem : FilesystemPolicy → CommandSpec → Checked
  validate_filesystem (restricted read_only read_write execute) command = do
    each (check_rule (codes "filesystem.read_only")) read_only
    each (check_rule (codes "filesystem.read_write")) read_write
    each (check_rule (codes "filesystem.execute")) execute
    check_program (read_write ++ execute) (system.canonicalize command.program)
    check_directory (read_only ++ read_write ++ execute) command.cwd
  validate_filesystem FilesystemPolicy.unrestricted command = ok tt

  abbrev pub check_syscall : Syscall → Checked
  check_syscall (named name) =
      require (system.is_known name) (codes "syscalls.rules") (unknown_syscall name)
  check_syscall (number n) =
      require (not (is_negative n)) (codes "syscalls.rules") (negative_number n)

  abbrev pub check_condition : SyscallCondition → Checked
  check_condition condition =
      require (not (ltb 5 condition.arg)) (codes "syscalls.rules") (argument_outside condition.arg)

  unfoldable pub check_syscall_rule : SyscallRule → Checked
  check_syscall_rule rule = do check_syscall rule.syscall; each check_condition rule.conditions

  unfoldable pub validate_syscalls : SyscallPolicy → Checked
  validate_syscalls (filter default_action matched_action rules) = do
    require (not (same_action default_action matched_action)) (codes "syscalls") same_actions
    each check_syscall_rule rules
  validate_syscalls SyscallPolicy.unrestricted = ok tt

  unfoldable pub validate : SandboxConfig → CommandSpec → Checked
  validate config command = do
    validate_command command
    validate_inherited_fds config
    validate_filesystem config.filesystem command
    validate_resources config.resources
    validate_syscalls config.syscalls
    validate_identity config
