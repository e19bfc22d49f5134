-- ===== src/Engine/Validate/Verdict.antt =====
-- Validation in crates/shbox-sandbox/src/validate.rs follows its rule book: it accepts where every rule
-- holds, and reports the first rule that is violated.
use shbox.Prelude.{ℕ, Bool, true, ◌≡◌, ◌↔◌, Option, none, some, List, [], ◌∷◌, ◌++◌}
use shbox.Prelude.Bytes.{Bytes, codes}
use shbox.Prelude.Integers.{ℤ}
use shbox.Engine.Command.{CommandSpec, Stdio, fd, null, pipe}
use shbox.Engine.Error.{Reason, no_memory, no_pids, ok}
use shbox.Engine.Paths.{is_absolute_iff}
use shbox.Engine.Policy.{
  SandboxConfig, IdentityPolicy, FilesystemPolicy, restricted, PathRule, ResourceLimits, Limit,
  value, inherit, unlimited, CpuMax, SyscallPolicy, filter, Syscall, named, number,
}
use shbox.Engine.Rules.{
  Hold, Judged, Judged-nil, Judged-require, Judged-both, Judged-each, Judged-iff,
}
use shbox.Engine.Validate.{
  Host, check_no_nul, check_variable, check_cwd, check_stream, validate_command, validate_identity,
  validate_isolated, check_cpu, check_limit, validate_resources, validate_fds,
  validate_inherited_fds, check_rule, check_program, check_resolved, check_directory,
  validate_filesystem, check_syscall, check_syscall_rule, validate_syscalls, validate,
}
use shbox.Engine.Validate.Book.{
  identity_rules, nul_rules, variable_rules, cwd_rules, stream_rules, command_rules, cpu_rules,
  limit_rules, resource_rules, fd_rules, path_rules, program_rules, resolved_rules, directory_rules,
  filesystem_rules, call_rules, syscall_rules, all_rules,
}
use shbox.Engine.Validate.Facts.{
  is_empty_iff, has_byte_iff, is_seen_iff, is_negative_iff, is_below_iff, retains_iff,
  same_action_iff, covers_iff, no_root_iff, some_iff, period_iff, argument_iff,
}

true_iff : (b : Bool) → (b ≡ true) ↔ (b ≡ true)
true_iff b = (λ h. h, λ h. h)

check_no_nul-Judged : (field text : Bytes) → Judged (nul_rules field text) (check_no_nul field text)
unfolding check_no_nul
check_no_nul-Judged field text = Judged-require (has_byte_iff 0 text)

check_variable-Judged :
    (variable : Bytes × Bytes) → Judged (variable_rules variable) (check_variable variable)
unfolding check_variable
check_variable-Judged (name, content) = Judged-both (check_no_nul-Judged _ name) (
    Judged-both (check_no_nul-Judged _ content)
      (Judged-both (Judged-require (is_empty_iff name)) (Judged-require (has_byte_iff 61 name))))

check_cwd-Judged : (cwd : Option Bytes) → Judged (cwd_rules cwd) (check_cwd cwd)
unfolding check_cwd
check_cwd-Judged none = Judged-nil
check_cwd-Judged (some cwd) =
    Judged-both (check_no_nul-Judged _ cwd) (Judged-require (is_absolute_iff cwd))

check_stream-Judged :
    (field : Bytes) (stdio : Stdio) → Judged (stream_rules field stdio) (check_stream field stdio)
unfolding check_stream
check_stream-Judged field null = Judged-nil
check_stream-Judged field pipe = Judged-nil
check_stream-Judged field (fd n) = Judged-require (is_negative_iff n)

validate_command-Judged :
    (command : CommandSpec) → Judged (command_rules command) (validate_command command)
unfolding validate_command
validate_command-Judged command = Judged-both (Judged-require (is_empty_iff command.program)) (
    Judged-both (Judged-require (is_absolute_iff command.program)) (
      Judged-both (check_no_nul-Judged _ command.program) (
        Judged-both (Judged-each (check_no_nul-Judged (codes "args")) _) (
          Judged-both (Judged-each check_variable-Judged command.env) (
            Judged-both (check_cwd-Judged command.cwd) (
              Judged-both (check_stream-Judged (codes "stdin") command.stdin) (
                Judged-both (check_stream-Judged (codes "stdout") command.stdout)
                  (check_stream-Judged (codes "stderr") command.stderr))))))))

validate_isolated-Judged :
    (config : SandboxConfig) (identity : IdentityPolicy)
    → Judged (identity_rules config identity) (validate_isolated config identity)
validate_isolated-Judged config IdentityPolicy.host = Judged-nil
validate_isolated-Judged config IdentityPolicy.caller_mapped_root = Judged-nil
validate_isolated-Judged config (IdentityPolicy.isolated i) =
    Judged-both (Judged-require (no_root_iff i.runtime_uid i.runtime_gid)) (
      Judged-both (Judged-require (no_root_iff i.host_uid i.host_gid)) (
        Judged-both (Judged-require (true_iff config.namespaces.mount))
          (Judged-require (retains_iff config.capabilities))))

check_cpu-Judged : (limit : Limit CpuMax) → Judged (cpu_rules limit) (check_cpu limit)
check_cpu-Judged inherit = Judged-nil
check_cpu-Judged unlimited = Judged-nil
check_cpu-Judged (value cpu) =
    Judged-both (Judged-require (some_iff cpu.quota_us)) (Judged-require (period_iff cpu.period_us))

check_limit-Judged :
    (field : Bytes) (reason : Reason) (limit : Limit ℕ)
    → Judged (limit_rules field reason limit) (check_limit field reason limit)
check_limit-Judged field reason inherit = Judged-nil
check_limit-Judged field reason unlimited = Judged-nil
check_limit-Judged field reason (value n) = Judged-require (some_iff n)

validate_resources-Judged :
    (resources : ResourceLimits) → Judged (resource_rules resources) (validate_resources resources)
unfolding validate_resources
validate_resources-Judged resources = Judged-both (check_cpu-Judged resources.cpu_max) (
    Judged-both
      (check_limit-Judged (codes "resources.memory_bytes") no_memory resources.memory_bytes)
      (check_limit-Judged (codes "resources.pids") no_pids resources.pids))

module _ (system : Host) where
  validate_fds-Judged :
      (earlier fds : List ℤ)
      → Judged (fd_rules system earlier fds) (validate_fds system earlier fds)
  unfolding validate_fds
  validate_fds-Judged earlier [] = Judged-nil
  validate_fds-Judged earlier (n ∷ fds) = Judged-both (Judged-require (is_below_iff n 3)) (
      Judged-both (Judged-require (is_seen_iff n earlier)) (
        Judged-both (Judged-require (true_iff (system.is_open n)))
          (validate_fds-Judged (n ∷ earlier) fds)))

  check_rule-Judged :
      (tier : Bytes) (grant : PathRule)
      → Judged (path_rules system tier grant) (check_rule system tier grant)
  unfolding check_rule
  check_rule-Judged tier grant =
      Judged-both (Judged-require (is_absolute_iff grant.path)) (check_no_nul-Judged _ grant.path)

  check_program-Judged :
      (grants : List PathRule) (resolved : Option Bytes)
      → Judged (program_rules system grants resolved) (check_program system grants resolved)
  check_program-Judged grants none = Judged-nil
  check_program-Judged grants (some program) = Judged-require (covers_iff system grants program)

  check_resolved-Judged :
      (grants : List PathRule) (resolved : Option Bytes)
      → Judged (resolved_rules system grants resolved) (check_resolved system grants resolved)
  check_resolved-Judged grants none = Judged-nil
  check_resolved-Judged grants (some cwd) = Judged-require (covers_iff system grants cwd)

  check_directory-Judged :
      (grants : List PathRule) (cwd : Option Bytes)
      → Judged (directory_rules system grants cwd) (check_directory system grants cwd)
  check_directory-Judged grants none = Judged-nil
  check_directory-Judged grants (some cwd) = check_resolved-Judged grants (system.canonicalize cwd)

  validate_filesystem-Judged :
      (policy : FilesystemPolicy) (command : CommandSpec)
      → Judged (filesystem_rules system policy command) (validate_filesystem system policy command)
  unfolding validate_filesystem
  validate_filesystem-Judged FilesystemPolicy.unrestricted command = Judged-nil
  validate_filesystem-Judged (restricted read_only read_write execute) command =
      Judged-both (Judged-each (check_rule-Judged (codes "filesystem.read_only")) read_only) (
        Judged-both (Judged-each (check_rule-Judged (codes "filesystem.read_write")) read_write) (
          Judged-both (Judged-each (check_rule-Judged (codes "filesystem.execute")) execute) (
            Judged-both
              (check_program-Judged (read_write ++ execute) (system.canonicalize command.program))
              (check_directory-Judged (read_only ++ read_write ++ execute) command.cwd))))

  check_syscall-Judged :
      (syscall : Syscall) → Judged (call_rules system syscall) (check_syscall system syscall)
  check_syscall-Judged (named name) = Judged-require (true_iff (system.is_known name))
  check_syscall-Judged (number n) = Judged-require (is_negative_iff n)

  validate_syscalls-Judged :
      (policy : SyscallPolicy)
      → Judged (syscall_rules system policy) (validate_syscalls system policy)
  unfolding validate_syscalls check_syscall_rule
  validate_syscalls-Judged SyscallPolicy.unrestricted = Judged-nil
  validate_syscalls-Judged (filter default_action matched_action rules) =
      Judged-both (Judged-require (same_action_iff default_action matched_action)) (
        Judged-each
          (λ r.
            Judged-both (check_syscall-Judged r.syscall)
              (Judged-each (λ c. Judged-require (argument_iff c.arg)) r.conditions))
          rules)

  -- Validation accepts a policy and a command where every rule of the book holds, and otherwise
  -- reports the error of the first rule that is violated, in the order of the book.
  pub validate-Judged :
      (config : SandboxConfig) (command : CommandSpec)
      → Judged (all_rules system config command) (validate system config command)
  unfolding validate validate_inherited_fds validate_identity
  validate-Judged config command = Judged-both (validate_command-Judged command) (
      Judged-both (validate_fds-Judged [] config.inherited_fds) (
        Judged-both (validate_filesystem-Judged config.filesystem command) (
          Judged-both (validate_resources-Judged config.resources) (
            Judged-both (validate_syscalls-Judged config.syscalls)
              (validate_isolated-Judged config config.identity)))))

  -- Validation accepts exactly where every rule of the book holds.
  pub validate_iff :
      (config : SandboxConfig) (command : CommandSpec)
      → (validate system config command ≡ ok tt) ↔ Hold (all_rules system config command)
  validate_iff config command = Judged-iff (validate-Judged config command)
