-- ===== src/Tests/Engine.antt =====
-- Validation at a concrete policy and command.
use shbox.Prelude.{◌≡◌, ◌↔◌, refl, true, some, [], ◌∷◌}
use shbox.Prelude.Bytes.{Bytes, bytes_eq, codes}
use shbox.Prelude.Integers.{pos, is_below, int_eq}
use shbox.Engine.Command.{CommandSpec, new_command}
use shbox.Engine.Error.{ok, err, invalid_policy, listed_twice}
use shbox.Engine.Paths.{is_absolute, starts_with, components, split, drop_empty, is_prefix}
use shbox.Engine.Policy.{SandboxConfig, IdentityPolicy, restricted, unrestricted_config, PathRule}
use shbox.Engine.Rules.{Hold, Judged}
use shbox.Engine.Validate
use shbox.Engine.Validate.{Host, validate}
use shbox.Engine.Validate.Accepted.{Accepted, validate-Accepted}
use shbox.Engine.Validate.Book.{all_rules}
use shbox.Engine.Validate.Verdict.{validate-Judged, validate_iff}

-- No path is a link, and every descriptor is open.
abbrev plain : Host
plain = record { canonicalize = λ path. some path; is_open = λ n. true; is_known = λ name. true }

abbrev grant : Bytes → PathRule
grant path = record { path = path }

abbrev config : SandboxConfig
config = record unrestricted_config {
  filesystem = restricted (grant (codes "/etc") ∷ []) [] (grant (codes "/usr/") ∷ []);
  identity =
      IdentityPolicy.isolated
        (record { runtime_uid = 1000; runtime_gid = 1000; host_uid = 100000; host_gid = 100000 });
  namespaces = record (unrestricted_config.namespaces) { mount = true };
  inherited_fds = pos 5 ∷ pos 7 ∷ [];
}

abbrev command : CommandSpec
command = record (new_command (codes "/usr/bin/ls")) { cwd = some (codes "/etc") }

accepted : validate plain config command ≡ ok tt
unfolding validate Validate.validate_command Validate.check_no_nul Validate.has_byte
    Validate.check_cwd Validate.check_stream Validate.validate_inherited_fds Validate.validate_fds
    Validate.is_seen Validate.validate_filesystem Validate.check_rule Validate.covered_by
    Validate.canonical Validate.validate_resources Validate.validate_syscalls
    Validate.validate_identity is_absolute starts_with components split drop_empty is_prefix
    is_below int_eq bytes_eq
accepted = refl

abbrev twice : SandboxConfig
twice = record config { inherited_fds = pos 5 ∷ pos 5 ∷ [] }

refused :
    validate plain twice command
    ≡ err (invalid_policy (codes "inherited_fds") (listed_twice (pos 5)))
unfolding validate Validate.validate_command Validate.check_no_nul Validate.has_byte
    Validate.check_cwd Validate.check_stream Validate.validate_inherited_fds Validate.validate_fds
    Validate.is_seen is_absolute is_below int_eq
refused = refl

validate-Judged_example : Judged (all_rules plain twice command) (validate plain twice command)
validate-Judged_example = validate-Judged plain twice command

validate_iff_example :
    (validate plain config command ≡ ok tt) ↔ Hold (all_rules plain config command)
validate_iff_example = validate_iff plain config command

validate-Accepted_example : Accepted plain config command
validate-Accepted_example = validate-Accepted plain config command accepted
