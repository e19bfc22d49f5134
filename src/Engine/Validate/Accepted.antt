-- ===== src/Engine/Validate/Accepted.antt =====
-- What an accepted policy of crates/shbox-sandbox/src/validate.rs guarantees to the engine.
use Prim.Native.String.{String}
use shbox.Prelude.{true, ◌≡◌, ◌≢◌, sym, Option, none, some, List, [], ◌∷◌, ◌++◌, All, All-map}
use shbox.Prelude.Bytes.{Bytes, codes}
use shbox.Prelude.Integers.{ℤ}
use shbox.Engine.Command.{CommandSpec}
use shbox.Engine.Error.{ok}
use shbox.Engine.Paths.{IsAbsolute}
use shbox.Engine.Policy.{SandboxConfig, IdentityPolicy, FilesystemPolicy, restricted, PathRule}
use shbox.Engine.Rules.{Rule, Hold, for_each}
use shbox.Engine.Validate.{Host, validate}
use shbox.Engine.Validate.Book.{
  identity_rules, command_rules, resource_rules, fd_rules, path_rules, program_rules,
  filesystem_rules, syscall_rules, Covers,
}
use shbox.Engine.Validate.Facts.{IsAtLeast, RetainsNone}
use shbox.Engine.Validate.Verdict.{validate_iff}

Hold-split : (rs ss : List Rule) → Hold (rs ++ ss) → Hold rs × Hold ss
Hold-split [] ss h = (tt, h)
Hold-split (r ∷ rs) ss h = let (left, right) = Hold-split rs ss h.1 in ((h.0, left), right)

abbrev pub Distinct : List ℤ → Type 0
Distinct [] = Unit {0}
Distinct (n ∷ ns) = All (λ m. m ≢ n) ns × Distinct ns

-- The identity maps no root, and has its own mount namespace and no capabilities.
abbrev pub IsUnprivileged : SandboxConfig → IdentityPolicy → Type 0
IsUnprivileged config (IdentityPolicy.isolated i) =
    (i.runtime_uid ≢ 0)
    × (i.runtime_gid ≢ 0)
    × (i.host_uid ≢ 0)
    × (i.host_gid ≢ 0)
    × (config.namespaces.mount ≡ true)
    × RetainsNone config.capabilities
IsUnprivileged config _ = Unit {0}

-- The program, where it can be resolved, lies under a grant to write or to execute.
abbrev pub IsGranted : Host → FilesystemPolicy → Option Bytes → Type 0
IsGranted system (restricted read_only read_write execute) (some program) =
    Covers system (read_write ++ execute) program
IsGranted system _ _ = Unit {0}

pub record Accepted (system : Host) (config : SandboxConfig) (command : CommandSpec) : Type 0 where
  pub program_absolute : IsAbsolute command.program
  pub fds_distinct : Distinct config.inherited_fds
  pub fds_open : All (λ n. IsAtLeast 3 n × (system.is_open n ≡ true)) config.inherited_fds
  pub unprivileged : IsUnprivileged config config.identity
  pub granted : IsGranted system config.filesystem (system.canonicalize command.program)

identity-IsUnprivileged :
    (config : SandboxConfig) (identity : IdentityPolicy)
    → Hold (identity_rules config identity)
    → IsUnprivileged config identity
identity-IsUnprivileged config IdentityPolicy.host h = tt
identity-IsUnprivileged config IdentityPolicy.caller_mapped_root h = tt
identity-IsUnprivileged config (IdentityPolicy.isolated i) h =
    let (runtime, h1) = h in
    let (root, h2) = h1 in
    let (mount, h3) = h2 in (runtime.0, runtime.1, root.0, root.1, mount, h3.0)

module _ (system : Host) where
  fds-open :
      (earlier fds : List ℤ)
      → Hold (fd_rules system earlier fds)
      → All (λ n. IsAtLeast 3 n × (system.is_open n ≡ true)) fds
  fds-open earlier [] h = tt
  fds-open earlier (n ∷ fds) h =
      let (least, h1) = h in
      let (fresh, h2) = h1 in
      let (is_open, later) = h2 in ((least, is_open), fds-open (n ∷ earlier) fds later)

  -- The later descriptors differ from the earlier ones.
  fds-fresh :
      (earlier fds : List ℤ)
      → Hold (fd_rules system earlier fds)
      → All (λ n. All (λ m. m ≢ n) earlier) fds
  fds-fresh earlier [] h = tt
  fds-fresh earlier (n ∷ fds) h =
      let (least, h1) = h in
      let (fresh, h2) = h1 in
      (fresh, All-map (λ k others. others.1) fds (fds-fresh (n ∷ earlier) fds h2.1))

  fds-Distinct : (earlier fds : List ℤ) → Hold (fd_rules system earlier fds) → Distinct fds
  fds-Distinct earlier [] h = tt
  fds-Distinct earlier (n ∷ fds) h =
      let (least, h1) = h in
      let (fresh, h2) = h1 in
      (
        All-map (λ k others e. others.0 (sym e)) fds (fds-fresh (n ∷ earlier) fds h2.1),
        fds-Distinct (n ∷ earlier) fds h2.1,
      )

  program-IsGranted :
      (read_only read_write execute : List PathRule) (program : Option Bytes)
      → Hold (program_rules system (read_write ++ execute) program)
      → IsGranted system (restricted read_only read_write execute) program
  program-IsGranted read_only read_write execute none h = tt
  program-IsGranted read_only read_write execute (some program) h = h.0

  abbrev grants : String → List PathRule → List Rule
  grants tier rules = for_each (path_rules system (codes tier)) rules

  filesystem-IsGranted :
      (policy : FilesystemPolicy) (command : CommandSpec)
      → Hold (filesystem_rules system policy command)
      → IsGranted system policy (system.canonicalize command.program)
  filesystem-IsGranted FilesystemPolicy.unrestricted command h = tt
  filesystem-IsGranted (restricted read_only read_write execute) command h =
      let (reads, h1) = Hold-split (grants "filesystem.read_only" read_only) _ h in
      let (writes, h2) = Hold-split (grants "filesystem.read_write" read_write) _ h1 in
      let (executes, h3) = Hold-split (grants "filesystem.execute" execute) _ h2 in
      let (program, h4) =
        Hold-split
          (program_rules system (read_write ++ execute) (system.canonicalize command.program)) _
          h3 in
      program-IsGranted read_only read_write execute (system.canonicalize command.program) program

  -- An accepted command has an absolute program; the inherited descriptors of an accepted policy are
  -- distinct, open and no standard streams; its isolated identity maps no root, has its own mount
  -- namespace and keeps no capability; and under a restricted filesystem policy a program that can be
  -- resolved lies under a grant to write or to execute.
  pub validate-Accepted :
      (config : SandboxConfig) (command : CommandSpec)
      → validate system config command ≡ ok tt
      → Accepted system config command
  validate-Accepted config command e =
      let holds = (validate_iff system config command).0 e in
      let (of_command, h1) = Hold-split (command_rules command) _ holds in
      let (of_fds, h2) = Hold-split (fd_rules system [] config.inherited_fds) _ h1 in
      let (of_files, h3) = Hold-split (filesystem_rules system config.filesystem command) _ h2 in
      let (of_resources, h4) = Hold-split (resource_rules config.resources) _ h3 in
      let (of_calls, of_identity) = Hold-split (syscall_rules system config.syscalls) _ h4 in
      record {
        program_absolute = of_command.1.0;
        fds_distinct = fds-Distinct [] config.inherited_fds of_fds;
        fds_open = fds-open [] config.inherited_fds of_fds;
        unprivileged = identity-IsUnprivileged config config.identity of_identity;
        granted = filesystem-IsGranted config.filesystem command of_files;
      }
