-- ===== src/Engine/Command.antt =====
-- crates/shbox-sandbox/src/command.rs: what to run. Texts of the operating system are byte strings.
use shbox.Prelude.{Option, none, List, []}
use shbox.Prelude.Bytes.{Bytes}
use shbox.Prelude.Integers.{ℤ}

pub data Stdio : Type 0 where
  null pipe : Stdio
  fd : ℤ → Stdio

pub data SessionSetup : Type 0 where
  inherit new_session new_session_with_controlling_terminal : SessionSetup

pub record CommandSpec : Type 0 where
  pub program : Bytes
  pub args : List Bytes
  pub argv0 : Option Bytes
  pub env : List (Bytes × Bytes)
  pub cwd : Option Bytes
  pub stdin : Stdio
  pub stdout : Stdio
  pub stderr : Stdio
  pub session : SessionSetup

-- `CommandSpec::new`
abbrev pub new_command : Bytes → CommandSpec
new_command program = record {
  program = program;
  args = [];
  argv0 = none;
  env = [];
  cwd = none;
  stdin = null;
  stdout = null;
  stderr = null;
  session = inherit;
}
