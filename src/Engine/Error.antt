-- ===== src/Engine/Error.antt =====
-- crates/shbox-sandbox/src/error.rs: how a policy is refused. A reason stands for its message, with
-- the values that the message quotes.
use shbox.Prelude.{ℕ, Bool, true, false, List, [], ◌∷◌}
use shbox.Prelude.Bytes.{Bytes}
use shbox.Prelude.Integers.{ℤ}

pub data Reason : Type 0 where
  namespace_root host_root no_mount_namespace retained_capabilities : Reason
  empty_program has_nul empty_name no_quota no_memory no_pids same_actions : Reason
  relative_program name_has_equals relative_cwd relative_rule : Bytes → Reason
  program_uncovered cwd_uncovered unknown_syscall : Bytes → Reason
  negative_source standard_slot listed_twice not_open negative_number : ℤ → Reason
  period_outside argument_outside : ℕ → Reason

-- `SandboxError::InvalidPolicy`
pub data SandboxError : Type 0 where
  invalid_policy : (field : Bytes) → Reason → SandboxError

pub data Result (A : Type 0) : Type 0 where
  ok : A → Result A
  err : SandboxError → Result A

abbrev pub Checked : Type 0
Checked = Result (Unit {0})

infixl 5 ◌>>◌
abbrev pub ◌>>◌ : Checked → Checked → Checked
ok _ >> k = k
err e >> k = err e

-- `return Err(SandboxError::invalid(...))` where a test fails.
abbrev pub require : Bool → Bytes → Reason → Checked
require true field reason = ok tt
require false field reason = err (invalid_policy field reason)

-- A loop whose body may fail.
abbrev pub each {ℓ} : {A : Type ℓ} → (A → Checked) → List A → Checked
each f [] = ok tt
each f (x ∷ xs) = let later = each f xs in f x >> later
