-- ===== src/Storage/Faults.antt =====
-- crates/shbox/src/sandbox/storage.rs: the fault injector. An injector that is not there is one that
-- has no fault to inject, and its mutex is never poisoned.
use shbox.Prelude.{Bool, true, false, Option, none, some}

pub data FaultPoint : Type 0 where
  create_sandbox_directory create_workspace metadata_temp_create metadata_write : FaultPoint
  metadata_file_sync metadata_rename metadata_parent_sync registry_parent_sync : FaultPoint
  delete_entry delete_root_sync lease_temp_create lease_write lease_file_sync : FaultPoint
  lease_rename lease_parent_sync lease_unlink lease_unlink_sync : FaultPoint

FaultPoint-discrete : Discrete FaultPoint
FaultPoint-discrete = hlevel

unfoldable pub is_point : FaultPoint → FaultPoint → Bool
unfolding FaultPoint-discrete
is_point a b = elim (FaultPoint-discrete a b) [ yes e ↦ true | no e ↦ false ]

-- Whether `trip` fails at the point, and the fault that is left.
unfoldable pub trip : FaultPoint → Option FaultPoint → Bool × Option FaultPoint
trip point none = (false, none)
trip point (some next) = elim (is_point next point) [
  | true ↦ (true, none)
  | false ↦ (false, some next)
]
