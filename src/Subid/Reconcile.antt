-- ===== src/Subid/Reconcile.antt =====
-- crates/shbox/src/sandbox/subid/mod.rs: startup reconciliation of the lease ledger with the
-- durable sandboxes. The scan of the sandboxes is the function `look`; the proof of a successful
-- runtime sweep is a flag.
pub mod Index
pub mod Loop
pub mod Complete
pub mod Promise
pub mod Verdict
use shbox.Prelude.{Bool, true, false, List, [], ◌∷◌, ◌++◌, Option, none, some, if◌then◌else◌}
use shbox.Prelude.Bytes.{Bytes, bytes_eq, codes}
use shbox.Subid.Ledger.{LeaseRecord, LeaseState, reserved, active, releasing, quarantined}
use shbox.Subid.Ledger.Interface.{LeaseStore}
use shbox.Subid.Allocator.Monad.{Allocator, M, pure, fail, ◌>>=◌, ◌>>◌, lookup_failed}
use shbox.Subid.Allocator.{load_indexed, activate, finish_release, free_reserved_absent, quarantine}

-- `SandboxView`
pub data SandboxView : Type 0 where
  is_active is_deleting is_corrupt : Bytes → SandboxView

-- What `lookup` returns for a sandbox.
pub data Looked : Type 0 where
  found : Option SandboxView → Looked
  lookup_error : Bytes → Looked

-- The arms of the three matches on `sandbox`: absent, present under the owner of the lease, corrupt
-- with its reason, and present under another owner.
pub data Standing : Type 0 where
  absent owned foreign : Standing
  broken : Bytes → Standing

unfoldable pub standing : LeaseRecord → Option SandboxView → Standing
standing r none = absent
standing r (some (is_active owner)) = if bytes_eq owner r.owner then owned else foreign
standing r (some (is_deleting owner)) = if bytes_eq owner r.owner then owned else foreign
standing r (some (is_corrupt reason)) = broken reason

-- `Reconciliation`
pub record Reconciliation : Type 0 where
  pub promoted : List LeaseRecord
  pub freed : List LeaseRecord
  pub quarantined : List (LeaseRecord × Bytes)
  pub resuming_deletion : List LeaseRecord

abbrev pub no_report : Reconciliation
no_report = record { promoted = []; freed = []; quarantined = []; resuming_deletion = [] }

-- The reason under which a lease is quarantined.
unfoldable pub reason_for : LeaseState → Standing → Option Bytes
reason_for reserved (broken reason) = some reason
reason_for reserved foreign =
    some (codes "reserved lease owner does not match the durable sandbox owner")
reason_for active (broken reason) =
    some (codes "active lease has a corrupt durable sandbox: " ++ reason)
reason_for active foreign =
    some (codes "active lease owner does not match the durable sandbox owner")
reason_for active absent = some (codes "active lease with no durable sandbox")
reason_for releasing (broken reason) =
    some (codes "releasing lease has a corrupt durable sandbox: " ++ reason)
reason_for releasing foreign =
    some (codes "releasing lease owner does not match the durable sandbox owner")
reason_for _ _ = none

module _ (st : LeaseStore) where
  open st use {State}

  -- The arms that quarantine, where there is a reason, and those that leave the record alone.
  unfoldable pub quarantine_if :
      Option Bytes → LeaseRecord → Reconciliation → M State Reconciliation
  quarantine_if none r report = pure report
  quarantine_if (some reason) r report = do
    quarantine st r reason
    pure (record report { quarantined = report.quarantined ++ (r, reason) ∷ [] })

  unfoldable pub free_absent : LeaseRecord → Reconciliation → M State Reconciliation
  free_absent r report = do
    free_reserved_absent st r
    pure (record report { freed = report.freed ++ r ∷ [] })

  unfoldable pub promote : LeaseRecord → Reconciliation → M State Reconciliation
  promote r report = do
    promoted ← activate st r
    pure (record report { promoted = report.promoted ++ promoted ∷ [] })

  unfoldable pub complete_release : LeaseRecord → Reconciliation → M State Reconciliation
  complete_release r report = do
    finish_release st r
    pure (record report { freed = report.freed ++ r ∷ [] })

  -- The body of the loop, on the state of the record and the standing of its sandbox.
  unfoldable pub reconcile_one :
      Bool → LeaseState → Standing → LeaseRecord → Reconciliation → M State Reconciliation
  unfolding reason_for quarantine_if free_absent promote complete_release
  reconcile_one proof reserved absent r report = free_absent r report
  reconcile_one proof reserved owned r report = promote r report
  reconcile_one proof releasing owned r report =
      pure (record report { resuming_deletion = report.resuming_deletion ++ r ∷ [] })
  reconcile_one true releasing absent r report = complete_release r report
  reconcile_one proof state s r report = quarantine_if (reason_for state s) r report

  module _ (look : Bytes → Looked) (proof : Bool) where
    unfoldable pub looked : Looked → M State (Option SandboxView)
    looked (found view) = pure view
    looked (lookup_error reason) = fail (lookup_failed reason)

    unfoldable pub reconcile_from : List LeaseRecord → Reconciliation → M State Reconciliation
    reconcile_from [] report = pure report
    reconcile_from (r ∷ rs) report = do
      view ← looked (look r.sandbox_id)
      next ← reconcile_one proof r.state (standing r view) r report
      reconcile_from rs next

    unfoldable pub reconcile_loaded : List LeaseRecord → M State Reconciliation
    reconcile_loaded records = reconcile_from records no_report

    unfoldable pub reconcile : M State Reconciliation
    reconcile = do records ← load_indexed st; reconcile_loaded records
