-- ===== src/Subid/Ledger/Interface.antt =====
-- What the allocator uses of `LeaseStore` in ledger.rs: its operations, and the records that they
-- leave on disk. A failed write or removal may still have taken effect, since the directory is
-- synchronised last; any other failure leaves the records alone.
use shbox.Prelude.{◌≡◌, ◌⊎◌, List, Option}
use shbox.Prelude.Bytes.{Bytes}
use shbox.Subid.Ledger.Records.{find, put, drop_id}
use shbox.Subid.Ledger.{
  LeaseRecord, LeaseState, Result, ok, err, with_state, with_quarantine_reason,
}

-- The records after an operation: as they were if it failed outright, or as it makes them.
abbrev pub Written :
    {A : Type 0} → List LeaseRecord → List LeaseRecord → Result A → List LeaseRecord → Type 0
Written old new (ok a) rs = rs ≡ new
Written old new (err e) rs = (rs ≡ old) ⊎ (rs ≡ new)

pub record LeaseStore : Type 1 where
  pub State : Type 0
  -- The readable records, in the order of their lease IDs.
  pub records : State → List LeaseRecord
  pub lock : State → Result (Unit {0}) × State
  pub load : State → Result (List LeaseRecord) × State
  pub read : Bytes → State → Result (Option LeaseRecord) × State
  pub write : LeaseRecord → State → Result (Unit {0}) × State
  pub remove : Bytes → State → Result (Unit {0}) × State
  pub remove_stale_temps : State → Result (Unit {0}) × State
  -- A record that decodes to itself once it is encoded, and a reason that leaves it so.
  pub IsStorable : LeaseRecord → Type 0
  pub IsReadable : Bytes → Type 0
  pub with_state-IsStorable :
      (r : LeaseRecord) (st : LeaseState) → IsStorable r → IsStorable (with_state r st)
  pub with_quarantine_reason-IsStorable :
      (r : LeaseRecord) (reason : Bytes)
      → IsReadable reason
      → IsStorable r
      → IsStorable (with_quarantine_reason r reason)
  pub records-lock : (s : State) → records (lock s).1 ≡ records s
  pub records-load : (s : State) → records (load s).1 ≡ records s
  pub records-read : (id : Bytes) (s : State) → records (read id s).1 ≡ records s
  pub records-remove_stale_temps : (s : State) → records (remove_stale_temps s).1 ≡ records s
  pub load_lem : (s : State) (rs : List LeaseRecord) → (load s).0 ≡ ok rs → rs ≡ records s
  pub read_lem :
      (id : Bytes) (s : State) (o : Option LeaseRecord)
      → (read id s).0 ≡ ok o
      → o ≡ find id (records s)
  pub write_lem :
      (r : LeaseRecord) (s : State)
      → IsStorable r
      → Written (records s) (put r (records s)) (write r s).0 (records (write r s).1)
  pub remove_lem :
      (id : Bytes) (s : State)
      → Written (records s) (drop_id id (records s)) (remove id s).0 (records (remove id s).1)
