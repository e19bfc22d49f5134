-- ===== src/Tests/Granted.antt =====
-- Claims on the lease directory: one delegated UID and one delegated GID, and an empty directory held
-- in memory.
use shbox.Prelude.{
  ℕ, ◌+◌, ◌++◌, ◌≤◌, length, inl, ◌≡◌, ◌↔◌, refl, false, [], ◌∷◌, Option, none, some, arith, All,
  if◌then◌else◌,
}
use shbox.Prelude.Bytes.{Bytes, bytes_eq}
use shbox.Subid.Delegation.{Delegation, contains}
use shbox.Subid.Ledger.{LeaseRecord, LeaseState, reserved, active, releasing, quarantined, as_str}
use shbox.Subid.Ledger
use shbox.Subid.Ledger.Codec.{Texts, RawLease, encode, decode, max_record_bytes}
use shbox.Subid.Ledger.Codec.Fields.{IsWellFormed, raw_of}
use shbox.Subid.Ledger.Codec.Roundtrip.{decode-encode}
use shbox.Subid.Ledger.Records.{find}
use shbox.Subid.Ledger.Interface.{LeaseStore}
use shbox.Subid.Ledger.Disk.Monad.{Store}
use shbox.Subid.Ledger.Disk.Contents.{records}
use shbox.Subid.Ledger.Disk.Listing.{collect}
use shbox.Subid.Ledger.Disk
use shbox.Subid.Ledger.Disk.Refines.{disk, Allowed}
use shbox.Subid.Allocator.Monad.{Allocator, Result, ok}
use shbox.Subid.Allocator.{claim, load, publish}
use shbox.Subid.Allocator.Pool.{uid_kind, gid_kind}
use shbox.Subid.Allocator.Selection.{IsFree}
use shbox.Subid.Allocator.Claim.{LeastStorable, IsLeastPair}
use shbox.Subid.Allocator.Claim.{IsLeast}
use shbox.Subid.Allocator.Change.{IsFresh, LifeStep}
use shbox.Subid.Allocator.Outcome.{claim-IsLeast}
use shbox.Subid.Allocator.Success.{IsHealthy, claim_iff}
use shbox.Subid.Allocator.History.{
  Call, claims, perform, Step, calls, here, next, IsFair, Reach-Unique, Step-LifeStep,
}
use shbox.Subid.Ledger.Records.{Unique}
use shbox.Subid.Allocator.Pool.{validate_uniqueness, available}
use shbox.Subid.Available.{lowest, remove, from_ranges}
use shbox.Storage.Faults
use shbox.Prelude.Dict
use shbox.Prelude.Dict.{member, add}
use shbox.Tests.Memory.{Directory, directory}
use shbox.Tests.Names.{lease, owner, lease-IsWellFormed}

-- The formats.
abbrev formats : Texts
formats = record {
  from_utf8 = λ bytes. some bytes;
  from_str = λ text. none;
  debug = λ text. 34 ∷ text ++ 34 ∷ [];
  display = λ n. (n + 48) ∷ [];
}

abbrev in_state : LeaseState → LeaseRecord
in_state st = record lease { state = st }

-- A parser that knows the documents of the lease, one for each of its states.
abbrev parse : Bytes → Option RawLease
parse text =
    if bytes_eq text (encode formats (in_state active))
    then some (raw_of (in_state active))
    else if bytes_eq text (encode formats (in_state releasing))
    then some (raw_of (in_state releasing))
    else if bytes_eq text (encode formats (in_state reserved))
    then some (raw_of (in_state reserved))
    else if bytes_eq text (encode formats (in_state quarantined))
    then some (raw_of (in_state quarantined))
    else none

abbrev texts : Texts
texts = record formats { from_str = parse }

-- No quarantine is asked for.
abbrev store : LeaseStore
store = disk texts directory 1 (λ reason. ⊥)

in_state-IsWellFormed : (st : LeaseState) → IsWellFormed (in_state st)
in_state-IsWellFormed st =
    let (id, sandbox, named, uid, gid, reason) = lease-IsWellFormed in
    (id, sandbox, named, uid, gid, inl refl)

parsed : (st : LeaseState) → parse (encode texts (in_state st)) ≡ some (raw_of (in_state st))
unfolding encode as_str bytes_eq
parsed reserved = refl
parsed active = refl
parsed releasing = refl
parsed quarantined = refl

small : (st : LeaseState) → length (encode texts (in_state st)) ≤ max_record_bytes
unfolding encode as_str
small reserved = omega arith
small active = omega arith
small releasing = omega arith
small quarantined = omega arith

lease-IsStorable : store.IsStorable lease
lease-IsStorable = (tt, each)
  where
    each :
        (st : LeaseState) (reason : Option Bytes)
        → Allowed texts directory 1 (λ reason. ⊥) st reason
        → decode texts
            (encode texts (record lease { state = st; quarantine_reason = reason }))
            lease.lease_id
          ≡ Ledger.ok (record lease { state = st; quarantine_reason = reason })
    each st none h =
        decode-encode texts (in_state st) _ (in_state-IsWellFormed st) (small st) refl (parsed st)
    each st (some reason) h = absurd h.0

abbrev one_pair : Delegation
one_pair = record {
  uid_ranges = record { start = 100000; count = 1 } ∷ [];
  gid_ranges = record { start = 200000; count = 1 } ∷ [];
}

abbrev empty : Allocator (Store Directory)
empty = record {
  store = record { files = []; next_fault = none; counter = 0 };
  selection_is_poisoned = false;
  lease_ids_is_poisoned = false;
  pending_is_poisoned = false;
  lease_ids = [];
  pending_activations = [];
}

abbrev claim_lease : Allocator (Store Directory) → Result LeaseRecord × Allocator (Store Directory)
claim_lease = claim store 1000 1000 lease.lease_id lease.sandbox_id owner one_pair

empty_records : store.records empty.store ≡ []
unfolding records Disk.sort collect
empty_records = refl

the_uid : (x : ℕ) → IsFree uid_kind 1000 one_pair.uid_ranges [] x → x ≡ 100000
unfolding contains
the_uid x free = ground (arith, free.delegated)

the_gid : (x : ℕ) → IsFree gid_kind 1000 one_pair.gid_ranges [] x → x ≡ 200000
unfolding contains
the_gid x free = ground (arith, free.delegated)

least-IsStorable : LeastStorable store [] 1000 1000 lease.lease_id lease.sandbox_id owner one_pair
least-IsStorable r (e, uid, gid) =
    rw (e, the_uid r.uid uid.holds, the_gid r.gid gid.holds) lease-IsStorable

empty_IsStorable : All store.IsStorable (store.records empty.store)
empty_IsStorable = rw empty_records tt

least_on_disk :
    LeastStorable store
      (store.records empty.store)
      1000
      1000
      lease.lease_id
      lease.sandbox_id
      owner
      one_pair
least_on_disk = rw empty_records least-IsStorable

new_token : find lease.lease_id (store.records empty.store) ≡ none
unfolding find
new_token = rw empty_records refl

-- `claim` on the empty directory.
claim-run : (claim_lease empty).0 ≡ ok lease
unfolding claim load Disk.lock Disk.remove_stale_temps Disk.open_root Disk.validate_ownership
    Disk.is_shared Disk.remove_temps Disk.load Disk.read_all validate_uniqueness Disk.sort lowest
    available remove from_ranges publish Disk.write Disk.next_temp Disk.cleaned Disk.write_temp
    Faults.trip Dict.lookup bytes_eq Dict.insert Dict.delete member add
claim-run = refl

claim-IsLeast_example :
    (lease ≡ lease)
    × IsLeast (IsFree uid_kind 1000 one_pair.uid_ranges (store.records empty.store)) 100000
    × IsLeast (IsFree gid_kind 1000 one_pair.gid_ranges (store.records empty.store)) 200000
    × All (IsFresh lease) (store.records empty.store)
    × ((id : Bytes)
        → find id (store.records (claim_lease empty).1.store) ≡ (
            if bytes_eq lease.lease_id id then some lease else find id (store.records empty.store)))
claim-IsLeast_example =
    claim-IsLeast store empty 1000 1000 lease.lease_id lease.sandbox_id owner one_pair lease
      empty_IsStorable new_token (omega arith) (omega arith) least_on_disk claim-run

locked : (store.lock empty.store).0 ≡ Ledger.ok tt
unfolding Disk.lock Disk.open_root Disk.validate_ownership Disk.is_shared
locked = refl

swept : (store.remove_stale_temps (store.lock empty.store).1).0 ≡ Ledger.ok tt
unfolding Disk.lock Disk.remove_stale_temps Disk.open_root Disk.validate_ownership Disk.is_shared
    Disk.remove_temps
swept = refl

abbrev after_load : Store Directory
after_load = (store.load (store.remove_stale_temps (store.lock empty.store).1).1).1

loads : (store.load (store.remove_stale_temps (store.lock empty.store).1).1).0 ≡ Ledger.ok []
unfolding Disk.lock Disk.remove_stale_temps Disk.open_root Disk.validate_ownership Disk.is_shared
    Disk.remove_temps Disk.load Disk.read_all Disk.sort
loads = refl

written : (store.write lease after_load).0 ≡ Ledger.ok tt
unfolding Disk.lock Disk.remove_stale_temps Disk.open_root Disk.validate_ownership Disk.is_shared
    Disk.remove_temps Disk.load Disk.read_all Disk.sort Disk.write Disk.next_temp Disk.cleaned
    Disk.write_temp Faults.trip Dict.lookup bytes_eq Dict.insert Dict.delete
written = refl

least_written :
    (r : LeaseRecord)
    → IsLeastPair store [] 1000 1000 lease.lease_id lease.sandbox_id owner one_pair r
    → (store.write r after_load).0 ≡ Ledger.ok tt
least_written r (e, uid, gid) = rw (e, the_uid r.uid uid.holds, the_gid r.gid gid.holds) written

empty-IsHealthy : IsHealthy store empty.store (
    IsLeastPair store
      (store.records empty.store)
      1000
      1000
      lease.lease_id
      lease.sandbox_id
      owner
      one_pair)
empty-IsHealthy = record {
  locks = locked;
  sweeps = swept;
  loads = ([], loads);
  writes = rw empty_records least_written;
}

claim_iff_example : ((r : LeaseRecord) × ((claim_lease empty).0 ≡ ok r)) ↔ (
    ((x : ℕ) × IsFree uid_kind 1000 one_pair.uid_ranges (store.records empty.store) x)
    × ((y : ℕ) × IsFree gid_kind 1000 one_pair.gid_ranges (store.records empty.store) y))
claim_iff_example =
    claim_iff store empty 1000 1000 lease.lease_id lease.sandbox_id owner one_pair empty-IsHealthy
      (record { at = refl; selection = refl; lease_ids = refl; pending = refl })
      (rw empty_records tt) (rw empty_records tt) empty_IsStorable new_token (omega arith)
      (omega arith) least_on_disk

abbrev claims_lease : Call
claims_lease = claims 1000 1000 lease.lease_id lease.sandbox_id owner one_pair

abbrev claimed_store : Store Directory
claimed_store = (perform store claims_lease empty).1.store

abbrev claim-Step : Step store empty.store claimed_store
claim-Step = calls claims_lease empty refl refl

claim-IsFair : IsFair store claim-Step
claim-IsFair = (new_token, omega arith, omega arith, least_on_disk)

Reach-Unique_example : Unique (store.records claimed_store)
Reach-Unique_example =
    Reach-Unique store (next here claim-Step) (tt, claim-IsFair) empty_IsStorable
      (rw empty_records tt)

Step-LifeStep_example :
    LifeStep
      (find lease.lease_id (store.records empty.store))
      (find lease.lease_id (store.records claimed_store))
Step-LifeStep_example = Step-LifeStep store claim-Step claim-IsFair empty_IsStorable lease.lease_id
