-- ===== src/Subid/Ledger/Disk.antt =====
-- crates/shbox/src/sandbox/subid/ledger.rs: `LeaseStore`, over the system calls on its directory.
-- File names are the texts that `from_utf8_lossy` makes of them.
pub mod Monad
pub mod Names
pub mod Rejects
pub mod Removal
pub mod Refines
pub mod Publication
pub mod Writes
pub mod Effects
pub mod Reads
pub mod Triple
pub mod Contents
pub mod Listing
use Prim.Native.Nat.{bit_and}
use shbox.Prelude.{
  ℕ, suc, Bool, true, false, not, ◌&&◌, ◌||◌, ◌==◌, ltb, ◌+◌, ◌%◌, ◌^◌, Option, none, some, List,
  [], ◌∷◌, ◌++◌, length, if◌then◌else◌,
}
use shbox.Prelude.Bytes.{Bytes, bytes_eq, codes}
use shbox.Storage.Files.{Files, File, RootStat, IoError, not_found, other, Io, done, failed}
use shbox.Storage.Faults.{
  FaultPoint, lease_temp_create, lease_write, lease_file_sync, lease_rename, lease_parent_sync,
  lease_unlink, lease_unlink_sync,
}
use shbox.Subid.Ledger.{
  LeaseRecord, Error, Result, ok, err, io, unsafe_directory, unknown_file_name, corrupt_record,
  missing_record,
}
use shbox.Subid.Ledger.Codec.{
  Texts, validate_lease_id, max_record_bytes, record_suffix, file_name, decode, encode,
}
use shbox.Subid.Ledger.Records.{place}
use Monad.{Store, M, ◌>>=◌, ◌>>◌, pure, fail, lift, guard, sys, call, trip}

abbrev pub temp_prefix : Bytes
temp_prefix = codes ".lease.toml.tmp"

abbrev pub lock_file_basename : Bytes
lock_file_basename = codes ".lease.lock"

unfoldable pub starts_with : Bytes → Bytes → Bool
starts_with [] text = true
starts_with (c ∷ before) [] = false
starts_with (c ∷ before) (b ∷ text) = c == b && starts_with before text

abbrev pub with_first : ℕ → Option Bytes → Option Bytes
with_first b none = none
with_first b (some front) = some (b ∷ front)

-- `str::strip_suffix`
unfoldable pub strip_suffix : Bytes → Bytes → Option Bytes
strip_suffix suffix [] = if bytes_eq [] suffix then some [] else none
strip_suffix suffix (b ∷ text) =
    let shorter = strip_suffix suffix text in
    if bytes_eq (b ∷ text) suffix then some [] else with_first b shorter

-- `mode_bits(mode) & 0o022 != 0`
unfoldable pub is_shared : ℕ → Bool
is_shared mode = not (bit_and mode 0o022 == 0)

-- The files of a scan that are no leases: those of crashed writers, and the lock.
unfoldable pub is_skipped : Bytes → Bool
is_skipped name = starts_with temp_prefix name || bytes_eq name lock_file_basename

-- `sort_by` the lease ID.
unfoldable pub sort : List LeaseRecord → List LeaseRecord
sort [] = []
sort (r ∷ rs) = place r (sort rs)

abbrev pub checked : Bytes → Bytes → Result (Unit {0}) → Result Bytes
checked name id (ok _) = ok id
checked name id (err _) = err (unknown_file_name name)

abbrev pub lease_named : Bytes → Option Bytes → Result Bytes
lease_named name none = err (unknown_file_name name)
lease_named name (some id) = checked name id (validate_lease_id id)

-- The name's lease ID, in `read_named`.
unfoldable pub lease_of : Bytes → Result Bytes
lease_of name = lease_named name (strip_suffix record_suffix name)

-- A failure to decode names the file.
abbrev pub or_corrupt : Bytes → Result LeaseRecord → Result LeaseRecord
or_corrupt name (ok r) = ok r
or_corrupt name (err e) = err (corrupt_record name)

module _ (texts : Texts) (files : Files) (pid : ℕ) where
  open files use {State}

  unfoldable pub validate_ownership : RootStat → M State (Unit {0})
  validate_ownership root = do
    guard root.is_directory unsafe_directory
    guard root.is_own unsafe_directory
    guard (not (is_shared root.mode)) unsafe_directory

  unfoldable pub open_root : M State (Unit {0})
  open_root = do root ← sys files.open_directory; validate_ownership root

  unfoldable pub lock : M State (Unit {0})
  lock = sys files.flock

  unfoldable pub read_file_at : Bytes → ℕ → M State Bytes
  read_file_at name max_bytes = do
    bytes ← sys (files.read_bytes name (suc max_bytes))
    guard (not (ltb max_bytes (length bytes))) io
    pure bytes

  unfoldable pub read_named : Bytes → M State LeaseRecord
  read_named name = do
    id ← lift (lease_of name)
    stat ← sys (files.stat_at name)
    guard stat.is_regular (unknown_file_name name)
    guard (not (is_shared stat.mode)) (corrupt_record name)
    bytes ← read_file_at name max_record_bytes
    lift (or_corrupt name (decode texts bytes id))

  -- The loop of `load`.
  unfoldable pub read_all : List Bytes → M State (List LeaseRecord)
  read_all [] = pure []
  read_all (name ∷ names) =
      let later = read_all names in
      if is_skipped name
      then later
      else (do record_here ← read_named name; records ← later; pure (record_here ∷ records))

  unfoldable pub load : M State (List LeaseRecord)
  load = do open_root; names ← sys files.read_names; records ← read_all names; pure (sort records)

  -- The loop of `remove_stale_temps`.
  unfoldable pub remove_temps : List Bytes → M State (Unit {0})
  remove_temps [] = pure tt
  remove_temps (name ∷ names) =
      let later = remove_temps names in
      if starts_with temp_prefix name then (do sys (files.unlink_at name); later) else later

  unfoldable pub remove_stale_temps : M State (Unit {0})
  remove_stale_temps = do open_root; names ← sys files.read_names; remove_temps names

  -- `read` after the call of `stat_at`.
  unfoldable pub read_stat : Bytes → Io File → M State (Option LeaseRecord)
  read_stat name (done stat) = do record_here ← read_named name; pure (some record_here)
  read_stat name (failed not_found) = pure none
  read_stat name (failed other) = fail io

  unfoldable pub read : Bytes → M State (Option LeaseRecord)
  read id = do
    lift (validate_lease_id id)
    open_root
    stat ← call (files.stat_at (id ++ record_suffix))
    read_stat (id ++ record_suffix) stat

  -- The name of the next temp file: `TEMP_COUNTER` is a 64-bit counter.
  unfoldable pub next_temp : M State Bytes
  next_temp s = (
    ok (
        temp_prefix
        ++ codes "-"
        ++ Texts.display texts pid
        ++ codes "-"
        ++ Texts.display texts s.counter),
    record s { counter = (s.counter + 1) % 2 ^ 64 },
  )

  -- The closure of `write`.
  unfoldable pub write_temp : Bytes → LeaseRecord → M State (Unit {0})
  write_temp temp r = do
    trip lease_temp_create
    sys (files.create_file_at temp)
    trip lease_write
    sys (files.write_all temp (encode texts r))
    trip lease_file_sync
    sys (files.sync_all temp)
    trip lease_rename
    sys (files.rename_at temp (file_name r))
    trip lease_parent_sync
    sys files.sync_directory

  -- A failed write removes its temp file, whatever comes of that.
  abbrev pub clean_up : Bytes → Result (Unit {0}) → M State (Unit {0})
  clean_up temp (ok _) = pure tt
  clean_up temp (err e) = do removed ← call (files.unlink_at temp); fail e

  unfoldable pub cleaned : Bytes → M State (Unit {0}) → M State (Unit {0})
  cleaned temp m s = let r = m s in clean_up temp r.0 r.1

  unfoldable pub write : LeaseRecord → M State (Unit {0})
  write r = do open_root; temp ← next_temp; cleaned temp (write_temp temp r)

  -- `remove` after the call of `unlink_at`.
  unfoldable pub removed : Bytes → Io (Unit {0}) → M State (Unit {0})
  removed id (done _) = do trip lease_unlink_sync; sys files.sync_directory
  removed id (failed not_found) = fail (missing_record id)
  removed id (failed other) = fail io

  unfoldable pub remove : Bytes → M State (Unit {0})
  remove id = do
    lift (validate_lease_id id)
    open_root
    trip lease_unlink
    answer ← call (files.unlink_at (id ++ record_suffix))
    removed id answer
