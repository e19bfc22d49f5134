-- ===== src/Tests/Disk.antt =====
-- The lease store on a directory held in memory.
use shbox.Prelude.{arith, ◌≡◌, ◌≢◌, false, refl, [], ◌∷◌, none, some, true}
use shbox.Prelude.Ascii.{is_digit}
use shbox.Prelude.Bytes.{codes, bytes_eq}
use shbox.Prelude.Dict
use shbox.Prelude.Dict.{lookup, add, member}
use shbox.Storage.Faults
use shbox.Storage.Files.{is_there}
use shbox.Subid.Ledger.{ok, as_str}
use shbox.Subid.Ledger.Codec.{encode, decode, is_lower_hex, validate_lease_id}
use shbox.Subid.Ledger.Codec.Roundtrip.{decode-encode}
use shbox.Subid.Ledger.Interface.{Written}
use shbox.Subid.Ledger.Records.{find, put, drop_id, place}
use shbox.Subid.Ledger.Disk
use shbox.Subid.Ledger.Disk.Contents.{entry}
use shbox.Subid.Ledger.Disk.Monad.{Store}
use shbox.Subid.Ledger.Disk.Refines.{
  on_file, load_lem, read_lem, write_lem, remove_lem, on_file-remove_stale_temps,
}
use shbox.Subid.Ledger.Disk.Rejects.{load_rejects}
use shbox.Tests.Memory.{Directory, directory}
use shbox.Tests.Names.{lease, texts, lease-IsWellFormed}

abbrev empty : Store Directory
empty = record { files = []; next_fault = none; counter = 0 }

abbrev published : Store Directory
published = record {
  files =
      (
        codes "0123456789abcdef0123456789abcdef.toml",
        record { is_regular = true; mode = 0o600; contents = encode texts lease },
      )
      ∷ (codes ".lease.toml.tmp-1-0", record { is_regular = true; mode = 0o600; contents = [] })
      ∷ [];
  next_fault = none;
  counter = 1;
}

lease-decodes : decode texts (encode texts lease) lease.lease_id ≡ ok lease
unfolding encode as_str
lease-decodes =
    decode-encode texts lease (encode texts lease) lease-IsWellFormed (omega arith) refl refl

write_lem_example :
    Written
      (on_file texts directory 1 empty)
      (put lease (on_file texts directory 1 empty))
      (Disk.write texts directory 1 lease empty).0
      (on_file texts directory 1 (Disk.write texts directory 1 lease empty).1)
write_lem_example = write_lem texts directory 1 lease empty lease-decodes

loaded : (Disk.load texts directory 1 published).0 ≡ ok (lease ∷ [])
unfolding Disk.load Disk.open_root Disk.validate_ownership Disk.read_all Disk.read_named
    Disk.read_file_at Disk.sort Disk.is_shared Disk.is_skipped Disk.starts_with Disk.strip_suffix
    Disk.lease_of lookup member add bytes_eq place validate_lease_id is_lower_hex is_digit encode
    as_str
loaded = rw lease-decodes refl

abbrev foreign : Store Directory
foreign = record {
  files = (codes "notes.txt", record { is_regular = true; mode = 0o600; contents = [] }) ∷ [];
  next_fault = none;
  counter = 0;
}

load_lem_example : lease ∷ [] ≡ on_file texts directory 1 published
load_lem_example = load_lem texts directory 1 published (lease ∷ []) loaded

found : (Disk.read texts directory 1 lease.lease_id published).0 ≡ ok (some lease)
unfolding Disk.read Disk.read_stat Disk.open_root Disk.validate_ownership Disk.read_named
    Disk.read_file_at Disk.is_shared Disk.strip_suffix Disk.lease_of lookup bytes_eq
    validate_lease_id is_lower_hex is_digit encode as_str
found = rw lease-decodes refl

read_lem_example : some lease ≡ find lease.lease_id (on_file texts directory 1 published)
read_lem_example = read_lem texts directory 1 lease.lease_id published (some lease) found

remove_lem_example :
    Written
      (on_file texts directory 1 published)
      (drop_id lease.lease_id (on_file texts directory 1 published))
      (Disk.remove texts directory 1 lease.lease_id published).0
      (on_file texts directory 1 (Disk.remove texts directory 1 lease.lease_id published).1)
remove_lem_example = remove_lem texts directory 1 lease.lease_id published

on_file-remove_stale_temps_example :
    on_file texts directory 1 (Disk.remove_stale_temps texts directory 1 published).1
    ≡ on_file texts directory 1 published
on_file-remove_stale_temps_example = on_file-remove_stale_temps texts directory 1 published

foreign_there : is_there (lookup (codes "notes.txt") foreign.files) ≡ true
unfolding lookup bytes_eq
foreign_there = refl

foreign_plain : Disk.is_skipped (codes "notes.txt") ≡ false
unfolding Disk.is_skipped Disk.starts_with bytes_eq
foreign_plain = refl

foreign_empty : entry texts directory foreign.files (codes "notes.txt") ≡ none
unfolding entry Disk.lease_of Disk.strip_suffix lookup bytes_eq
foreign_empty = refl

load_rejects_example : (Disk.load texts directory 1 foreign).0 ≢ ok []
load_rejects_example =
    load_rejects texts directory 1 foreign (codes "notes.txt") foreign_there foreign_plain
      foreign_empty []

write_run : (Disk.write texts directory 1 lease empty).0 ≡ ok tt
unfolding Disk.write Disk.open_root Disk.validate_ownership Disk.next_temp Disk.cleaned
    Disk.write_temp Faults.trip Disk.is_shared lookup bytes_eq Dict.insert Dict.delete
write_run = refl

remove_run : (Disk.remove texts directory 1 lease.lease_id published).0 ≡ ok tt
unfolding Disk.remove Disk.removed Disk.open_root Disk.validate_ownership Faults.trip Disk.is_shared
    lookup bytes_eq validate_lease_id is_lower_hex is_digit Dict.delete
remove_run = refl
