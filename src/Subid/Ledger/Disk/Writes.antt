-- ===== src/Subid/Ledger/Disk/Writes.antt =====
-- `write` and `remove` of crates/shbox/src/sandbox/subid/ledger.rs: one lease file changes, and a
-- failure leaves it as it was or as it should be.
use Prim.Native.Nat.{bit_and}
use shbox.Prelude.{
  true, false, ◌≡◌, inl, inr, refl, ap, ap₂, ◌∙◌, ◌++◌, Option, none, some, arith, Bool-cases,
  if◌then◌else◌,
}
use shbox.Prelude.Bytes.{Bytes, bytes_eq, bytes_eq_iff}
use shbox.Storage.Files.{Files, File}
use shbox.Subid.Ledger.{LeaseRecord, ok}
use shbox.Subid.Ledger.Codec.{Texts, record_suffix, validate_lease_id, decode, encode}
use shbox.Subid.Ledger.Codec.Roundtrip.{decode_iff, validate_lease_id-ok}
use shbox.Subid.Ledger.Records.{put, drop_id}
use shbox.Subid.Ledger.Disk.{is_shared, is_skipped, lease_of, temp_prefix, starts_with}
use shbox.Subid.Ledger.Disk.Contents.{
  entry, records, held, held_ext, held-none, records-put, records-drop_id,
}
use shbox.Subid.Ledger.Disk.Names.{
  lease_of-append, is_skipped-lease, starts_with-is_skipped, suffix_cancel,
}

pub not_temp :
    (temp n : Bytes)
    → starts_with temp_prefix temp ≡ true
    → is_skipped n ≡ false
    → bytes_eq temp n ≡ false
not_temp temp n h plain =
    let skipped = starts_with-is_skipped temp h in ground (arith, bytes_eq_iff temp n)

suffix_differs :
    (a b : Bytes)
    → bytes_eq a b ≡ false
    → bytes_eq (a ++ record_suffix) (b ++ record_suffix) ≡ false
suffix_differs a b h = ground (
  arith,
  bytes_eq_iff a b,
  bytes_eq_iff (a ++ record_suffix) (b ++ record_suffix),
  suffix_cancel record_suffix a b,
)

module _ (texts : Texts) (files : Files) where
  open files use {State, at, listing}

  -- A file that holds the text of a record, and that nobody else may write.
  abbrev pub Holds : Bytes → File → Type 0
  Holds bytes file =
      (file.is_regular ≡ true) × (bit_and file.mode 0o022 ≡ 0) × (file.contents ≡ bytes)

  -- The lease's file is as given, and no other lease file has changed.
  abbrev pub Replaced : State → Bytes → Option File → State → Type 0
  Replaced s id file t =
      (n : Bytes)
      → is_skipped n ≡ false
      → at t n ≡ (if bytes_eq (id ++ record_suffix) n then file else at s n)

  held_whole :
      (id : Bytes) (r : LeaseRecord) (file : File)
      → Holds (encode texts r) file
      → decode texts (encode texts r) id ≡ ok r
      → held texts (ok id) (some file) ≡ some r
  unfolding is_shared
  held_whole id r file (regular, own, whole) decodes =
      let text = ap (λ b. decode texts b id) whole ∙ decodes in ground (arith, regular, own, text)

  entry_others :
      (s t : State) (id : Bytes) (file : Option File) (other_id : Bytes)
      → Replaced s id file t
      → bytes_eq id other_id ≡ false
      → entry texts files t (other_id ++ record_suffix)
        ≡ entry texts files s (other_id ++ record_suffix)
  unfolding entry
  entry_others s t id file other_id h ne =
      held_ext texts n (lease_of n) (at t n) (at s n) refl
        λ plain. h n plain ∙ ground (arith, suffix_differs id other_id ne)
    where
      n : Bytes
      n = other_id ++ record_suffix

  entry_here :
      (s t : State) (id : Bytes) (file : Option File)
      → Replaced s id file t
      → validate_lease_id id ≡ ok tt
      → entry texts files t (id ++ record_suffix) ≡ held texts (ok id) file
  unfolding entry
  entry_here s t id file h fine =
      let plain = is_skipped-lease id record_suffix fine in
      let itself = (bytes_eq_iff (id ++ record_suffix) (id ++ record_suffix)).1 refl in
      ap₂ (held texts) (lease_of-append id fine) (h (id ++ record_suffix) plain ∙ rw itself refl)

  pub Replaced-put :
      (s t : State) (r : LeaseRecord) (file : File)
      → decode texts (encode texts r) r.lease_id ≡ ok r
      → Holds (encode texts r) file
      → Replaced s r.lease_id (some file) t
      → records texts files t ≡ put r (records texts files s)
  Replaced-put s t r file decodes whole h = records-put texts files s t r λ id.
      elim (Bool-cases (bytes_eq r.lease_id id)) [
        | inl e ↦ rw e (
            rw (← (bytes_eq_iff r.lease_id id).0 e) (
              entry_here s t r.lease_id (some file) h fine
              ∙ held_whole r.lease_id r file whole decodes))
        | inr e ↦ rw e (entry_others s t r.lease_id (some file) id h e)
      ]
    where
      fine : validate_lease_id r.lease_id ≡ ok tt
      fine =
          validate_lease_id-ok r.lease_id
            ((decode_iff texts (encode texts r) r.lease_id r).0 decodes).1.0

  pub Replaced-drop_id :
      (s t : State) (gone : Bytes)
      → validate_lease_id gone ≡ ok tt
      → Replaced s gone none t
      → records texts files t ≡ drop_id gone (records texts files s)
  Replaced-drop_id s t gone fine h = records-drop_id texts files s t gone λ id.
      elim (Bool-cases (bytes_eq gone id)) [
        | inl e ↦ rw e (
            rw (← (bytes_eq_iff gone id).0 e)
              (entry_here s t gone none h fine ∙ held-none texts (ok gone)))
        | inr e ↦ rw e (entry_others s t gone none id h e)
      ]
