-- ===== src/Subid/Ledger/Disk/Contents.antt =====
-- What the lease files of a directory hold, in crates/shbox/src/sandbox/subid/ledger.rs: a record in
-- each regular file of a lease's name that nobody else may write, where its text decodes.
use shbox.Prelude.{
  false, not, ◌&&◌, ◌≡◌, refl, sym, ap, ◌∙◌, List, ◌++◌, Option, none, some, arith, Bool-cases, inl,
  inr, if◌then◌else◌,
}
use shbox.Prelude.Bytes.{Bytes, bytes_eq}
use shbox.Storage.Files.{Files, File, is_there}
use shbox.Subid.Ledger.{LeaseRecord, Result, ok, err}
use shbox.Subid.Ledger.Codec.{Texts, record_suffix, decode}
use shbox.Subid.Ledger.Codec.Roundtrip.{decode_iff}
use shbox.Subid.Ledger.Order.{Ordered, Ordered-ext, put-Ordered, drop_id-Ordered}
use shbox.Subid.Ledger.Records.{find, put, drop_id, find-put, find-drop_id}
use shbox.Subid.Ledger.Disk.{is_shared, is_skipped, lease_of, sort}
use shbox.Subid.Ledger.Disk.Names.{lease_of-ok, is_skipped-lease}
use shbox.Subid.Ledger.Disk.Listing.{collect, find-collect, collect-Ordered}

abbrev pub to_option : Result LeaseRecord → Option LeaseRecord
to_option (ok r) = some r
to_option (err e) = none

to_option-some : (m : Result LeaseRecord) (r : LeaseRecord) → to_option m ≡ some r → m ≡ ok r
to_option-some (ok x) r h = ground arith
to_option-some (err e) r h = cc

module _ (texts : Texts) where
  -- What a file holds where its name is of a lease ID.
  abbrev pub held : Result Bytes → Option File → Option LeaseRecord
  held (err e) file = none
  held (ok id) none = none
  held (ok id) (some file) =
      if file.is_regular && not (is_shared file.mode)
      then to_option (decode texts file.contents id)
      else none

  held-ok :
      (name : Result Bytes) (file : Option File) (r : LeaseRecord)
      → held name file ≡ some r
      → name ≡ ok r.lease_id
  held-ok (err e) file r h = cc
  held-ok (ok id) none r h = cc
  held-ok (ok id) (some file) r h =
      let decodes : decode texts file.contents id ≡ ok r =
        to_option-some (decode texts file.contents id) r (ground arith) in
      ap ok (sym ((decode_iff texts file.contents id r).0 decodes).2)

  pub held_ext :
      (n : Bytes) (name : Result Bytes) (f g : Option File)
      → lease_of n ≡ name
      → (is_skipped n ≡ false → f ≡ g)
      → held name f ≡ held name g
  held_ext n (err e) f g h same = refl
  held_ext n (ok id) f g h same =
      let (is_name, fine) = lease_of-ok n id h in
      ap (held (ok id)) (same (rw is_name (is_skipped-lease id record_suffix fine)))

  pub held-none : (name : Result Bytes) → held name none ≡ none
  held-none (err e) = refl
  held-none (ok id) = refl

module _ (texts : Texts) (files : Files) where
  open files use {State, at, listing}

  unfoldable pub entry : State → Bytes → Option LeaseRecord
  entry s n = held texts (lease_of n) (at s n)

  unfoldable pub records : State → List LeaseRecord
  records s = sort (collect (entry s) (listing s))

  entry-Named :
      (s : State) (n : Bytes) (r : LeaseRecord)
      → entry s n ≡ some r
      → n ≡ r.lease_id ++ record_suffix
  unfolding entry
  entry-Named s n r h = (lease_of-ok n r.lease_id (held-ok texts (lease_of n) (at s n) r h)).0

  entry_absent :
      (s : State) (n : Bytes) (o : Option File) → at s n ≡ o → is_there o ≡ false → entry s n ≡ none
  unfolding entry
  entry_absent s n none e h = ap (held texts (lease_of n)) e ∙ held-none texts (lease_of n)
  entry_absent s n (some file) e h = cc

  -- What is found on file under a lease ID is what the file of its name holds.
  pub find-records : (s : State) (id : Bytes) → find id (records s) ≡ entry s (id ++ record_suffix)
  unfolding records
  find-records s id =
      let found = find-collect (entry s) (entry-Named s) (listing s) (files.listing-Lone s) id in
      let there = files.listing-at s (id ++ record_suffix) in
      elim (Bool-cases (is_there (at s (id ++ record_suffix)))) [
        | inl e ↦ ground arith
        | inr e ↦
            let gone = entry_absent s (id ++ record_suffix) (at s (id ++ record_suffix)) refl e in
            ground arith
      ]

  pub records-Ordered : (s : State) → Ordered (records s)
  unfolding records
  records-Ordered s = collect-Ordered (entry s) (entry-Named s) (listing s) (files.listing-Lone s)

  -- The two states differ in skipped files at most.
  abbrev pub Same : State → State → Type 0
  Same s t = (n : Bytes) → is_skipped n ≡ false → at t n ≡ at s n

  pub entry-Same : (s t : State) (n : Bytes) → Same s t → entry t n ≡ entry s n
  unfolding entry
  entry-Same s t n same = held_ext texts n (lease_of n) (at t n) (at s n) refl (same n)

  pub records-Same : (s t : State) → Same s t → records t ≡ records s
  records-Same s t same =
      Ordered-ext (records t) (records s) (records-Ordered t) (records-Ordered s) λ id.
        find-records t id ∙ entry-Same s t (id ++ record_suffix) same ∙ sym (find-records s id)

  -- The records after the file of a lease is replaced, and after it is removed.
  pub records-put :
      (s t : State) (r : LeaseRecord)
      → ((id : Bytes)
          → entry t (id ++ record_suffix)
            ≡ (if bytes_eq r.lease_id id then some r else entry s (id ++ record_suffix)))
      → records t ≡ put r (records s)
  records-put s t r h =
      Ordered-ext (records t) (put r (records s)) (records-Ordered t)
        (put-Ordered r (records s) (records-Ordered s))
        λ id. ground (arith, find-records t id, h id, find-put r id (records s), find-records s id)

  pub records-drop_id :
      (s t : State) (gone : Bytes)
      → ((id : Bytes)
          → entry t (id ++ record_suffix)
            ≡ (if bytes_eq gone id then none else entry s (id ++ record_suffix)))
      → records t ≡ drop_id gone (records s)
  records-drop_id s t gone h =
      Ordered-ext (records t) (drop_id gone (records s)) (records-Ordered t)
        (drop_id-Ordered gone (records s) (records-Ordered s))
        λ id.
          ground
            (arith, find-records t id, h id, find-drop_id gone id (records s), find-records s id)
