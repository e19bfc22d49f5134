-- ===== src/Subid/Ledger/Disk/Reads.antt =====
-- What the reading operations of crates/shbox/src/sandbox/subid/ledger.rs leave and answer.
use shbox.Prelude.{
  ℕ, zero, suc, ◌≤◌, true, false, not, ◌≡◌, refl, sym, ap, ap₂, ◌∙◌, List, [], ◌∷◌, none, some,
  arith, Bool-cases, inl, inr, ltb, length,
}
use shbox.Prelude.Bytes.{Bytes}
use shbox.Storage.Files.{Files, File, Io, take}
use shbox.Subid.Ledger.{LeaseRecord, Result, ok, err}
use shbox.Subid.Ledger.Codec.{Texts, max_record_bytes, record_suffix, decode}
use shbox.Subid.Ledger.Disk
use shbox.Subid.Ledger.Disk.{
  is_shared, is_skipped, lease_of, sort, or_corrupt, temp_prefix, starts_with,
}
use shbox.Subid.Ledger.Disk.Contents.{entry, Same, held}
use shbox.Subid.Ledger.Disk.Listing.{collect}
use shbox.Subid.Ledger.Disk.Monad.{sys}
use shbox.Subid.Ledger.Disk.Names.{lease_of-ok, is_skipped-lease}
use shbox.Subid.Ledger.Disk.Triple.{
  Triple, bind, weaken, pure-Triple, guard-Triple, lift-Triple, sys-Triple, given,
}

take_short :
    (most : ℕ) (bytes : Bytes)
    → length (take (suc most) bytes) ≤ most
    → take (suc most) bytes ≡ bytes
take_short most [] h = refl
take_short zero (b ∷ bytes) h = absurd (omega (arith, h))
take_short (suc most) (b ∷ bytes) h =
    ap (λ (t : Bytes). b ∷ t) (take_short most bytes (omega (arith, h)))

not_longer : (most n : ℕ) → not (ltb most n) ≡ true → n ≤ most
not_longer most n h = ground (arith, h)

or_corrupt-ok :
    (name : Bytes) (m : Result LeaseRecord) (r : LeaseRecord) → or_corrupt name m ≡ ok r → m ≡ ok r
or_corrupt-ok name (ok x) r h = h
or_corrupt-ok name (err e) r h = cc

lease_of-plain : (name id : Bytes) → lease_of name ≡ ok id → is_skipped name ≡ false
lease_of-plain name id named =
    let (is_name, fine) = lease_of-ok name id named in
    rw is_name (is_skipped-lease id record_suffix fine)

module _ (texts : Texts) (files : Files) (pid : ℕ) (s0 : Files.State files) where
  open files use {State, at, listing}

  abbrev pub Old : State → Type 0
  Old = Same texts files s0

  pub Old-step : (t u : State) → Old t → ((n : Bytes) → at u n ≡ at t n) → Old u
  Old-step t u same kept n h = kept n ∙ same n h

  -- A system call that touches no file.
  pub sys-Old :
      {A : Type 0} (op : State → Io A × State)
      → ((t : State) (n : Bytes) → at (op t).1 n ≡ at t n)
      → Triple Old (sys op) (λ _. Old) Old
  sys-Old op kept =
      sys-Triple op (λ _. Old) (λ t p x e. Old-step t (op t).1 p (kept t))
        λ t p x e. Old-step t (op t).1 p (kept t)

  pub open_root-Old : Triple Old (Disk.open_root texts files pid) (λ _. Old) Old
  unfolding Disk.open_root Disk.validate_ownership
  open_root-Old =
      bind _ _ (λ _. Old) (sys-Old files.open_directory files.at-open_directory)
        λ root.
          bind _ _ (λ _ t. Old t × (root.is_directory ≡ true)) (guard-Triple _ _ λ t p. p)
            λ _. given λ _.
              bind _ _ (λ _ t. Old t × (root.is_own ≡ true)) (guard-Triple _ _ λ t p. p)
                λ _. given λ _. weaken (guard-Triple _ _ λ t p. p) (λ _ t p. p.0) (λ t p. p)

  pub lock-Old : Triple Old (Disk.lock texts files pid) (λ _. Old) Old
  unfolding Disk.lock
  lock-Old = sys-Old files.flock files.at-flock

  -- The whole text, where it is not too large.
  read_file_at-Old :
      (name : Bytes) (file : File)
      → is_skipped name ≡ false
      → at s0 name ≡ some file
      → Triple Old
          (Disk.read_file_at texts files pid name max_record_bytes)
          (λ bytes t. Old t × (bytes ≡ file.contents))
          Old
  unfolding Disk.read_file_at
  read_file_at-Old name file plain there =
      bind _ _ (λ bytes t. Old t × (bytes ≡ take (suc max_record_bytes) file.contents))
        (sys-Triple (files.read_bytes name (suc max_record_bytes)) _
          (λ t p x e. (
            Old-step t _ p (files.at-read_bytes name (suc max_record_bytes) t),
            files.read_bytes_lem name (suc max_record_bytes) t file x (p name plain ∙ there) e,
          ))
          λ t p x e. Old-step t _ p (files.at-read_bytes name (suc max_record_bytes) t))
        λ bytes. given λ is_read.
          bind _ _ (λ _ t. Old t × (not (ltb max_record_bytes (length bytes)) ≡ true))
            (guard-Triple _ _ λ t p. p)
            λ _. given λ small. pure-Triple bytes λ t p. (p, whole bytes is_read small)
    where
      whole :
          (bytes : Bytes)
          → bytes ≡ take (suc max_record_bytes) file.contents
          → not (ltb max_record_bytes (length bytes)) ≡ true
          → bytes ≡ file.contents
      whole bytes e small =
          let short = not_longer max_record_bytes (length bytes) small in
          e ∙ take_short max_record_bytes file.contents (rw (← e) short)

  held_found :
      (name id : Bytes) (file : File) (r : LeaseRecord)
      → lease_of name ≡ ok id
      → at s0 name ≡ some file
      → file.is_regular ≡ true
      → not (is_shared file.mode) ≡ true
      → decode texts file.contents id ≡ ok r
      → entry texts files s0 name ≡ some r
  unfolding entry
  held_found name id file r named there regular own decodes =
      ap₂ (held texts) named there ∙ ground (arith, regular, own, decodes)

  -- A record that is read is the one that the file holds.
  pub read_named-Old :
      (name : Bytes)
      → Triple Old
          (Disk.read_named texts files pid name)
          (λ r t. Old t × (entry texts files s0 name ≡ some r))
          Old
  unfolding Disk.read_named
  read_named-Old name =
      bind _ _ (λ id t. Old t × (lease_of name ≡ ok id)) (lift-Triple _ λ t p. p)
        λ id. given λ named.
          let plain = lease_of-plain name id named in
          bind _ _ (λ file t. Old t × (at s0 name ≡ some file))
            (sys-Triple (files.stat_at name) _
              (λ t p file e. (
                Old-step t _ p (files.at-stat_at name t),
                sym (p name plain) ∙ files.stat_at_lem name t file e,
              ))
              λ t p x e. Old-step t _ p (files.at-stat_at name t))
            λ file. given λ there.
              bind _ _ (λ _ t. Old t × (file.is_regular ≡ true)) (guard-Triple _ _ λ t p. p)
                λ _. given λ regular.
                  bind _ _ (λ _ t. Old t × (not (is_shared file.mode) ≡ true))
                    (guard-Triple _ _ λ t p. p)
                    λ _. given λ own.
                      bind _ _ (λ bytes t. Old t × (bytes ≡ file.contents))
                        (read_file_at-Old name file plain there)
                        λ bytes. given λ whole.
                          weaken (lift-Triple _ λ t p. p)
                            (λ r t p. (
                              p.0,
                              held_found name id file r named there regular own (
                                  ap (λ b. decode texts b id) (sym whole)
                                  ∙ or_corrupt-ok name (decode texts bytes id) r p.1),
                            ))
                            λ t p. p

  entry_skipped : (name : Bytes) → is_skipped name ≡ true → entry texts files s0 name ≡ none
  unfolding entry
  entry_skipped name h = nameless (lease_of name) refl
    where
      nameless : (m : Result Bytes) → lease_of name ≡ m → held texts m (at s0 name) ≡ none
      nameless (err e) k = refl
      nameless (ok id) k = let plain = lease_of-plain name id k in cc

  pub read_all-Old :
      (names : List Bytes)
      → Triple Old
          (Disk.read_all texts files pid names)
          (λ rs t. Old t × (rs ≡ collect (entry texts files s0) names))
          Old
  unfolding Disk.read_all collect
  read_all-Old [] = pure-Triple [] λ t p. (p, refl)
  read_all-Old (name ∷ names) = elim (Bool-cases (is_skipped name)) [
    | inl e ↦ let gone = entry_skipped name e in rw e (rw gone (read_all-Old names))
    | inr e ↦ rw e (
        bind _ _ (λ r t. Old t × (entry texts files s0 name ≡ some r)) (read_named-Old name)
          λ r. given λ found.
            bind _ _ (λ rs t. Old t × (rs ≡ collect (entry texts files s0) names))
              (read_all-Old names)
              λ rs. given λ later. pure-Triple (r ∷ rs) λ t p. (p, rw found (rw later refl)))
  ]
