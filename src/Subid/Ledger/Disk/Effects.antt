-- ===== src/Subid/Ledger/Disk/Effects.antt =====
-- The operations of crates/shbox/src/sandbox/subid/ledger.rs that leave every record as it is.
use shbox.Prelude.{
  ℕ, true, false, ◌≡◌, refl, sym, ap, ◌∙◌, List, [], ◌∷◌, ◌++◌, Option, none, some, arith,
  Bool-cases, inl, inr,
}
use shbox.Prelude.Bytes.{Bytes, bytes_eq, bytes_eq_iff}
use shbox.Storage.Files.{Files, File, Io, done, failed, not_found, other}
use shbox.Subid.Ledger.{LeaseRecord, ok, io}
use shbox.Subid.Ledger.Codec.{Texts, record_suffix, validate_lease_id}
use shbox.Subid.Ledger.Disk
use shbox.Subid.Ledger.Disk.{is_skipped, lease_of, sort, temp_prefix, starts_with}
use shbox.Subid.Ledger.Disk.Contents.{entry, records, held, records-Same, entry-Same}
use shbox.Subid.Ledger.Disk.Listing.{collect}
use shbox.Subid.Ledger.Disk.Names.{lease_of-append, is_skipped-lease, starts_with-is_skipped}
use shbox.Subid.Ledger.Disk.Reads.{
  Old, Old-step, sys-Old, open_root-Old, read_named-Old, read_all-Old,
}
use shbox.Subid.Ledger.Disk.Triple.{
  Triple, bind, pure-Triple, fail-Triple, lift-Triple, call-Triple, sys-Triple, given,
}

collect_ext :
    (e f : Bytes → Option LeaseRecord) (ns : List Bytes)
    → ((n : Bytes) → e n ≡ f n)
    → collect e ns ≡ collect f ns
unfolding collect
collect_ext e f [] h = refl
collect_ext e f (n ∷ ns) h = rw (h n) (rw (collect_ext e f ns h) refl)

module _ (texts : Texts) (files : Files) (pid : ℕ) (s0 : Files.State files) where
  open files use {State, at, listing}

  abbrev pub Kept : State → Type 0
  Kept = Old texts files pid s0

  collect-listing :
      (t : State) (names : List Bytes)
      → Kept t
      → names ≡ listing t
      → sort (collect (entry texts files s0) names) ≡ records texts files s0
  collect-listing t names same e =
      ap (λ ns. sort (collect (entry texts files s0) ns)) e
      ∙ ap sort (
          collect_ext (entry texts files s0) (entry texts files t) (listing t)
            λ n. sym (entry-Same texts files s0 t n same))
      ∙ unfold records in records-Same texts files s0 t same

  pub load-Old :
      Triple Kept (Disk.load texts files pid) (λ rs t. Kept t × (rs ≡ records texts files s0)) Kept
  unfolding Disk.load
  load-Old =
      bind _ _ (λ _. Kept) (open_root-Old texts files pid s0)
        λ _.
          bind _ _
            (λ names t.
              Kept t × (sort (collect (entry texts files s0) names) ≡ records texts files s0))
            (sys-Triple files.read_names _
              (λ t p names e.
                let kept = Old-step texts files pid s0 t _ p (files.at-read_names t) in
                (kept, collect-listing _ names kept (files.read_names_lem t names e)))
              λ t p x e. Old-step texts files pid s0 t _ p (files.at-read_names t))
            λ names. given λ all_found.
              bind _ _ (λ rs t. Kept t × (rs ≡ collect (entry texts files s0) names))
                (read_all-Old texts files pid s0 names)
                λ rs. given λ later. pure-Triple (sort rs) λ t p. (p, ap sort later ∙ all_found)

  read_stat-Old :
      (name : Bytes) (answer : Io File)
      → (answer ≡ failed not_found → entry texts files s0 name ≡ none)
      → Triple Kept
          (Disk.read_stat texts files pid name answer)
          (λ o t. Kept t × (o ≡ entry texts files s0 name))
          Kept
  unfolding Disk.read_stat
  read_stat-Old name (done stat) absent =
      bind _ _ (λ r t. Kept t × (entry texts files s0 name ≡ some r))
        (read_named-Old texts files pid s0 name)
        λ r. given λ found. pure-Triple (some r) λ t p. (p, sym found)
  read_stat-Old name (failed not_found) absent = pure-Triple none λ t p. (p, sym (absent refl))
  read_stat-Old name (failed other) absent = fail-Triple io λ t p. p

  -- What is read under a lease ID is what its file holds.
  pub read-Old :
      (id : Bytes)
      → Triple Kept
          (Disk.read texts files pid id)
          (λ o t. Kept t × (o ≡ entry texts files s0 (id ++ record_suffix)))
          Kept
  unfolding Disk.read entry
  read-Old id =
      bind _ _ (λ _ t. Kept t × (validate_lease_id id ≡ ok tt)) (lift-Triple _ λ t p. p)
        λ _. given λ fine.
          bind _ _ (λ _. Kept) (open_root-Old texts files pid s0)
            λ _.
              bind _ _
                (λ answer t.
                  Kept t × (answer ≡ failed not_found → entry texts files s0 name ≡ none))
                (call-Triple (files.stat_at name) _ λ t p. (
                  Old-step texts files pid s0 t _ p (files.at-stat_at name t),
                  λ e.
                      ap (held texts (lease_of name)) (
                        sym (p name (is_skipped-lease id record_suffix fine))
                        ∙ files.stat_at_not_found name t e)
                      ∙ ap (λ m. held texts m none) (lease_of-append id fine),
                ))
                λ answer. given λ absent. read_stat-Old name answer absent
    where
      name : Bytes
      name = id ++ record_suffix

  -- Removal of a temp file leaves the lease files.
  pub unlink-Old :
      (temp : Bytes) (t : State)
      → starts_with temp_prefix temp ≡ true
      → Kept t
      → Kept (files.unlink_at temp t).1
  unlink-Old temp t h same n plain = unlinked (files.unlink_at temp t).0 refl
    where
      other_name : bytes_eq temp n ≡ false
      other_name =
          let skipped = starts_with-is_skipped temp h in ground (arith, bytes_eq_iff temp n)

      unlinked :
          (r : Io (Unit {0}))
          → (files.unlink_at temp t).0 ≡ r
          → at (files.unlink_at temp t).1 n ≡ at s0 n
      unlinked (done _) e = files.unlink_at_lem temp t e n ∙ rw other_name (same n plain)
      unlinked (failed x) e = files.unlink_at_failed temp t x e n ∙ same n plain

  remove_temps-Old :
      (names : List Bytes) → Triple Kept (Disk.remove_temps texts files pid names) (λ _. Kept) Kept
  unfolding Disk.remove_temps
  remove_temps-Old [] = pure-Triple tt λ t p. p
  remove_temps-Old (name ∷ names) = elim (Bool-cases (starts_with temp_prefix name)) [
    | inl e ↦ rw e (
        bind _ _ (λ _. Kept)
          (sys-Triple (files.unlink_at name) _ (λ t p x k. unlink-Old name t e p)
            λ t p x k. unlink-Old name t e p)
          λ _. remove_temps-Old names)
    | inr e ↦ rw e (remove_temps-Old names)
  ]

  pub remove_stale_temps-Old :
      Triple Kept (Disk.remove_stale_temps texts files pid) (λ _. Kept) Kept
  unfolding Disk.remove_stale_temps
  remove_stale_temps-Old =
      bind _ _ (λ _. Kept) (open_root-Old texts files pid s0)
        λ _.
          bind _ _ (λ _. Kept) (sys-Old texts files pid s0 files.read_names files.at-read_names)
            λ names. remove_temps-Old names
