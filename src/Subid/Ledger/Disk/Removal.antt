-- ===== src/Subid/Ledger/Disk/Removal.antt =====
-- What `remove` in crates/shbox/src/sandbox/subid/ledger.rs leaves on disk.
use shbox.Prelude.{ℕ, ◌≡◌, ◌⊎◌, inl, inr, refl, ◌∙◌, ◌++◌, none, arith}
use shbox.Prelude.Bytes.{Bytes}
use shbox.Storage.Files.{Files, Io, done, failed, not_found, other}
use shbox.Storage.Faults.{lease_unlink, lease_unlink_sync}
use shbox.Subid.Ledger.{ok, io, missing_record}
use shbox.Subid.Ledger.Codec.{Texts, record_suffix, validate_lease_id}
use shbox.Subid.Ledger.Disk
use shbox.Subid.Ledger.Disk.{is_skipped}
use shbox.Subid.Ledger.Disk.Effects.{Kept}
use shbox.Subid.Ledger.Disk.Monad.{sys}
use shbox.Subid.Ledger.Disk.Reads.{open_root-Old}
use shbox.Subid.Ledger.Disk.Triple.{
  Triple, bind, weaken, fail-Triple, lift-Triple, trip-Triple, call-Triple, sys-Triple, given,
}
use shbox.Subid.Ledger.Disk.Writes.{Replaced}

module _ (texts : Texts) (files : Files) (pid : ℕ) (s0 : Files.State files) (id : Bytes) where
  open files use {State, at}

  abbrev Before : State → Type 0
  Before = Kept texts files pid s0

  abbrev pub Gone : State → Type 0
  Gone t = Replaced texts files s0 id none t × (validate_lease_id id ≡ ok tt)

  abbrev pub Either : State → Type 0
  Either t = Before t ⊎ Gone t

  abbrev After : Io (Unit {0}) → State → Type 0
  After (done _) = Gone
  After (failed e) = Before

  unlinked :
      (t : State) (answer : Io (Unit {0}))
      → (files.unlink_at (id ++ record_suffix) t).0 ≡ answer
      → validate_lease_id id ≡ ok tt
      → Before t
      → After answer (files.unlink_at (id ++ record_suffix) t).1
  unlinked t (done _) e fine p = (
    λ n plain.
        let gone = files.unlink_at_lem (id ++ record_suffix) t e n in
        let before = p n plain in ground arith,
    fine,
  )
  unlinked t (failed x) e fine p =
      λ n plain. files.unlink_at_failed (id ++ record_suffix) t x e n ∙ p n plain

  sync_parent : Triple Gone (sys files.sync_directory) (λ _. Gone) Either
  sync_parent =
      sys-Triple files.sync_directory _ (λ t p x e. synced t p) λ t p x e. inr (synced t p)
    where
      synced : (t : State) → Gone t → Gone (files.sync_directory t).1
      synced t (h, fine) = (λ n plain. files.at-sync_directory t n ∙ h n plain, fine)

  removed-Triple :
      (answer : Io (Unit {0}))
      → Triple (After answer) (Disk.removed texts files pid id answer) (λ _. Gone) Either
  unfolding Disk.removed
  removed-Triple (done _) =
      bind _ _ (λ _. Gone) (trip-Triple lease_unlink_sync λ t p. inr p) λ _. sync_parent
  removed-Triple (failed not_found) = fail-Triple (missing_record id) λ t p. inl p
  removed-Triple (failed other) = fail-Triple io λ t p. inl p

  pub remove-Triple : Triple Before (Disk.remove texts files pid id) (λ _. Gone) Either
  unfolding Disk.remove
  remove-Triple =
      bind _ _ (λ _ t. Before t × (validate_lease_id id ≡ ok tt)) (lift-Triple _ λ t p. inl p)
        λ _. given λ fine.
          bind _ _ (λ _. Before)
            (weaken (open_root-Old texts files pid s0) (λ _ t p. p) λ t p. inl p)
            λ _.
              bind _ _ (λ _. Before) (trip-Triple lease_unlink λ t p. inl p)
                λ _.
                  bind _ _ After
                    (call-Triple (files.unlink_at (id ++ record_suffix)) _
                      λ t p. unlinked t (files.unlink_at (id ++ record_suffix) t).0 refl fine p)
                    λ answer. removed-Triple answer
