-- ===== src/Subid/Ledger/Disk/Rejects.antt =====
-- `load` in crates/shbox/src/sandbox/subid/ledger.rs passes over no file but temp files and the lock.
use shbox.Prelude.{
  ℕ, true, false, ◌≡◌, ◌≢◌, refl, ap, ◌∙◌, List, [], ◌∷◌, none, some, arith, Bool-cases, inl, inr,
}
use shbox.Prelude.Bytes.{Bytes, bytes_eq, bytes_eq_iff}
use shbox.Prelude.Dict.{member}
use shbox.Storage.Files.{Files, is_there}
use shbox.Subid.Ledger.{LeaseRecord, Result, ok, err}
use shbox.Subid.Ledger.Codec.{Texts}
use shbox.Subid.Ledger.Disk
use shbox.Subid.Ledger.Disk.{is_skipped, sort}
use shbox.Subid.Ledger.Disk.Contents.{entry}
use shbox.Subid.Ledger.Disk.Effects.{Kept}
use shbox.Subid.Ledger.Disk.Monad.{Store}
use shbox.Subid.Ledger.Disk.Reads.{Old-step, open_root-Old, read_named-Old}
use shbox.Subid.Ledger.Disk.Triple.{Triple, Post, bind, pure-Triple, sys-Triple, given}

module _ (texts : Texts) (files : Files) (pid : ℕ) (s0 : Files.State files) where
  open files use {State, at, listing}

  abbrev Before : State → Type 0
  Before = Kept texts files pid s0

  -- Each of these names is skipped or holds a record.
  abbrev Clean : List Bytes → Type 0
  Clean names =
      (n : Bytes) → member n names ≡ true → is_skipped n ≡ false → entry texts files s0 n ≢ none

  Clean-skipped :
      (name : Bytes) (names : List Bytes)
      → is_skipped name ≡ true
      → Clean names
      → Clean (name ∷ names)
  unfolding member
  Clean-skipped name names skipped clean n m plain = elim (Bool-cases (bytes_eq name n)) [
    | inl e ↦ let same = ap is_skipped ((bytes_eq_iff name n).0 e) in cc
    | inr e ↦ clean n (ground arith) plain
  ]

  Clean-read :
      (name : Bytes) (names : List Bytes) (r : LeaseRecord)
      → entry texts files s0 name ≡ some r
      → Clean names
      → Clean (name ∷ names)
  unfolding member
  Clean-read name names r found clean n m plain = elim (Bool-cases (bytes_eq name n)) [
    | inl e ↦ λ gone. let same = ap (entry texts files s0) ((bytes_eq_iff name n).0 e) in cc
    | inr e ↦ clean n (ground arith) plain
  ]

  read_all-Clean :
      (names : List Bytes)
      → Triple Before (Disk.read_all texts files pid names) (λ rs t. Before t × Clean names) Before
  unfolding Disk.read_all
  read_all-Clean [] = pure-Triple [] λ t p. (p, λ n m. unfold member in cc)
  read_all-Clean (name ∷ names) = elim (Bool-cases (is_skipped name)) [
    | inl e ↦ rw e (
        Disk.Triple.weaken (read_all-Clean names) (λ rs t p. (p.0, Clean-skipped name names e p.1))
          λ t p. p)
    | inr e ↦ rw e (
        bind _ _ (λ r t. Before t × (entry texts files s0 name ≡ some r))
          (read_named-Old texts files pid s0 name)
          λ r. given λ found.
            bind _ _ (λ rs t. Before t × Clean names) (read_all-Clean names)
              λ rs.
                given λ clean. pure-Triple (r ∷ rs) λ t p. (p, Clean-read name names r found clean))
  ]

  abbrev AllClean : Type 0
  AllClean =
      (n : Bytes) → is_there (at s0 n) ≡ true → is_skipped n ≡ false → entry texts files s0 n ≢ none

  Clean-listing :
      (t : State) (names : List Bytes) → Before t → names ≡ listing t → Clean names → AllClean
  Clean-listing t names p e clean n there plain =
      clean n (ap (member n) e ∙ files.listing-at t n ∙ ap is_there (p n plain) ∙ there) plain

  load-AllClean : Triple Before (Disk.load texts files pid) (λ rs t. Before t × AllClean) Before
  unfolding Disk.load
  load-AllClean =
      bind _ _ (λ _. Before) (open_root-Old texts files pid s0)
        λ _.
          bind _ _ (λ names t. Before t × (Clean names → AllClean))
            (sys-Triple files.read_names _
              (λ t p names e.
                let kept = Old-step texts files pid s0 t _ p (files.at-read_names t) in
                (kept, Clean-listing _ names kept (files.read_names_lem t names e)))
              λ t p x e. Old-step texts files pid s0 t _ p (files.at-read_names t))
            λ names. given λ all_names.
              bind _ _ (λ rs t. Before t × Clean names) (read_all-Clean names)
                λ rs. given λ clean. pure-Triple (sort rs) λ t p. (p, all_names clean)

module _ (texts : Texts) (files : Files) (pid : ℕ) where
  Post-loaded :
      (s : Files.State files) (r : Result (List LeaseRecord)) (t : Files.State files)
      (rs : List LeaseRecord)
      → r ≡ ok rs
      → Post
          (λ x u. Kept texts files pid s u × AllClean texts files pid s)
          (Kept texts files pid s)
          r
          t
      → AllClean texts files pid s
  Post-loaded s (ok x) t rs e p = p.1
  Post-loaded s (err x) t rs e p = cc

  -- A load fails where some file is neither a temp file nor the lock and holds no record.
  pub load_rejects :
      (s : Store (Files.State files)) (n : Bytes)
      → is_there (Files.at files s.files n) ≡ true
      → is_skipped n ≡ false
      → entry texts files s.files n ≡ none
      → (rs : List LeaseRecord) → (Disk.load texts files pid s).0 ≢ ok rs
  load_rejects s n there plain gone rs e =
      Post-loaded s.files _ _ rs e ((load-AllClean texts files pid s.files).run s λ m k. refl) n
        there plain gone
