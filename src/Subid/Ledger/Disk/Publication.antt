-- ===== src/Subid/Ledger/Disk/Publication.antt =====
-- How `write` in crates/shbox/src/sandbox/subid/ledger.rs publishes a record: by a temp file that is
-- renamed once it is whole.
use shbox.Prelude.{ℕ, true, false, ◌≡◌, ◌⊎◌, inl, inr, refl, ap, ◌∙◌, [], ◌++◌, some, arith}
use shbox.Prelude.Bytes.{Bytes, bytes_eq}
use shbox.Storage.Files.{Files, File, done}
use shbox.Subid.Ledger.{LeaseRecord, Result, ok, err}
use shbox.Subid.Ledger.Codec.{Texts, record_suffix, file_name, encode}
use shbox.Subid.Ledger.Disk
use shbox.Subid.Ledger.Disk.{is_skipped, temp_prefix, starts_with}
use shbox.Subid.Ledger.Disk.Contents.{Same}
use shbox.Subid.Ledger.Disk.Effects.{Kept, unlink-Old}
use shbox.Subid.Ledger.Disk.Monad.{M, pure, sys, call, trip}
use shbox.Subid.Ledger.Disk.Names.{starts_with-append}
use shbox.Subid.Ledger.Disk.Reads.{open_root-Old}
use shbox.Subid.Ledger.Disk.Triple.{Triple, Post, bind, weaken, trip-Triple, sys-Triple, given}
use shbox.Subid.Ledger.Disk.Writes.{not_temp, Holds, Replaced}

module _ (texts : Texts) (files : Files) (pid : ℕ) (s0 : Files.State files) (r : LeaseRecord) where
  open files use {State, at}

  abbrev Before : State → Type 0
  Before = Kept texts files pid s0

  -- The record's file is the one that was written.
  abbrev pub Published : State → Type 0
  Published t =
      (file : File) × Holds texts files (encode texts r) file
      × Replaced texts files s0 r.lease_id (some file) t

  abbrev pub Either : State → Type 0
  Either t = Before t ⊎ Published t

  -- A temp file of this content, and the leases as they were.
  abbrev Staged : Bytes → Bytes → State → Type 0
  Staged temp bytes t =
      Before t × (file : File) × (at t temp ≡ some file) × Holds texts files bytes file

  Published-Same : (t u : State) → Published t → Same texts files t u → Published u
  Published-Same t u (file, whole, h) same = (file, whole, λ n plain. same n plain ∙ h n plain)

  Either-Same : (t u : State) → Either t → Same texts files t u → Either u
  Either-Same t u (inl p) same = inl λ n plain. same n plain ∙ p n plain
  Either-Same t u (inr p) same = inr (Published-Same t u p same)

  -- What a call does to another file than the temp file.
  apart :
      (temp : Bytes) (t u : State)
      → starts_with temp_prefix temp ≡ true
      → ((n : Bytes) → bytes_eq temp n ≡ false → at u n ≡ at t n)
      → Before t
      → Before u
  apart temp t u is_temp others p n plain = others n (not_temp temp n is_temp plain) ∙ p n plain

  module _ (temp : Bytes) (is_temp : starts_with temp_prefix temp ≡ true) where
    create : Triple Before (sys (files.create_file_at temp)) (λ _. Staged temp []) Either
    create =
        sys-Triple (files.create_file_at temp) _
          (λ t p x e.
            let (file, there, regular, own, empty) = files.create_file_at_lem temp t e in
            (
              apart temp t _ is_temp (files.create_file_at_others temp t) p,
              file,
              there,
              (regular, own, empty),
            ))
          λ t p x e. inl (apart temp t _ is_temp (files.create_file_at_others temp t) p)

    fill :
        Triple
          (Staged temp [])
          (sys (files.write_all temp (encode texts r)))
          (λ _. Staged temp (encode texts r))
          Either
    fill =
        sys-Triple (files.write_all temp (encode texts r)) _
          (λ t p x e.
            let (kept, file, there, (regular, own, empty)) = p in
            (
              apart temp t _ is_temp (files.write_all_others temp (encode texts r) t) kept,
              record file { contents = file.contents ++ encode texts r },
              files.write_all_lem temp (encode texts r) t file there e,
              (regular, own, ap (λ (b : Bytes). b ++ encode texts r) empty),
            ))
          λ t p x e.
            inl (apart temp t _ is_temp (files.write_all_others temp (encode texts r) t) p.0)

    sync :
        Triple
          (Staged temp (encode texts r))
          (sys (files.sync_all temp))
          (λ _. Staged temp (encode texts r))
          Either
    sync =
        sys-Triple (files.sync_all temp) _
          (λ t p x e.
            let (kept, file, there, whole) = p in
            (
              apart temp t _ is_temp (files.sync_all_others temp t) kept,
              file,
              files.sync_all_lem temp t e ∙ there,
              whole,
            ))
          λ t p x e. inl (apart temp t _ is_temp (files.sync_all_others temp t) p.0)

    renamed :
        (t : State)
        → Staged temp (encode texts r) t
        → (files.rename_at temp (file_name r) t).0 ≡ done tt
        → Published (files.rename_at temp (file_name r) t).1
    unfolding file_name
    renamed t (kept, file, there, whole) e = (
      file,
      whole,
      λ n plain.
          let here = files.rename_at_lem temp (r.lease_id ++ record_suffix) t e n in
          let apart_here = not_temp temp n is_temp plain in
          let before = kept n plain in ground arith,
    )

    rename :
        Triple
          (Staged temp (encode texts r))
          (sys (files.rename_at temp (file_name r)))
          (λ _. Published)
          Either
    rename =
        sys-Triple (files.rename_at temp (file_name r)) _ (λ t p x e. renamed t p e)
          λ t p x e. inl λ n plain. files.rename_at_failed temp (file_name r) t x e n ∙ p.0 n plain

    sync_parent : Triple Published (sys files.sync_directory) (λ _. Published) Either
    sync_parent =
        sys-Triple files.sync_directory _
          (λ t p x e. Published-Same t _ p λ n plain. files.at-sync_directory t n)
          λ t p x e. inr (Published-Same t _ p λ n plain. files.at-sync_directory t n)

    write_temp-Triple :
        Triple Before (Disk.write_temp texts files pid temp r) (λ _. Published) Either
    unfolding Disk.write_temp
    write_temp-Triple =
        bind _ _ (λ _. Before) (trip-Triple _ λ t p. inl p)
          λ _.
            bind _ _ (λ _. Staged temp []) create
              λ _.
                bind _ _ (λ _. Staged temp []) (trip-Triple _ λ t p. inl p.0)
                  λ _.
                    bind _ _ (λ _. Staged temp (encode texts r)) fill
                      λ _.
                        bind _ _ (λ _. Staged temp (encode texts r)) (trip-Triple _ λ t p. inl p.0)
                          λ _.
                            bind _ _ (λ _. Staged temp (encode texts r)) sync
                              λ _.
                                bind _ _ (λ _. Staged temp (encode texts r))
                                  (trip-Triple _ λ t p. inl p.0)
                                  λ _.
                                    bind _ _ (λ _. Published) rename
                                      λ _.
                                        bind _ _ (λ _. Published) (trip-Triple _ λ t p. inr p)
                                          λ _. sync_parent

    clean_up-Post :
        (m : Result (Unit {0})) (st : Disk.Monad.Store State)
        → Post (λ _. Published) Either m st.files
        → Post
            (λ _. Published)
            Either
            (Disk.clean_up texts files pid temp m st).0
            (Disk.clean_up texts files pid temp m st).1.files
    clean_up-Post (ok _) st p = p
    clean_up-Post (err e) st p =
        Either-Same st.files (files.unlink_at temp st.files).1 p
          (unlink-Old texts files pid st.files temp st.files is_temp λ n plain. refl)

    cleaned-Triple :
        Triple Before
          (Disk.cleaned texts files pid temp (Disk.write_temp texts files pid temp r))
          (λ _. Published)
          Either
    unfolding Disk.cleaned
    cleaned-Triple = record {
      run = λ st p.
          clean_up-Post (Disk.write_temp texts files pid temp r st).0
            (Disk.write_temp texts files pid temp r st).1 (write_temp-Triple.run st p);
    }

  next_temp-Triple :
      Triple Before
        (Disk.next_temp texts files pid)
        (λ temp t. Before t × (starts_with temp_prefix temp ≡ true))
        Either
  unfolding Disk.next_temp
  next_temp-Triple = record { run = λ st p. (p, starts_with-append temp_prefix _) }

  pub write-Triple : Triple Before (Disk.write texts files pid r) (λ _. Published) Either
  unfolding Disk.write
  write-Triple =
      bind _ _ (λ _. Before) (weaken (open_root-Old texts files pid s0) (λ _ t p. p) λ t p. inl p)
        λ _.
          bind _ _ (λ temp t. Before t × (starts_with temp_prefix temp ≡ true)) next_temp-Triple
            λ temp. given λ is_temp. cleaned-Triple temp is_temp
