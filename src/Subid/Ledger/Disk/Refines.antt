-- ===== src/Subid/Ledger/Disk/Refines.antt =====
-- crates/shbox/src/sandbox/subid/ledger.rs: the directory of lease files implements the store of
-- records that the allocator uses.
use shbox.Prelude.{
  ℕ, ◌≡◌, inl, inr, refl, subst, sym, ◌∙◌, List, Option, none, some, arith, if◌then◌else◌,
}
use shbox.Prelude.Bytes.{Bytes}
use shbox.Storage.Files.{Files}
use shbox.Subid.Ledger.{
  LeaseRecord, LeaseState, quarantined, Result, ok, err, with_state, with_quarantine_reason,
  is_quarantined,
}
use shbox.Subid.Ledger.Codec.{Texts, decode, encode}
use shbox.Subid.Ledger.Interface.{LeaseStore, Written}
use shbox.Subid.Ledger.Records.{find, put, drop_id}
use shbox.Subid.Ledger.Disk
use shbox.Subid.Ledger.Disk.Contents.{records, records-Same, find-records}
use shbox.Subid.Ledger.Disk.Effects.{Kept, load-Old, read-Old, remove_stale_temps-Old}
use shbox.Subid.Ledger.Disk.Monad.{Store}
use shbox.Subid.Ledger.Disk.Publication
use shbox.Subid.Ledger.Disk.Publication.{write-Triple}
use shbox.Subid.Ledger.Disk.Reads.{lock-Old}
use shbox.Subid.Ledger.Disk.Removal
use shbox.Subid.Ledger.Disk.Removal.{remove-Triple}
use shbox.Subid.Ledger.Disk.Triple.{Post}
use shbox.Subid.Ledger.Disk.Writes.{Replaced-put, Replaced-drop_id}

module _ (texts : Texts) (files : Files) (pid : ℕ) where
  open files use {State}

  abbrev pub on_file : Store State → List LeaseRecord
  on_file s = records texts files s.files

  Post-kept :
      {A : Type 0} (s : State) (Q : A → Type 0) (r : Result A) (t : State)
      → Post (λ x u. Kept texts files pid s u × Q x) (Kept texts files pid s) r t
      → records texts files t ≡ records texts files s
  Post-kept s Q (ok x) t p = records-Same texts files s t p.0
  Post-kept s Q (err e) t p = records-Same texts files s t p

  Post-unit :
      {A : Type 0} (s : State) (r : Result A) (t : State)
      → Post (λ x u. Kept texts files pid s u) (Kept texts files pid s) r t
      → records texts files t ≡ records texts files s
  Post-unit s (ok x) t p = records-Same texts files s t p
  Post-unit s (err e) t p = records-Same texts files s t p

  Post-answer :
      {A : Type 0} (s : State) (Q : A → Type 0) (r : Result A) (t : State) (x : A)
      → r ≡ ok x
      → Post (λ x u. Kept texts files pid s u × Q x) (Kept texts files pid s) r t
      → Q x
  Post-answer s Q (ok y) t x e p = subst Q (ground arith) p.1
  Post-answer s Q (err y) t x e p = cc

  start : (s : State) → Kept texts files pid s s
  start s n plain = refl

  pub on_file-lock : (s : Store State) → on_file (Disk.lock texts files pid s).1 ≡ on_file s
  on_file-lock s = Post-unit s.files _ _ ((lock-Old texts files pid s.files).run s (start s.files))

  pub on_file-load : (s : Store State) → on_file (Disk.load texts files pid s).1 ≡ on_file s
  on_file-load s =
      Post-kept s.files _ _ _ ((load-Old texts files pid s.files).run s (start s.files))

  pub on_file-read :
      (id : Bytes) (s : Store State) → on_file (Disk.read texts files pid id s).1 ≡ on_file s
  on_file-read id s =
      Post-kept s.files _ _ _ ((read-Old texts files pid s.files id).run s (start s.files))

  -- Removal of stale temp files leaves every record on file, also where it fails on the way.
  pub on_file-remove_stale_temps :
      (s : Store State) → on_file (Disk.remove_stale_temps texts files pid s).1 ≡ on_file s
  on_file-remove_stale_temps s =
      Post-unit s.files _ _ ((remove_stale_temps-Old texts files pid s.files).run s (start s.files))

  -- A load that succeeds gives the records on file, in the order of their lease IDs.
  pub load_lem :
      (s : Store State) (rs : List LeaseRecord)
      → (Disk.load texts files pid s).0 ≡ ok rs
      → rs ≡ on_file s
  load_lem s rs e =
      Post-answer s.files _ _ _ rs e ((load-Old texts files pid s.files).run s (start s.files))

  -- A read that succeeds gives the record on file under the lease ID, or none where there is none.
  pub read_lem :
      (id : Bytes) (s : Store State) (o : Option LeaseRecord)
      → (Disk.read texts files pid id s).0 ≡ ok o
      → o ≡ find id (on_file s)
  read_lem id s o e =
      Post-answer s.files _ _ _ o e ((read-Old texts files pid s.files id).run s (start s.files))
      ∙ sym (find-records texts files s.files id)

  -- A record that decodes from its own text is on file after a write that succeeds, with every
  -- other record as it was; after a write that fails at any step, the records are those from before
  -- or those of a success.
  pub write_lem :
      (r : LeaseRecord) (s : Store State)
      → decode texts (encode texts r) r.lease_id ≡ ok r
      → Written
          (on_file s)
          (put r (on_file s))
          (Disk.write texts files pid r s).0
          (on_file (Disk.write texts files pid r s).1)
  write_lem r s decodes =
      outcome (Disk.write texts files pid r s).0 (Disk.write texts files pid r s).1.files
        ((write-Triple texts files pid s.files r).run s (start s.files))
    where
      published :
          (t : State)
          → Publication.Published texts files pid s.files r t
          → records texts files t ≡ put r (on_file s)
      published t (file, whole, h) = Replaced-put texts files s.files t r file decodes whole h

      outcome :
          (m : Result (Unit {0})) (t : State)
          → Post
              (λ _. Publication.Published texts files pid s.files r)
              (Publication.Either texts files pid s.files r)
              m
              t
          → Written (on_file s) (put r (on_file s)) m (records texts files t)
      outcome (ok _) t p = published t p
      outcome (err e) t (inl p) = inl (records-Same texts files s.files t p)
      outcome (err e) t (inr p) = inr (published t p)

  -- After a removal that succeeds, the records on file are those of the other lease IDs; after one
  -- that fails at any step, they are those from before or those of a success.
  pub remove_lem :
      (id : Bytes) (s : Store State)
      → Written
          (on_file s)
          (drop_id id (on_file s))
          (Disk.remove texts files pid id s).0
          (on_file (Disk.remove texts files pid id s).1)
  remove_lem id s =
      outcome (Disk.remove texts files pid id s).0 (Disk.remove texts files pid id s).1.files
        ((remove-Triple texts files pid s.files id).run s (start s.files))
    where
      gone :
          (t : State)
          → Removal.Gone texts files pid s.files id t
          → records texts files t ≡ drop_id id (on_file s)
      gone t (h, fine) = Replaced-drop_id texts files s.files t id fine h

      outcome :
          (m : Result (Unit {0})) (t : State)
          → Post
              (λ _. Removal.Gone texts files pid s.files id)
              (Removal.Either texts files pid s.files id)
              m
              t
          → Written (on_file s) (drop_id id (on_file s)) m (records texts files t)
      outcome (ok _) t p = gone t p
      outcome (err e) t (inl p) = inl (records-Same texts files s.files t p)
      outcome (err e) t (inr p) = inr (gone t p)

  module _ (IsReason : Bytes → Type 0) where
    -- The reasons that a record of the state may have.
    abbrev pub Allowed : LeaseState → Option Bytes → Type 0
    Allowed st none = Unit {0}
    Allowed st (some reason) = IsReason reason × (st ≡ quarantined)

    -- A record that decodes from its own text, in every state and with every reason for it.
    abbrev pub DecodesInEach : LeaseRecord → Type 0
    DecodesInEach r =
        Allowed r.state r.quarantine_reason
        × ((st : LeaseState) (reason : Option Bytes)
            → Allowed st reason
            → decode texts (encode texts (record r { state = st; quarantine_reason = reason }))
                r.lease_id
              ≡ ok (record r { state = st; quarantine_reason = reason }))

    Allowed-moved :
        (old st : LeaseState) (o : Option Bytes)
        → Allowed old o
        → Allowed st (if is_quarantined st then o else none)
    Allowed-moved old LeaseState.quarantined none h = tt
    Allowed-moved old LeaseState.quarantined (some reason) h = (h.0, refl)
    Allowed-moved old LeaseState.reserved o h = tt
    Allowed-moved old LeaseState.active o h = tt
    Allowed-moved old LeaseState.releasing o h = tt

    pub with_state-DecodesInEach :
        (r : LeaseRecord) (st : LeaseState) → DecodesInEach r → DecodesInEach (with_state r st)
    unfolding with_state
    with_state-DecodesInEach r st (h, each) = (Allowed-moved r.state st r.quarantine_reason h, each)

    pub with_quarantine_reason-DecodesInEach :
        (r : LeaseRecord) (reason : Bytes)
        → IsReason reason
        → DecodesInEach r
        → DecodesInEach (with_quarantine_reason r reason)
    unfolding with_quarantine_reason with_state
    with_quarantine_reason-DecodesInEach r reason h (k, each) = ((h, refl), each)

    -- The directory as the store of the allocator.
    abbrev pub disk : LeaseStore
    disk = record {
      State = Store State;
      records = on_file;
      lock = Disk.lock texts files pid;
      load = Disk.load texts files pid;
      read = Disk.read texts files pid;
      write = Disk.write texts files pid;
      remove = Disk.remove texts files pid;
      remove_stale_temps = Disk.remove_stale_temps texts files pid;
      IsStorable = DecodesInEach;
      IsReadable = IsReason;
      with_state-IsStorable = with_state-DecodesInEach;
      with_quarantine_reason-IsStorable = with_quarantine_reason-DecodesInEach;
      records-lock = on_file-lock;
      records-load = on_file-load;
      records-read = on_file-read;
      records-remove_stale_temps = on_file-remove_stale_temps;
      load_lem = load_lem;
      read_lem = read_lem;
      write_lem = λ r s h. write_lem r s (h.1 r.state r.quarantine_reason h.0);
      remove_lem = remove_lem;
    }
