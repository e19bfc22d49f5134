-- ===== src/Subid/Allocator/Steps.antt =====
-- Triples of the single steps of a method: the calls of the lease store, and the upkeep of the
-- in-memory maps, which leaves the records alone.
use shbox.Prelude.{All, inl, inr, true, not, List, ◌≡◌, refl, ap, subst, ◌∙◌, ◌⊎◌, Bool, false}
use shbox.Prelude.Bytes.{Bytes}
use shbox.Subid.Ledger.{LeaseRecord}
use shbox.Subid.Ledger as Ledger
use shbox.Subid.Ledger.Records.{find, put, drop_id, All-put, All-drop_id}
use shbox.Subid.Ledger.Interface.{LeaseStore, Written}
use shbox.Subid.Allocator.Monad.{
  Allocator, Error, guard, get, modify, on_store, from_ledger, lock_selection, lock_lease_ids,
  lock_pending, selection_poisoned,
}
use shbox.Subid.Allocator.Triple.{Post, Triple}

module _ (st : LeaseStore) where
  open st use {State, records, IsStorable}

  -- The records on disk are `rs`, and the ledger can store each of them.
  abbrev pub At : List LeaseRecord → Allocator State → Type 0
  At rs a = (records a.store ≡ rs) × All IsStorable rs

module _ (st : LeaseStore) (rs : List LeaseRecord) where
  open st use {State, records, IsStorable}

  from_ledger-Post :
      {A : Type 0} (Q : A → Allocator State → Type 0) (E : Allocator State → Type 0)
      (r : Ledger.Result A) (a : Allocator State)
      → ((x : A) → r ≡ Ledger.ok x → Q x a)
      → ((e : Ledger.Error) → r ≡ Ledger.err e → E a)
      → Post Q E (from_ledger r) a
  from_ledger-Post Q E (Ledger.ok x) a f g = f x refl
  from_ledger-Post Q E (Ledger.err e) a f g = g e refl

  -- A store operation that writes no record, with what is known of its result.
  pub on_store-Triple :
      {A : Type 0} (R : A → Type 0) (op : State → Ledger.Result A × State)
      → ((s : State) → records (op s).1 ≡ records s)
      → ((s : State) (x : A) → records s ≡ rs → (op s).0 ≡ Ledger.ok x → R x)
      → Triple (At st rs) (on_store op) (λ x a. At st rs a × R x) (At st rs)
  on_store-Triple R op keep result = record {
    run = λ a h.
        from_ledger-Post (λ x b. At st rs b × R x) (At st rs) (op a.store).0
          (record a { store = (op a.store).1 })
          (λ x e. ((keep a.store ∙ h.0, h.1), result a.store x h.0 e))
          (λ e _. (keep a.store ∙ h.0, h.1));
  }

  pub read-Triple :
      (id : Bytes)
      → Triple (At st rs) (on_store (st.read id)) (λ o a. At st rs a × (o ≡ find id rs)) (At st rs)
  read-Triple id =
      on_store-Triple (λ o. o ≡ find id rs) (st.read id) (st.records-read id)
        (λ s o h e. st.read_lem id s o e ∙ ap (find id) h)

  pub load-Triple :
      Triple (At st rs) (on_store st.load) (λ loaded a. At st rs a × (loaded ≡ rs)) (At st rs)
  load-Triple =
      on_store-Triple (λ loaded. loaded ≡ rs) st.load st.records-load
        (λ s o h e. st.load_lem s o e ∙ h)

  pub lock-Triple : Triple (At st rs) (on_store st.lock) (λ _ a. At st rs a × Unit {0}) (At st rs)
  lock-Triple = on_store-Triple (λ _. Unit {0}) st.lock st.records-lock (λ s o h e. tt)

  pub remove_stale_temps-Triple :
      Triple (At st rs) (on_store st.remove_stale_temps) (λ _ a. At st rs a × Unit {0}) (At st rs)
  remove_stale_temps-Triple =
      on_store-Triple (λ _. Unit {0}) st.remove_stale_temps st.records-remove_stale_temps
        (λ s o h e. tt)

  Written-Post :
      {A : Type 0} (new : List LeaseRecord) (r : Ledger.Result A) (a : Allocator State)
      → All IsStorable rs
      → All IsStorable new
      → Written rs new r (records a.store)
      → Post (λ _. At st new) (λ b. At st rs b ⊎ At st new b) (from_ledger r) a
  Written-Post new (Ledger.ok x) a old fine w = (w, fine)
  Written-Post new (Ledger.err e) a old fine (inl w) = inl (w, old)
  Written-Post new (Ledger.err e) a old fine (inr w) = inr (w, fine)

  pub write-Triple :
      (r : LeaseRecord)
      → IsStorable r
      → Triple
          (At st rs)
          (on_store (st.write r))
          (λ _. At st (put r rs))
          (λ a. At st rs a ⊎ At st (put r rs) a)
  write-Triple r storable = record {
    run = λ a h.
        Written-Post (put r rs) (st.write r a.store).0 (record a { store = (st.write r a.store).1 })
          h.1 (All-put IsStorable r rs storable h.1)
          (subst
            (λ old. Written old (put r old) (st.write r a.store).0 (records (st.write r a.store).1))
            h.0 (st.write_lem r a.store storable));
  }

  pub remove-Triple :
      (id : Bytes)
      → Triple
          (At st rs)
          (on_store (st.remove id))
          (λ _. At st (drop_id id rs))
          (λ a. At st rs a ⊎ At st (drop_id id rs) a)
  remove-Triple id = record {
    run = λ a h.
        Written-Post (drop_id id rs) (st.remove id a.store).0
          (record a { store = (st.remove id a.store).1 }) h.1 (All-drop_id IsStorable id rs h.1)
          (subst
            (λ old.
              Written old (drop_id id old) (st.remove id a.store).0
                (records (st.remove id a.store).1))
            h.0 (st.remove_lem id a.store));
  }

  -- What changes no record: the maps in memory, and the mutexes.
  module _ {E : Allocator State → Type 0} (fails : (a : Allocator State) → At st rs a → E a) where
    guard-At :
        (b : Bool) (e : Error) (a : Allocator State)
        → At st rs a
        → Post (λ _. At st rs) E (guard b e a).0 (guard b e a).1
    guard-At true e a h = h
    guard-At false e a h = fails a h

    pub lock_selection-Triple : Triple (At st rs) lock_selection (λ _. At st rs) E
    lock_selection-Triple = record {
      run = λ a h. guard-At (not a.selection_is_poisoned) selection_poisoned a h;
    }

    pub lock_lease_ids-Triple : Triple (At st rs) lock_lease_ids (λ _. At st rs) E
    lock_lease_ids-Triple = record {
      run = λ a h. guard-At (not a.lease_ids_is_poisoned) selection_poisoned a h;
    }

    pub lock_pending-Triple : Triple (At st rs) lock_pending (λ _. At st rs) E
    lock_pending-Triple = record {
      run = λ a h. guard-At (not a.pending_is_poisoned) selection_poisoned a h;
    }

  pub modify-Triple :
      {E : Allocator State → Type 0} (f : Allocator State → Allocator State)
      → ((a : Allocator State) → (f a).store ≡ a.store)
      → Triple (At st rs) (modify f) (λ _. At st rs) E
  modify-Triple f keep = record { run = λ a h. (ap records (keep a) ∙ h.0, h.1) }

  pub get-Triple :
      {A : Type 0} {E : Allocator State → Type 0} (f : Allocator State → A)
      → Triple (At st rs) (get f) (λ _. At st rs) E
  get-Triple f = record { run = λ a h. h }
