-- ===== src/Subid/Allocator/Total.antt =====
-- Triples without failure for the parts of `SubidAllocator::claim` of
-- crates/shbox/src/sandbox/subid/mod.rs, where an operation of the lease store succeeds in the state
-- that it meets and no mutex is poisoned.
use shbox.Prelude.{
  Bool, true, false, not, ◌≡◌, refl, sym, ap, subst, ◌∙◌, List, Option, none, some, arith,
}
use shbox.Subid.Ledger.{LeaseRecord, active}
use shbox.Subid.Ledger as Ledger
use shbox.Subid.Ledger.Interface.{LeaseStore}
use shbox.Subid.Allocator.Monad.{
  Allocator, Error, Result, ok, guard, modify, on_store, or_fail, from_ledger, lift,
  selection_poisoned,
}
use shbox.Subid.Allocator.Pool.{validate_uniqueness, index_of}
use shbox.Subid.Allocator.Triple.{Post, Triple, bind, weaken, given, pure-Triple}
use shbox.Subid.Allocator.Selection.{Apart, validate_uniqueness_iff}
use shbox.Prelude.Dict.{add, insert}
use shbox.Subid.Allocator.{load, publish}

-- The store is in state `s`, and no mutex is poisoned.
pub record Calm (st : LeaseStore) (s : st.State) (a : Allocator st.State) : Type 0 where
  pub at : a.store ≡ s
  pub selection : a.selection_is_poisoned ≡ false
  pub lease_ids : a.lease_ids_is_poisoned ≡ false
  pub pending : a.pending_is_poisoned ≡ false

-- No failure.
abbrev pub Never : {S : Type 0} → Allocator S → Type 0
Never a = ⊥

module _ {S : Type 0} {P : Allocator S → Type 0} where
  pub guard-total : (b : Bool) (e : Error) → b ≡ true → Triple P (guard b e) (λ _ a. P a) Never
  guard-total true e h = record { run = λ a p. p }
  guard-total false e h = ground (arith, h)

  pub or_fail-total :
      {A : Type 0} (o : Option A) (e : Error) (x : A)
      → o ≡ some x
      → Triple P (or_fail o e) (λ y a. P a × (o ≡ some y)) Never
  or_fail-total (some y) e x h = record { run = λ a p. (p, refl) }
  or_fail-total none e x h = ground (arith, h)

  lift-total : {A : Type 0} (r : Result A) (x : A) → r ≡ ok x → Triple P (lift r) (λ _ a. P a) Never
  lift-total r x h = record { run = λ a p. subst (λ t. Post (λ _ b. P b) Never t a) (sym h) p }

  modify-total :
      {Q : Allocator S → Type 0} (f : Allocator S → Allocator S)
      → ((a : Allocator S) → P a → Q (f a))
      → Triple P (modify f) (λ _ a. Q a) Never
  modify-total f keeps = record { run = keeps }

  -- A mutex that is not poisoned.
  pub mutex-total :
      (flag : Allocator S → Bool)
      → ((a : Allocator S) → P a → flag a ≡ false)
      → Triple P (λ a. guard (not (flag a)) selection_poisoned a) (λ _ a. P a) Never
  mutex-total flag clean = record {
    run = λ a p.
        subst
          (λ t.
            Post (λ _ b. P b) Never (guard (not t) selection_poisoned a).0
              (guard (not t) selection_poisoned a).1)
          (sym (clean a p)) p;
  }

module _ (st : LeaseStore) where
  on_store-total :
      {A : Type 0} (op : st.State → Ledger.Result A × st.State) (x : A) (s : st.State)
      → (op s).0 ≡ Ledger.ok x
      → Triple (Calm st s) (on_store op) (λ y a. Calm st (op s).1 a × (y ≡ x)) Never
  on_store-total op x s works = record {
    run = λ a h.
        subst
          (λ r.
            Post (λ y b. Calm st (op s).1 b × (y ≡ x)) Never (from_ledger r)
              (record a { store = (op a.store).1 }))
          (sym (ap (λ t. (op t).0) h.at ∙ works))
          (
            record {
              at = ap (λ t. (op t).1) h.at;
              selection = h.selection;
              lease_ids = h.lease_ids;
              pending = h.pending;
            },
            refl,
          );
  }

  -- An operation whose answer says nothing more.
  pub step-total :
      (op : st.State → Ledger.Result (Unit {0}) × st.State) (s : st.State)
      → (op s).0 ≡ Ledger.ok tt
      → Triple (Calm st s) (on_store op) (λ _ a. Calm st (op s).1 a) Never
  step-total op s works = weaken (on_store-total op tt s works) (λ _ a h. h.0) (λ a h. h)

  -- The maps in memory do not matter to it.
  calm :
      {s : st.State} {a : Allocator st.State} {ids : _} {waiting : _}
      → Calm st s a
      → Calm st s (record a { lease_ids = ids; pending_activations = waiting })
  calm h = record {
    at = h.at;
    selection = h.selection;
    lease_ids = h.lease_ids;
    pending = h.pending;
  }

module _ (st : LeaseStore) (s : st.State) where
  pub loaded-total :
      (rs : List LeaseRecord)
      → (st.load s).0 ≡ Ledger.ok rs
      → Apart rs
      → Triple (Calm st s) (load st) (λ loaded a. Calm st (st.load s).1 a × (loaded ≡ rs)) Never
  unfolding load
  loaded-total rs loads apart = bind (on_store-total st st.load rs s loads) λ loaded. given λ is_rs.
      bind
        (lift-total (validate_uniqueness loaded) tt
          ((validate_uniqueness_iff loaded).1 (subst Apart (sym is_rs) apart)))
        λ _. bind (mutex-total (λ a. a.lease_ids_is_poisoned) (λ a h. h.lease_ids)) λ _.
          bind (modify-total (λ a. record a { lease_ids = index_of loaded }) (λ a h. calm st h))
            λ _. pure-Triple loaded λ a h. (h, is_rs)

  pub publish-total :
      (r : LeaseRecord)
      → (st.write r s).0 ≡ Ledger.ok tt
      → Triple (Calm st s) (publish st r) (λ _ a. Calm st (st.write r s).1 a) Never
  unfolding publish
  publish-total r writes = bind (step-total st (st.write r) s writes) λ _.
      bind (mutex-total (λ a. a.pending_is_poisoned) (λ a h. h.pending)) λ _.
        bind
          (modify-total {Q = Calm st (st.write r s).1}
            (λ a. record a { pending_activations = add r.lease_id a.pending_activations })
            (λ a h. calm st h))
          λ _. bind (mutex-total (λ a. a.lease_ids_is_poisoned) (λ a h. h.lease_ids)) λ _.
            bind
              (modify-total {Q = Calm st (st.write r s).1}
                (λ a. record a { lease_ids = insert r.sandbox_id r.lease_id a.lease_ids })
                (λ a h. calm st h))
              λ _. pure-Triple r λ a h. h
