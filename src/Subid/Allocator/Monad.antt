-- ===== src/Subid/Allocator/Monad.antt =====
-- The state of `SubidAllocator`, its errors, and the monad of its methods: a method returns its
-- result and the state that it leaves, also where it fails.
use shbox.Prelude.{ℕ, Bool, true, false, not, List, Option, none, some}
use shbox.Prelude.Bytes.{Bytes}
use shbox.Subid.Ledger.{LeaseState}
use shbox.Subid.Ledger as Ledger

-- `PoolCapacity`
pub record PoolCapacity : Type 0 where
  pub delegated : ℕ
  pub free : ℕ
  pub reserved : ℕ
  pub active : ℕ
  pub releasing : ℕ
  pub quarantined : ℕ

-- The reasons of `Error::Corrupt` and `Error::StateConflict`, with what their messages quote.
pub data Corruption : Type 0 where
  uid_twice gid_twice : ℕ → Corruption
  sandbox_twice : Bytes → Corruption
  misindexed : Bytes → Bytes → Bytes → Corruption

pub data Conflict : Type 0 where
  already_holds not_incarnation already_active : Bytes → Conflict
  wrong_state : Bytes → LeaseState → Conflict

pub data Error : Type 0 where
  ledger : Ledger.Error → Error
  corrupt : Corruption → Error
  state_conflict : Conflict → Error
  missing_lease : Bytes → Error
  undelegated : Bytes → Bool → Bool → Error
  selection_poisoned : Error
  exhausted : PoolCapacity → PoolCapacity → Error
  lookup_failed : Bytes → Error

pub data Result {ℓ} (A : Type ℓ) : Type ℓ where
  ok : A → Result A
  err : Error → Result A

-- `SubidAllocator`, over the state of the lease store.
pub record Allocator (S : Type 0) : Type 0 where
  pub store : S
  pub selection_is_poisoned : Bool
  pub lease_ids_is_poisoned : Bool
  pub pending_is_poisoned : Bool
  pub lease_ids : List (Bytes × Bytes)
  pub pending_activations : List Bytes

abbrev pub M : Type 0 → Type 0 → Type 0
M S A = Allocator S → Result A × Allocator S

-- `?` on a result of the lease store: its error is wrapped by `From`.
abbrev pub from_ledger : {A : Type 0} → Ledger.Result A → Result A
from_ledger (Ledger.ok a) = ok a
from_ledger (Ledger.err e) = err (ledger e)

module _ {S : Type 0} where
  abbrev pub continue :
      {A B : Type 0} → (A → M S B) → Result A → Allocator S → Result B × Allocator S
  continue f (ok a) s = f a s
  continue f (err e) s = (err e, s)

  infixl 5 ◌>>=◌ ◌>>◌
  abbrev pub ◌>>=◌ : {A B : Type 0} → M S A → (A → M S B) → M S B
  ◌>>=◌ m f s = let r = m s in continue f r.0 r.1

  abbrev pub ◌>>◌ : {B : Type 0} → M S (Unit {0}) → M S B → M S B
  ◌>>◌ m k = m >>= λ _. k

  abbrev pub pure : {A : Type 0} → A → M S A
  pure a s = (ok a, s)

  abbrev pub fail : {A : Type 0} → Error → M S A
  fail e s = (err e, s)

  abbrev pub lift : {A : Type 0} → Result A → M S A
  lift r s = (r, s)

  abbrev pub guard : Bool → Error → M S (Unit {0})
  guard true e = pure tt
  guard false e = fail e

  abbrev pub or_fail : {A : Type 0} → Option A → Error → M S A
  or_fail (some a) e = pure a
  or_fail none e = fail e

  abbrev pub get : {A : Type 0} → (Allocator S → A) → M S A
  get f s = (ok (f s), s)

  abbrev pub modify : (Allocator S → Allocator S) → M S (Unit {0})
  modify f s = (ok tt, f s)

  abbrev pub on_store : {A : Type 0} → (S → Ledger.Result A × S) → M S A
  on_store op s = let r = op s.store in (from_ledger r.0, record s { store = r.1 })

  -- `lock().map_err(|_| Error::SelectionPoisoned)?` on each of the three mutexes.
  abbrev pub lock_selection : M S (Unit {0})
  lock_selection s = guard (not s.selection_is_poisoned) selection_poisoned s

  abbrev pub lock_lease_ids : M S (Unit {0})
  lock_lease_ids s = guard (not s.lease_ids_is_poisoned) selection_poisoned s

  abbrev pub lock_pending : M S (Unit {0})
  lock_pending s = guard (not s.pending_is_poisoned) selection_poisoned s
