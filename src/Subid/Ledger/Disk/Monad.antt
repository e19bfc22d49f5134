-- ===== src/Subid/Ledger/Disk/Monad.antt =====
-- The state of a lease store, and the monad of its operations: the state that an operation leaves
-- is kept where it fails.
use shbox.Prelude.{ℕ, Bool, true, false, Option}
use shbox.Storage.Files.{Io, done, failed}
use shbox.Storage.Faults.{FaultPoint}
use shbox.Storage.Faults
use shbox.Subid.Ledger.{Error, Result, ok, err, io}

-- The directory, the fault to inject next, and `TEMP_COUNTER`.
pub record Store (S : Type 0) : Type 0 where
  pub files : S
  pub next_fault : Option FaultPoint
  pub counter : ℕ

abbrev pub M : Type 0 → Type 0 → Type 0
M S A = Store S → Result A × Store S

module _ {S : Type 0} where
  abbrev pub continue : {A B : Type 0} → (A → M S B) → Result A → Store S → Result B × Store S
  continue f (ok a) s = f a s
  continue f (err e) s = (err e, s)

  infixl 5 ◌>>=◌ ◌>>◌
  abbrev pub ◌>>=◌ : {A B : Type 0} → M S A → (A → M S B) → M S B
  ◌>>=◌ m f s = let r = m s in continue f r.0 r.1

  abbrev pub ◌>>◌ : {B : Type 0} → M S (Unit {0}) → M S B → M S B
  ◌>>◌ m k = m >>= λ _. k

  abbrev pub pure : {A : Type 0} → A → M S A
  pure a s = (ok a, s)

  abbrev pub fail : {A : Type 0} → Error → M S A
  fail e s = (err e, s)

  abbrev pub lift : {A : Type 0} → Result A → M S A
  lift r s = (r, s)

  abbrev pub guard : Bool → Error → M S (Unit {0})
  guard true e = pure tt
  guard false e = fail e

  -- A system call, with its answer as a value.
  abbrev pub call : {A : Type 0} → (S → Io A × S) → M S (Io A)
  call op s = let r = op s.files in (ok r.0, record s { files = r.1 })

  abbrev pub or_io : {A : Type 0} → Io A → M S A
  or_io (done a) = pure a
  or_io (failed e) = fail io

  -- A system call whose failure is an error.
  abbrev pub sys : {A : Type 0} → (S → Io A × S) → M S A
  sys op = call op >>= or_io

  abbrev pub tripped : Bool → M S (Unit {0})
  tripped true = fail io
  tripped false = pure tt

  abbrev pub trip : FaultPoint → M S (Unit {0})
  trip point s =
      let r = Faults.trip point s.next_fault in tripped r.0 (record s { next_fault = r.1 })
