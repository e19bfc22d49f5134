-- ===== src/Subid/Ledger/Disk/Triple.antt =====
-- Hoare triples for the operations on a lease directory in
-- crates/shbox/src/sandbox/subid/ledger.rs, about its files before and after. The last part of a
-- triple is what a failure leaves.
use shbox.Prelude.{Bool, true, false, ◌≡◌, refl}
use shbox.Storage.Files.{Io, IoError, done, failed}
use shbox.Storage.Faults.{FaultPoint}
use shbox.Storage.Faults
use shbox.Subid.Ledger.{Error, Result, ok, err}
use shbox.Subid.Ledger.Disk.Monad.{
  Store, M, ◌>>=◌, continue, pure, fail, lift, guard, sys, call, or_io, trip, tripped,
}

module _ {S : Type 0} {A : Type 0} where
  abbrev pub Post : (A → S → Type 0) → (S → Type 0) → Result A → S → Type 0
  Post Q E (ok x) s = Q x s
  Post Q E (err e) s = E s

pub record Triple {S A : Type 0} (P : S → Type 0) (m : M S A) (Q : A → S → Type 0) (E : S → Type 0)
    : Type 0 where
  pub run : (s : Store S) → P s.files → Post Q E (m s).0 (m s).1.files

module _ {S : Type 0} {E : S → Type 0} where
  continue-Post :
      {A B : Type 0} {Q : A → S → Type 0} {R : B → S → Type 0} (f : A → M S B) (r : Result A)
      (s : Store S)
      → ((x : A) → Triple (Q x) (f x) R E)
      → Post Q E r s.files
      → Post R E (continue f r s).0 (continue f r s).1.files
  continue-Post f (ok x) s h q = (h x).run s q
  continue-Post f (err e) s h q = q

  Post-map :
      {A : Type 0} {Q R : A → S → Type 0} {F : S → Type 0} (r : Result A) (s : S)
      → ((x : A) (t : S) → Q x t → R x t)
      → ((t : S) → E t → F t)
      → Post Q E r s
      → Post R F r s
  Post-map (ok x) s f g p = f x s p
  Post-map (err e) s f g p = g s p

or_io-Post :
    {S A : Type 0} (Q : A → S → Type 0) (E : S → Type 0) (r : Io A) (s : Store S)
    → ((x : A) → r ≡ done x → Q x s.files)
    → ((e : IoError) → r ≡ failed e → E s.files)
    → Post Q E (or_io {S = S} r s).0 (or_io {S = S} r s).1.files
or_io-Post Q E (done x) s f g = f x refl
or_io-Post Q E (failed e) s f g = g e refl

module _ {S : Type 0} {P E : S → Type 0} where
  pub bind :
      {A B : Type 0} (m : M S A) (f : A → M S B) (Q : A → S → Type 0) {R : B → S → Type 0}
      → Triple P m Q E
      → ((x : A) → Triple (Q x) (f x) R E)
      → Triple P (m >>= f) R E
  bind m f Q t h = record { run = λ s p. continue-Post f (m s).0 (m s).1 h (t.run s p) }

  pub weaken :
      {A : Type 0} {m : M S A} {Q R : A → S → Type 0} {F : S → Type 0}
      → Triple P m Q E
      → ((x : A) (t : S) → Q x t → R x t)
      → ((t : S) → E t → F t)
      → Triple P m R F
  weaken {m} t f g = record { run = λ s p. Post-map (m s).0 (m s).1.files f g (t.run s p) }

  pub strengthen :
      {A : Type 0} {m : M S A} {Q : A → S → Type 0} {P' : S → Type 0}
      → ((s : S) → P' s → P s)
      → Triple P m Q E
      → Triple P' m Q E
  strengthen f t = record { run = λ s p. t.run s (f s.files p) }

  pub pure-Triple :
      {A : Type 0} {Q : A → S → Type 0} (x : A) → ((s : S) → P s → Q x s) → Triple P (pure x) Q E
  pure-Triple x h = record { run = λ s p. h s.files p }

  pub fail-Triple :
      {A : Type 0} {Q : A → S → Type 0} (e : Error)
      → ((s : S) → P s → E s)
      → Triple P (fail {A = A} e) Q E
  fail-Triple e h = record { run = λ s p. h s.files p }

  pub guard-Triple :
      (b : Bool) (e : Error)
      → ((s : S) → P s → E s)
      → Triple P (guard b e) (λ _ s. P s × (b ≡ true)) E
  guard-Triple true e h = record { run = λ s p. (p, refl) }
  guard-Triple false e h = record { run = λ s p. h s.files p }

  pub lift-Triple :
      {A : Type 0} (r : Result A)
      → ((s : S) → P s → E s)
      → Triple P (lift r) (λ x s. P s × (r ≡ ok x)) E
  lift-Triple (ok x) h = record { run = λ s p. (p, refl) }
  lift-Triple (err e) h = record { run = λ s p. h s.files p }

  tripped-Triple : (b : Bool) → ((s : S) → P s → E s) → Triple P (tripped b) (λ _. P) E
  tripped-Triple true h = record { run = λ s p. h s.files p }
  tripped-Triple false h = record { run = λ s p. p }

  -- An injected fault touches no file.
  pub trip-Triple : (point : FaultPoint) → ((s : S) → P s → E s) → Triple P (trip point) (λ _. P) E
  trip-Triple point h = record {
    run = λ s p.
        (tripped-Triple (Faults.trip point s.next_fault).0 h).run
          (record s { next_fault = (Faults.trip point s.next_fault).1 }) p;
  }

  pub call-Triple :
      {A : Type 0} (op : S → Io A × S) (Q : Io A → S → Type 0)
      → ((s : S) → P s → Q (op s).0 (op s).1)
      → Triple P (call op) Q E
  call-Triple op Q h = record { run = λ s p. h s.files p }

  pub sys-Triple :
      {A : Type 0} (op : S → Io A × S) (Q : A → S → Type 0)
      → ((s : S) → P s → (x : A) → (op s).0 ≡ done x → Q x (op s).1)
      → ((s : S) → P s → (e : IoError) → (op s).0 ≡ failed e → E (op s).1)
      → Triple P (sys op) Q E
  sys-Triple op Q f g = record {
    run = λ s p.
        or_io-Post Q E (op s.files).0 (record s { files = (op s.files).1 }) (f s.files p)
          (g s.files p);
  }

  -- A fact that does not speak of the files is assumed once for all states.
  pub given :
      {A F : Type 0} {m : M S A} {Q : A → S → Type 0}
      → (F → Triple P m Q E)
      → Triple (λ s. P s × F) m Q E
  given h = record { run = λ s p. (h p.1).run s p.0 }
