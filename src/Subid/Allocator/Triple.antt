-- ===== src/Subid/Allocator/Triple.antt =====
-- Hoare triples for the allocator's methods, about the records on disk before and after. A triple
-- speaks of a failing method too: its last part is what a failure leaves.
use shbox.Prelude.{Bool, true, false, Option, none, some, ◌≡◌, refl, subst, arith}
use shbox.Subid.Allocator.Monad.{
  Allocator, Error, Result, ok, err, M, ◌>>=◌, continue, pure, fail, lift, guard, or_fail,
}

module _ {S : Type 0} {A : Type 0} where
  abbrev pub Post :
      (A → Allocator S → Type 0) → (Allocator S → Type 0) → Result A → Allocator S → Type 0
  Post Q E (ok x) a = Q x a
  Post Q E (err e) a = E a

module _ {S : Type 0} where
  Post-ok :
      {A : Type 0} (Q : A → Allocator S → Type 0) (E : Allocator S → Type 0) (r : Result A) (x : A)
      (a : Allocator S)
      → r ≡ ok x
      → Post Q E r a
      → Q x a
  Post-ok Q E (ok y) x a e h = subst (λ z. Q z a) (ground arith) h
  Post-ok Q E (err _) x a e h = cc

pub record Triple {S A : Type 0} (P : Allocator S → Type 0) (m : M S A)
    (Q : A → Allocator S → Type 0) (E : Allocator S → Type 0) : Type 0 where
  pub run : (a : Allocator S) → P a → Post Q E (m a).0 (m a).1

module _ {S : Type 0} {E : Allocator S → Type 0} where
  continue-Post :
      {A B : Type 0} {Q : A → Allocator S → Type 0} {R : B → Allocator S → Type 0} (f : A → M S B)
      (r : Result A) (a : Allocator S)
      → ((x : A) → Triple (Q x) (f x) R E)
      → Post Q E r a
      → Post R E (continue f r a).0 (continue f r a).1
  continue-Post f (ok x) a h q = (h x).run a q
  continue-Post f (err e) a h q = q

  Post-map :
      {A : Type 0} {Q R : A → Allocator S → Type 0} {F : Allocator S → Type 0} (r : Result A)
      (a : Allocator S)
      → ((x : A) (b : Allocator S) → Q x b → R x b)
      → ((b : Allocator S) → E b → F b)
      → Post Q E r a
      → Post R F r a
  Post-map (ok x) a f g p = f x a p
  Post-map (err e) a f g p = g a p

module _ {S : Type 0} {P E : Allocator S → Type 0} where
  pub bind :
      {A B : Type 0} {m : M S A} {f : A → M S B} {Q : A → Allocator S → Type 0}
      {R : B → Allocator S → Type 0}
      → Triple P m Q E
      → ((x : A) → Triple (Q x) (f x) R E)
      → Triple P (m >>= f) R E
  bind {m} {f} t h = record { run = λ a p. continue-Post f (m a).0 (m a).1 h (t.run a p) }

  -- A weaker postcondition, and a weaker account of failures.
  pub weaken :
      {A : Type 0} {m : M S A} {Q R : A → Allocator S → Type 0} {F : Allocator S → Type 0}
      → Triple P m Q E
      → ((x : A) (b : Allocator S) → Q x b → R x b)
      → ((b : Allocator S) → E b → F b)
      → Triple P m R F
  weaken {m} t f g = record { run = λ a p. Post-map (m a).0 (m a).1 f g (t.run a p) }

  pub pure-Triple :
      {A : Type 0} {Q : A → Allocator S → Type 0} (x : A)
      → ((a : Allocator S) → P a → Q x a)
      → Triple P (pure x) Q E
  pure-Triple x h = record { run = h }

  pub fail-Triple :
      {A : Type 0} {Q : A → Allocator S → Type 0} (e : Error)
      → ((a : Allocator S) → P a → E a)
      → Triple P (fail {A = A} e) Q E
  fail-Triple e h = record { run = h }

  -- A test keeps what held, and its success is known after it.
  pub guard-Triple :
      (b : Bool) (e : Error)
      → ((a : Allocator S) → P a → E a)
      → Triple P (guard b e) (λ _ a. P a × (b ≡ true)) E
  guard-Triple true e h = record { run = λ a p. (p, refl) }
  guard-Triple false e h = record { run = λ a p. h a p }

  pub or_fail-Triple :
      {A : Type 0} (o : Option A) (e : Error)
      → ((a : Allocator S) → P a → E a)
      → Triple P (or_fail o e) (λ x a. P a × (o ≡ some x)) E
  or_fail-Triple none e h = record { run = λ a p. h a p }
  or_fail-Triple (some x) e h = record { run = λ a p. (p, refl) }

  pub lift-Triple :
      {A : Type 0} (r : Result A)
      → ((a : Allocator S) → P a → E a)
      → Triple P (lift r) (λ x a. P a × (r ≡ ok x)) E
  lift-Triple (ok x) h = record { run = λ a p. (p, refl) }
  lift-Triple (err e) h = record { run = λ a p. h a p }

  -- A fact that does not speak of the state is assumed once for all states.
  pub given :
      {A F : Type 0} {m : M S A} {Q : A → Allocator S → Type 0}
      → (F → Triple P m Q E)
      → Triple (λ a. P a × F) m Q E
  given h = record { run = λ a p. (h p.1).run a p.0 }

  -- What a success means, at one state.
  pub run_ok :
      {A : Type 0} {m : M S A} {Q : A → Allocator S → Type 0}
      → Triple P m Q E
      → (a : Allocator S) (x : A) → P a
      → (m a).0 ≡ ok x
      → Q x (m a).1
  run_ok {m} {Q} t a x p e = Post-ok Q E (m a).0 x (m a).1 e (t.run a p)

Post-some :
    {S A : Type 0} (Q : A → Allocator S → Type 0) (r : Result A) (a : Allocator S)
    → Post Q (λ _. ⊥) r a
    → (x : A) × (r ≡ ok x)
Post-some Q (ok x) a h = (x, refl)
Post-some Q (err e) a h = absurd h

-- A method that cannot fail answers.
pub run_some :
    {S A : Type 0} {P : Allocator S → Type 0} {m : M S A} {Q : A → Allocator S → Type 0}
    → Triple P m Q (λ _. ⊥)
    → (a : Allocator S) → P a
    → (x : A) × ((m a).0 ≡ ok x)
run_some {m} {Q} t a p = Post-some Q (m a).0 (m a).1 (t.run a p)
