-- ===== src/Subid/Ledger/Codec/Yields.antt =====
-- Statements about the results that are no errors, one for each step that a parser chains.
use shbox.Prelude.{
  ℕ, Bool, true, false, ltb, ◌≡◌, ◌≤◌, Option, none, some, refl, subst, arith, if◌then◌else◌,
}
use shbox.Subid.Ledger.{Error, Result, ok, err}
use shbox.Subid.Ledger.Codec.{check, or_error}

-- What holds of a result if it is no error.
unfoldable pub Yields {ℓ κ} : {A : Type ℓ} → (A → Type κ) → Result A → Type κ
Yields Q (ok a) = Q a
Yields Q (err e) = Unit

pub Yields-check {ℓ κ μ ν} :
    {A : Type ℓ} {B : Type κ} (P : A → Type μ) (Q : B → Type ν) (m : Result A) (k : A → Result B)
    → Yields P m
    → ((a : A) → P a → Yields Q (k a))
    → Yields Q (check m k)
unfolding Yields
Yields-check P Q (ok a) k h f = f a h
Yields-check P Q (err e) k h f = tt

pub Yields-or_error {ℓ κ ν} :
    {A : Type ℓ} {B : Type κ} (Q : B → Type ν) (m : Option A) (e : Error) (k : A → Result B)
    → ((a : A) → m ≡ some a → Yields Q (k a))
    → Yields Q (or_error m e k)
unfolding Yields
Yields-or_error Q (some a) e k f = f a refl
Yields-or_error Q none e k f = tt

pub Yields-if {ℓ κ} :
    {A : Type ℓ} (Q : A → Type κ) (t : Bool) (m n : Result A)
    → (t ≡ true → Yields Q m)
    → (t ≡ false → Yields Q n)
    → Yields Q (if t then m else n)
Yields-if Q true m n f g = f refl
Yields-if Q false m n f g = g refl

-- A test that is an error where it succeeds.
pub Yields-test {ℓ κ} :
    {A : Type ℓ} (Q : A → Type κ) (t : Bool) (e : Error) (m : Result A)
    → (t ≡ false → Yields Q m)
    → Yields Q (if t then err e else m)
unfolding Yields
Yields-test Q t e m f = Yields-if Q t (err e) m (λ h. tt) f

pub Yields-map {ℓ κ μ} :
    {A : Type ℓ} (P : A → Type κ) (Q : A → Type μ) (m : Result A)
    → ((a : A) → P a → Q a)
    → Yields P m
    → Yields Q m
unfolding Yields
Yields-map P Q (ok a) f h = f a h
Yields-map P Q (err e) f h = tt

pub not_ltb : (m n : ℕ) → ltb m n ≡ false → n ≤ m
not_ltb m n h = ground (arith, h)

pub Yields-ok {ℓ κ} :
    {A : Type ℓ} (Q : A → Type κ) (m : Result A) (a : A) → Yields Q m → m ≡ ok a → Q a
unfolding Yields
Yields-ok Q m a h e = subst (Yields Q) e h
