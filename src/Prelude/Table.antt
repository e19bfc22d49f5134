-- ===== src/Prelude/Table.antt =====
-- A `HashMap` with numbers as keys: an association list with one entry for a key.
use Prim.Native.Nat.{ℕ, suc, ◌≤◌}
use mathlib.Core.Path.{◌≡◌, refl}
use mathlib.Core.List.{List, [], ◌∷◌}
use mathlib.Core.Option.{Option, none, some}
use native.Mathlib.Omega.{arith}
use shbox.Prelude.Lists.{length}
use shbox.Prelude.Tests.{◌==◌, if◌then◌else◌}

module _ {ℓ} {V : Type ℓ} where
  unfoldable pub get : ℕ → List (ℕ × V) → Option V
  get k [] = none
  get k ((j, v) ∷ m) = if j == k then some v else get k m

  unfoldable pub set : ℕ → V → List (ℕ × V) → List (ℕ × V)
  set k v [] = (k, v) ∷ []
  set k v ((j, w) ∷ m) = if j == k then (k, v) ∷ m else (j, w) ∷ set k v m

  unfoldable pub erase : ℕ → List (ℕ × V) → List (ℕ × V)
  erase k [] = []
  erase k ((j, w) ∷ m) = if j == k then erase k m else (j, w) ∷ erase k m

  pub get-set :
      (k j : ℕ) (v : V) (m : List (ℕ × V))
      → get j (set k v m) ≡ (if k == j then some v else get j m)
  unfolding get set
  get-set k j v [] = refl
  get-set k j v ((i, w) ∷ m) = ground (arith, get-set k j v m)

  pub get-erase :
      (k j : ℕ) (m : List (ℕ × V)) → get j (erase k m) ≡ (if k == j then none else get j m)
  unfolding get erase
  get-erase k j [] = ground arith
  get-erase k j ((i, w) ∷ m) = ground (arith, get-erase k j m)

  pub length-erase : (k : ℕ) (m : List (ℕ × V)) → length (erase k m) ≤ length m
  unfolding erase
  length-erase k [] = omega arith
  length-erase k ((j, w) ∷ m) = ground (arith, length-erase k m)

  pub length-set : (k : ℕ) (v : V) (m : List (ℕ × V)) → length (set k v m) ≤ suc (length m)
  unfolding set
  length-set k v [] = omega arith
  length-set k v ((j, w) ∷ m) = ground (arith, length-set k v m)

  -- An entry that is there is replaced.
  pub length-set_present :
      (k : ℕ) (v w : V) (m : List (ℕ × V)) → get k m ≡ some w → length (set k v m) ≡ length m
  unfolding set get
  length-set_present k v w [] h = cc
  length-set_present k v w ((j, x) ∷ m) h = ground (arith, length-set_present k v w m)
