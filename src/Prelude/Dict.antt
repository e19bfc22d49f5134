-- ===== src/Prelude/Dict.antt =====
-- `HashMap` and `HashSet` with byte-string keys: association lists with one entry for a key.
use shbox.Prelude.Bytes.{Bytes, bytes_eq, bytes_eq_iff}
use shbox.Prelude.Tests.{if◌then◌else◌}
use mathlib.Core.Path.{◌≡◌, refl}
use mathlib.Core.Bool.{Bool, true, false, ◌||◌}
use mathlib.Core.List.{List, [], ◌∷◌}
use mathlib.Core.Option.{Option, none, some}
use native.Mathlib.Omega.{arith}

module _ {ℓ} {V : Type ℓ} where
  unfoldable pub lookup : Bytes → List (Bytes × V) → Option V
  lookup k [] = none
  lookup k ((j, v) ∷ m) = if bytes_eq j k then some v else lookup k m

  unfoldable pub insert : Bytes → V → List (Bytes × V) → List (Bytes × V)
  insert k v [] = (k, v) ∷ []
  insert k v ((j, w) ∷ m) = if bytes_eq j k then (k, v) ∷ m else (j, w) ∷ insert k v m

  unfoldable pub delete : Bytes → List (Bytes × V) → List (Bytes × V)
  delete k [] = []
  delete k ((j, w) ∷ m) = if bytes_eq j k then delete k m else (j, w) ∷ delete k m

  pub lookup-insert :
      (k j : Bytes) (v : V) (m : List (Bytes × V))
      → lookup j (insert k v m) ≡ (if bytes_eq k j then some v else lookup j m)
  unfolding lookup insert
  lookup-insert k j v [] = refl
  lookup-insert k j v ((i, w) ∷ m) =
      ground (arith, bytes_eq_iff k j, bytes_eq_iff i k, bytes_eq_iff i j, lookup-insert k j v m)

-- A `HashSet`.
unfoldable pub member : Bytes → List Bytes → Bool
member k [] = false
member k (j ∷ m) = bytes_eq j k || member k m

unfoldable pub add : Bytes → List Bytes → List Bytes
unfolding member
add k m = if member k m then m else k ∷ m

unfoldable pub discard : Bytes → List Bytes → List Bytes
discard k [] = []
discard k (j ∷ m) = if bytes_eq j k then discard k m else j ∷ discard k m

pub member-add_self : (k : Bytes) (m : List Bytes) → member k (add k m) ≡ true
unfolding add member
member-add_self k m = ground (arith, bytes_eq_iff k k)

pub member-discard_self : (k : Bytes) (m : List Bytes) → member k (discard k m) ≡ false
unfolding discard member
member-discard_self k [] = refl
member-discard_self k (j ∷ m) = ground (arith, member-discard_self k m)
