-- ===== src/Names/Fingerprint/Values.antt =====
-- The decoder of crates/shbox/src/auth.rs on characters: each stands for its place in the alphabet.
use shbox.Prelude.{
  [], ℕ, suc, Bool, true, false, ◌==◌, ◌≡◌, inl, inr, ◌<◌, ◌+◌, ◌-◌, ◌≤◌, ◌&&◌, Bool-cases, ap₂,
  zero, Option, none, some, List, ◌∷◌, map, refl, sym, ap, subst, ◌∙◌, length, arith, if◌then◌else◌,
}
use shbox.Prelude.Bytes.{Bytes}
use shbox.Names.Fingerprint.{
  Decoded, ok, err, base64_alphabet, base64_value, position, value_then, values_from,
}
use shbox.Names.Fingerprint.Base64.{nth, base64_char, Sextets}

-- What the loop over the characters says of them.
unfoldable pub Valued : Bytes → Decoded (List ℕ) → Type 0
Valued bs (ok vs) = map base64_char vs ≡ bs × Sextets vs
Valued bs (err e) = Unit

-- What a search that starts at `index` finds.
Found : ℕ → Bytes → ℕ → Option ℕ → Type 0
Found byte rest index none = Unit
Found byte rest index (some v) = index ≤ v × (v < index + length rest × nth (v - index) rest ≡ byte)

minus_suc : (v index : ℕ) → v - index - 1 ≡ v - suc index
minus_suc v index = omega arith

minus_zero : (v : ℕ) → v ≡ v - 0
minus_zero v = omega arith

Found-skip :
    (byte c : ℕ) (rest : Bytes) (index : ℕ) (later : Option ℕ)
    → Found byte rest (suc index) later
    → Found byte (c ∷ rest) index later
unfolding Found
Found-skip byte c rest index none h = tt
Found-skip byte c rest index (some v) (low, (high, same)) = (
  omega (arith, low),
  (omega (arith, high), ground (arith, low, ap (λ n. nth n rest) (minus_suc v index) ∙ same)),
)

position_step :
    (byte c : ℕ) (rest : Bytes) (index : ℕ) (later : Option ℕ)
    → Found byte rest (suc index) later
    → Found byte (c ∷ rest) index (if c == byte then some index else later)
unfolding Found
position_step byte c rest index later h = elim (Bool-cases (c == byte)) [
  | inl e ↦
      subst (λ t. Found byte (c ∷ rest) index (if t then some index else later)) (sym e)
        (omega arith, (omega arith, ground (arith, e)))
  | inr e ↦
      subst (λ t. Found byte (c ∷ rest) index (if t then some index else later)) (sym e)
        (Found-skip byte c rest index later h)
]

position-Found :
    (byte : ℕ) (rest : Bytes) (index : ℕ) → Found byte rest index (position byte rest index)
unfolding position Found
position-Found byte [] index = tt
position-Found byte (c ∷ rest) index =
    position_step byte c rest index (position byte rest (suc index))
      (position-Found byte rest (suc index))

base64_value-Found : (byte : ℕ) → Found byte base64_alphabet 0 (base64_value byte)
unfolding base64_value
base64_value-Found byte = position-Found byte base64_alphabet 0

value_then-Valued :
    (index byte : ℕ) (rest : Bytes) (found : Option ℕ) (later : Decoded (List ℕ))
    → Found byte base64_alphabet 0 found
    → Valued rest later
    → Valued (byte ∷ rest) (value_then index byte found later)
unfolding Valued Found Sextets
value_then-Valued index byte rest none later f h = tt
value_then-Valued index byte rest (some v) (err e) f h = tt
value_then-Valued index byte rest (some v) (ok vs) (low, (high, same)) (texts, small) =
    (ap₂ ◌∷◌ (ap base64_char (minus_zero v) ∙ same) texts, (high, small))

pub values_from-Valued : (index : ℕ) (bs : Bytes) → Valued bs (values_from index bs)
unfolding Valued Sextets values_from
values_from-Valued index [] = (refl, tt)
values_from-Valued index (byte ∷ rest) =
    value_then-Valued index byte rest (base64_value byte) (values_from (suc index) rest)
      (base64_value-Found byte) (values_from-Valued (suc index) rest)

-- Every number below `n` passes a test.
below : ℕ → (ℕ → Bool) → Bool
below zero test = true
below (suc n) test = test n && below n test

below_lem : (n : ℕ) (test : ℕ → Bool) (v : ℕ) → below n test ≡ true → v < n → test v ≡ true
unfolding below
below_lem zero test v h l = ground (arith, l)
below_lem (suc n) test v h l = grind (arith, h, l, below_lem n test v)

abbrev own_test : ℕ → Option ℕ → Bool
own_test v none = false
own_test v (some w) = w == v

abbrev is_own_value : ℕ → Bool
is_own_value v = own_test v (base64_value (base64_char v))

every_value : below 64 is_own_value ≡ true
unfolding below base64_value position
every_value = refl

is_own : (v : ℕ) → v < 64 → is_own_value v ≡ true
is_own v l = below_lem 64 is_own_value v every_value l

own : (v : ℕ) (found : Option ℕ) → own_test v found ≡ true → found ≡ some v
own v none h = ground (arith, h)
own v (some w) h = ap some (ground (arith, h))

-- A value's character has that value.
base64_value-base64_char : (v : ℕ) → v < 64 → base64_value (base64_char v) ≡ some v
base64_value-base64_char v l = own v (base64_value (base64_char v)) (is_own v l)

pub values_from-map :
    (index : ℕ) (vs : List ℕ) → Sextets vs → values_from index (map base64_char vs) ≡ ok vs
unfolding values_from Sextets
values_from-map index [] small = refl
values_from-map index (v ∷ vs) (l, small) =
    ap₂ (value_then index (base64_char v)) (base64_value-base64_char v l)
      (values_from-map (suc index) vs small)
