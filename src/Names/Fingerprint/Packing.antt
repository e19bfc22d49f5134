-- ===== src/Names/Fingerprint/Packing.antt =====
-- The decoder of crates/shbox/src/auth.rs on values: four values are three bytes.
use shbox.Prelude.{
  [], ℕ, Bool, true, false, ◌==◌, ◌≡◌, ◌<◌, ◌+◌, ◌*◌, ◌/◌, ◌%◌, ap₂, List, ◌∷◌, refl, sym, ap,
  subst, ◌∙◌, length, arith, if◌then◌else◌,
}
use shbox.Prelude.Bytes.{Bytes}
use shbox.Names.Fingerprint.{
  Decoded, ok, err, non_canonical, and_then, unpack, group_0, group_1, group_2,
}
use shbox.Names.Fingerprint.Base64.{sextets, AreBytes, Sextets}

-- What unpacking says of the values that it reads.
unfoldable pub Packed : List ℕ → Decoded Bytes → Type 0
Packed vs (ok out) = sextets out ≡ vs × AreBytes out × 3 * length vs ≡ 4 * length out + 1
Packed vs (err e) = Unit

Packed-four :
    (a b c d : ℕ) (rest : List ℕ) (m : Decoded Bytes)
    → a < 64
    → b < 64
    → c < 64
    → d < 64
    → Packed rest m
    → Packed
        (a ∷ b ∷ c ∷ d ∷ rest)
        (and_then m (λ out. ok (group_0 a b ∷ group_1 b c ∷ group_2 c d ∷ out)))
unfolding Packed
Packed-four a b c d rest (err e) la lb lc ld h = tt
Packed-four a b c d rest (ok out) la lb lc ld (same, bytes, long) = (
  ap₂ ◌∷◌ (omega (arith, la, lb)) (
      ap₂ ◌∷◌ (omega (arith, la, lb, lc))
        (ap₂ ◌∷◌ (omega (arith, lb, lc, ld)) (ap₂ ◌∷◌ (omega (arith, lc, ld)) same))),
  (omega (arith, la, lb), (omega (arith, lb, lc), (omega (arith, lc, ld), bytes))),
  omega (arith, long),
)

Packed-three :
    (a b c : ℕ) (t : Bool)
    → a < 64
    → b < 64
    → c < 64
    → (c % 4 == 0) ≡ t
    → Packed (a ∷ b ∷ c ∷ []) (if t then ok (group_0 a b ∷ group_1 b c ∷ []) else err non_canonical)
unfolding Packed
Packed-three a b c false la lb lc e = tt
Packed-three a b c true la lb lc e = (
  ap₂ ◌∷◌ (omega (arith, la, lb))
      (ap₂ ◌∷◌ (omega (arith, la, lb, lc)) (ap₂ ◌∷◌ (ground (arith, lb, lc, e)) refl)),
  (omega (arith, la, lb), (omega (arith, lb, lc), tt)),
  refl,
)

pub unpack-Packed : (vs : List ℕ) → Sextets vs → Packed vs (unpack vs)
unfolding Sextets Packed unpack
unpack-Packed (a ∷ b ∷ c ∷ d ∷ rest) (la, (lb, (lc, (ld, small)))) =
    Packed-four a b c d rest (unpack rest) la lb lc ld (unpack-Packed rest small)
unpack-Packed (a ∷ b ∷ c ∷ []) (la, (lb, (lc, t))) = Packed-three a b c (c % 4 == 0) la lb lc refl
unpack-Packed (a ∷ b ∷ []) small = tt
unpack-Packed (a ∷ []) small = tt
unpack-Packed [] small = tt

aligned : (b : ℕ) → (b % 16 * 4 % 4 == 0) ≡ true
aligned b = ground arith

-- The other way: the values of two bytes more than a number of threes give the bytes back.
pub unpack-sextets :
    (out : Bytes) → AreBytes out → length out % 3 ≡ 2 → unpack (sextets out) ≡ ok out
unfolding unpack
unpack-sextets (a ∷ b ∷ c ∷ rest) (la, (lb, (lc, bytes))) long =
    ap
      (λ m. and_then m (λ xs. ok (
        group_0 (a / 4) (a % 4 * 16 + b / 16)
        ∷ group_1 (a % 4 * 16 + b / 16) (b % 16 * 4 + c / 64)
        ∷ group_2 (b % 16 * 4 + c / 64) (c % 64)
        ∷ xs)))
      (unpack-sextets rest bytes (omega (arith, long)))
    ∙ ap ok (
        ap₂ ◌∷◌ (omega (arith, la, lb))
          (ap₂ ◌∷◌ (omega (arith, lb, lc)) (ap₂ ◌∷◌ (omega (arith, lc)) refl)))
unpack-sextets (a ∷ b ∷ []) (la, (lb, t)) long =
    subst
      (λ t.
        (if t
          then ok (
              group_0 (a / 4) (a % 4 * 16 + b / 16)
              ∷ group_1 (a % 4 * 16 + b / 16) (b % 16 * 4)
              ∷ [])
          else err non_canonical)
        ≡ ok (a ∷ b ∷ []))
      (sym (aligned b)) (ap ok (ap₂ ◌∷◌ (omega (arith, la, lb)) (ap₂ ◌∷◌ (omega (arith, lb)) refl)))
unpack-sextets (a ∷ []) bytes long = ground (arith, long)
unpack-sextets [] bytes long = ground (arith, long)

pub sextets-Sextets : (out : Bytes) → AreBytes out → Sextets (sextets out)
unfolding Sextets
sextets-Sextets (a ∷ b ∷ c ∷ rest) (la, (lb, (lc, bytes))) = (
  omega (arith, la),
  (omega (arith, lb), (omega (arith, lc), (omega arith, sextets-Sextets rest bytes))),
)
sextets-Sextets (a ∷ b ∷ []) (la, (lb, t)) =
    (omega (arith, la), (omega (arith, lb), (omega (arith, lb), tt)))
sextets-Sextets (a ∷ []) bytes = tt
sextets-Sextets [] bytes = tt

pub length-sextets :
    (out : Bytes) → length out % 3 ≡ 2 → 3 * length (sextets out) ≡ 4 * length out + 1
length-sextets (a ∷ b ∷ c ∷ rest) long = omega (arith, length-sextets rest (omega (arith, long)))
length-sextets (a ∷ b ∷ []) long = refl
length-sextets (a ∷ []) long = ground (arith, long)
length-sextets [] long = ground (arith, long)
