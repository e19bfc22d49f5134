-- ===== src/Names/Fingerprint.antt =====
-- crates/shbox/src/auth.rs: the syntax of owner fingerprints, `SHA256:` and the unpadded base64 of
-- 32 bytes. A shift to the left inside a byte is a product modulo 256, and `|` of numbers with no
-- bit in common is their sum.
pub mod Base64
mod Packing
mod Values
pub mod Canonical
use shbox.Prelude.{
  ℕ, suc, Bool, ◌==◌, ◌+◌, ◌*◌, ◌/◌, ◌%◌, Option, none, some, List, [], ◌∷◌, length, if◌then◌else◌,
}
use shbox.Prelude.Bytes.{Bytes, codes}

pub data FingerprintError : Type 0 where
  missing_prefix non_canonical : FingerprintError
  bad_length : ℕ → FingerprintError
  invalid_character : ℕ → ℕ → FingerprintError

pub data Decoded {ℓ} (A : Type ℓ) : Type ℓ where
  ok : A → Decoded A
  err : FingerprintError → Decoded A

-- `?` inside `parse` and the decoder.
abbrev pub and_then {ℓ κ} : {A : Type ℓ} {B : Type κ} → Decoded A → (A → Decoded B) → Decoded B
and_then (ok a) k = k a
and_then (err e) k = err e

abbrev pub base64_alphabet : Bytes
base64_alphabet = codes "ABCDEFGHIJKLMNOPQRSTUVWXYZabcdefghijklmnopqrstuvwxyz0123456789+/"

-- `Iterator::position`, counted from `index`.
unfoldable pub position : ℕ → Bytes → ℕ → Option ℕ
position byte [] index = none
position byte (c ∷ rest) index =
    let later = position byte rest (suc index) in if c == byte then some index else later

unfoldable pub base64_value : ℕ → Option ℕ
base64_value byte = position byte base64_alphabet 0

-- One step of the loop over the characters: the value of the first, and those of the rest.
abbrev pub value_then : ℕ → ℕ → Option ℕ → Decoded (List ℕ) → Decoded (List ℕ)
value_then index byte none later = err (invalid_character index byte)
value_then index byte (some v) later = and_then later (λ vs. ok (v ∷ vs))

unfoldable pub values_from : ℕ → Bytes → Decoded (List ℕ)
values_from index [] = ok []
values_from index (byte ∷ rest) =
    value_then index byte (base64_value byte) (values_from (suc index) rest)

abbrev pub group_0 : ℕ → ℕ → ℕ
group_0 a b = a * 4 % 256 + b / 16

abbrev pub group_1 : ℕ → ℕ → ℕ
group_1 b c = b * 16 % 256 + c / 4

abbrev pub group_2 : ℕ → ℕ → ℕ
group_2 c d = c * 64 % 256 + d

-- The bytes of groups of four values, then of the last three. The decoder calls it on 43 values,
-- which leave no other rest.
unfoldable pub unpack : List ℕ → Decoded Bytes
unpack (a ∷ b ∷ c ∷ d ∷ rest) =
    and_then (unpack rest) (λ out. ok (group_0 a b ∷ group_1 b c ∷ group_2 c d ∷ out))
unpack (a ∷ b ∷ c ∷ []) =
    if c % 4 == 0 then ok (group_0 a b ∷ group_1 b c ∷ []) else err non_canonical
unpack _ = err non_canonical

unfoldable pub decode_sha256_base64 : Bytes → Decoded Bytes
decode_sha256_base64 digest =
    if length digest == 43
    then and_then (values_from 0 digest) unpack
    else err (bad_length (length digest))

-- `str::strip_prefix`
unfoldable pub strip_prefix : Bytes → Bytes → Option Bytes
strip_prefix [] raw = some raw
strip_prefix (c ∷ before) [] = none
strip_prefix (c ∷ before) (byte ∷ rest) =
    let later = strip_prefix before rest in if c == byte then later else none

abbrev pub digest_prefix : Bytes
digest_prefix = codes "SHA256:"

-- The fingerprint of a text whose prefix was looked for.
abbrev pub parse_stripped : Bytes → Option Bytes → Decoded Bytes
parse_stripped raw none = err missing_prefix
parse_stripped raw (some digest) = and_then (decode_sha256_base64 digest) (λ bytes. ok raw)

unfoldable pub parse : Bytes → Decoded Bytes
parse raw = parse_stripped raw (strip_prefix digest_prefix raw)
