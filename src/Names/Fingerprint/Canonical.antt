-- ===== src/Names/Fingerprint/Canonical.antt =====
-- Which texts crates/shbox/src/auth.rs accepts as fingerprints: the encodings of 32 bytes, each
-- in one way.
use shbox.Prelude.{
  Bool, true, false, ap₂, [], ◌++◌, ◌↔◌, some, none, Option, if◌then◌else◌, ◌∷◌, ℕ, suc, ◌==◌, ◌≡◌,
  inl, inr, ◌+◌, ◌*◌, Bool-cases, List, map, refl, sym, ap, subst, ◌∙◌, length, arith, ==_iff,
}
use shbox.Prelude.Bytes.{Bytes}
use shbox.Names.Fingerprint.{
  strip_prefix, digest_prefix, parse_stripped, parse, Decoded, ok, err, bad_length,
  FingerprintError, and_then, values_from, unpack, decode_sha256_base64,
}
use shbox.Names.Fingerprint.Base64.{base64_char, sextets, encode, AreBytes}
use shbox.Names.Fingerprint.Packing.{
  Packed, unpack-Packed, unpack-sextets, sextets-Sextets, length-sextets,
}
use shbox.Names.Fingerprint.Values.{Valued, values_from-Valued, values_from-map}

length-map : (vs : List ℕ) → length (map base64_char vs) ≡ length vs
length-map [] = refl
length-map (v ∷ vs) = ap suc (length-map vs)

-- The bytes of a digest.
abbrev pub IsDigest : Bytes → Type 0
IsDigest bytes = AreBytes bytes × length bytes ≡ 32

-- The outcome of decoding a text of base64.
Digested : Bytes → Decoded Bytes → Type 0
Digested digest (ok bytes) = encode bytes ≡ digest × IsDigest bytes
Digested digest (err e) = Unit

unpack-Digested :
    (digest : Bytes) (vs : List ℕ) (out : Decoded Bytes)
    → length digest ≡ 43
    → map base64_char vs ≡ digest
    → Packed vs out
    → Digested digest out
unfolding Digested Packed
unpack-Digested digest vs (err e) long texts h = tt
unpack-Digested digest vs (ok out) long texts (same, bytes, count) = (
  ap (map base64_char) same ∙ texts,
  (bytes, omega (arith, long, count, length-map vs, ap length texts)),
)

Digested-err : (digest : Bytes) (e : FingerprintError) → Digested digest (err e)
unfolding Digested
Digested-err digest e = tt

forty_three : {n k : ℕ} → 3 * n ≡ 4 * k + 1 → k ≡ 32 → n ≡ 43
forty_three h e = omega (arith, h, e)

length-encode : (bytes : Bytes) → length bytes ≡ 32 → (length (encode bytes) == 43) ≡ true
length-encode bytes long =
    (==_iff (length (encode bytes)) 43).1
      (length-map (sextets bytes) ∙ forty_three (length-sextets bytes (omega (arith, long))) long)

unpacked-Digested :
    (digest : Bytes) (vs : Decoded (List ℕ))
    → length digest ≡ 43
    → Valued digest vs
    → Digested digest (and_then vs unpack)
unfolding Digested Valued
unpacked-Digested digest (err e) long h = tt
unpacked-Digested digest (ok vs) long (texts, small) =
    unpack-Digested digest vs (unpack vs) long texts (unpack-Packed vs small)

decode-Digested : (digest : Bytes) → Digested digest (decode_sha256_base64 digest)
unfolding decode_sha256_base64
decode-Digested digest = elim (Bool-cases (length digest == 43)) [
  | inl e ↦
      subst
        (λ t.
          Digested digest (
            if t then and_then (values_from 0 digest) unpack else err (bad_length (length digest))))
        (sym e)
        (unpacked-Digested digest (values_from 0 digest) (ground (arith, e))
          (values_from-Valued 0 digest))
  | inr e ↦
      subst
        (λ t.
          Digested digest (
            if t then and_then (values_from 0 digest) unpack else err (bad_length (length digest))))
        (sym e) (Digested-err digest (bad_length (length digest)))
]

decode-encode : (bytes : Bytes) → IsDigest bytes → decode_sha256_base64 (encode bytes) ≡ ok bytes
unfolding decode_sha256_base64
decode-encode bytes (small, long) =
    subst
      (λ t.
        (if t
          then and_then (values_from 0 (encode bytes)) unpack
          else err (bad_length (length (encode bytes))))
        ≡ ok bytes)
      (sym (length-encode bytes long))
      (ap (λ m. and_then m unpack) (values_from-map 0 (sextets bytes) (sextets-Sextets bytes small))
        ∙ unpack-sextets bytes small (omega (arith, long)))

-- What looking for the prefix says of a text.
Stripped : Bytes → Bytes → Option Bytes → Type 0
Stripped before raw none = Unit
Stripped before raw (some rest) = raw ≡ before ++ rest

Stripped-step :
    (c byte : ℕ) (before rest : Bytes) (later : Option Bytes) (t : Bool)
    → (c == byte) ≡ t
    → Stripped before rest later
    → Stripped (c ∷ before) (byte ∷ rest) (if t then later else none)
unfolding Stripped
Stripped-step c byte before rest later false e h = tt
Stripped-step c byte before rest none true e h = tt
Stripped-step c byte before rest (some after) true e h = ap₂ ◌∷◌ (sym ((==_iff c byte).0 e)) h

strip_prefix-Stripped : (before raw : Bytes) → Stripped before raw (strip_prefix before raw)
unfolding Stripped strip_prefix
strip_prefix-Stripped [] raw = refl
strip_prefix-Stripped (c ∷ before) [] = tt
strip_prefix-Stripped (c ∷ before) (byte ∷ rest) =
    Stripped-step c byte before rest (strip_prefix before rest) (c == byte) refl
      (strip_prefix-Stripped before rest)

strip_prefix-append : (before rest : Bytes) → strip_prefix before (before ++ rest) ≡ some rest
unfolding strip_prefix
strip_prefix-append [] rest = refl
strip_prefix-append (c ∷ before) rest =
    subst (λ t. (if t then strip_prefix before (before ++ rest) else none) ≡ some rest)
      (sym ((==_iff c c).1 refl)) (strip_prefix-append before rest)

-- What an answer of the parser says of a text.
Accepted : Bytes → Decoded Bytes → Type 0
Accepted raw (ok a) =
    (bytes : Bytes) × IsDigest bytes × raw ≡ digest_prefix ++ encode bytes × a ≡ raw
Accepted raw (err e) = Unit

decoded-Accepted :
    (raw digest : Bytes) (m : Decoded Bytes)
    → raw ≡ digest_prefix ++ digest
    → Digested digest m
    → Accepted raw (and_then m (λ bytes. ok raw))
unfolding Accepted Digested
decoded-Accepted raw digest (err e) split h = tt
decoded-Accepted raw digest (ok bytes) split (same, fine) =
    (bytes, fine, split ∙ ap (digest_prefix ++◌) (sym same), refl)

parse_stripped-Accepted :
    (raw : Bytes) (found : Option Bytes)
    → Stripped digest_prefix raw found
    → Accepted raw (parse_stripped raw found)
unfolding Accepted Stripped
parse_stripped-Accepted raw none h = tt
parse_stripped-Accepted raw (some digest) split =
    decoded-Accepted raw digest (decode_sha256_base64 digest) split (decode-Digested digest)

parse-Accepted : (raw : Bytes) → Accepted raw (parse raw)
unfolding parse
parse-Accepted raw =
    parse_stripped-Accepted raw (strip_prefix digest_prefix raw)
      (strip_prefix-Stripped digest_prefix raw)

parse-encode :
    (bytes : Bytes)
    → IsDigest bytes
    → parse (digest_prefix ++ encode bytes) ≡ ok (digest_prefix ++ encode bytes)
unfolding parse
parse-encode bytes fine =
    ap (parse_stripped (digest_prefix ++ encode bytes))
      (strip_prefix-append digest_prefix (encode bytes))
    ∙ ap (λ m. and_then m (λ out. ok (digest_prefix ++ encode bytes))) (decode-encode bytes fine)

-- A text is accepted as a fingerprint exactly when it is `SHA256:` and the unpadded base64 of 32
-- bytes, and it is kept unchanged.
pub parse_iff :
    (raw kept : Bytes)
    → (parse raw ≡ ok kept)
      ↔ ((bytes : Bytes) × IsDigest bytes × raw ≡ digest_prefix ++ encode bytes × kept ≡ raw)
unfolding Accepted
parse_iff raw kept = (
  λ h. subst (Accepted raw) h (parse-Accepted raw),
  λ (bytes, fine, split, same).
      ap parse split ∙ parse-encode bytes fine ∙ ap ok (sym split ∙ sym same),
)
