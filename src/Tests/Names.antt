-- ===== src/Tests/Names.antt =====
-- Identifiers, fingerprints and record texts at concrete values.
use shbox.Prelude.{
  ℕ, suc, zero, ◌≡◌, ◌≢◌, ◌↔◌, ◌+◌, All, ◌++◌, refl, [], ◌∷◌, some, none, inl, arith, if◌then◌else◌,
  ltb, length,
}
use shbox.Prelude.Ascii.{is_alphanumeric, is_digit}
use shbox.Prelude.Bytes.{Bytes, codes}
use shbox.Names.SandboxId
use shbox.Names.SandboxId.{parse-Verdict, is_later}
use shbox.Names.Fingerprint
use shbox.Names.Fingerprint.Base64.{encode as base64, AreBytes}
use shbox.Names.Fingerprint.Canonical.{IsDigest, parse_iff}
use shbox.Subid.Ledger.{LeaseRecord, active, ok}
use shbox.Subid.Ledger.Codec.{Texts, decode, is_lower_hex}
use shbox.Subid.Ledger.Codec.Fields.{IsWellFormed, raw_of}
use shbox.Subid.Ledger.Codec.Roundtrip.{IsRecordText, decode_iff}
use shbox.Subid.Ledger.Codec.Injective.{AreFormats, encode-injective}

parse-Verdict_example : SandboxId.Verdict (codes "dev_1") (SandboxId.parse (codes "dev_1"))
parse-Verdict_example = parse-Verdict (codes "dev_1")

parse-run : SandboxId.parse (codes "dev_1") ≡ SandboxId.invalid (SandboxId.byte 3 95)
unfolding SandboxId.parse SandboxId.bad_from is_later is_alphanumeric is_digit
parse-run = refl

abbrev zeros : ℕ → Bytes
zeros zero = []
zeros (suc n) = 0 ∷ zeros n

zeros-AreBytes : (n : ℕ) → AreBytes (zeros n)
zeros-AreBytes zero = tt
zeros-AreBytes (suc n) = (omega arith, zeros-AreBytes n)

abbrev pub owner : Bytes
owner = codes "SHA256:AAAAAAAAAAAAAAAAAAAAAAAAAAAAAAAAAAAAAAAAAAA"

parse_iff_example : (Fingerprint.parse owner ≡ Fingerprint.ok owner) ↔ (
    (bytes : Bytes) × IsDigest bytes
    × owner ≡ Fingerprint.digest_prefix ++ base64 bytes
    × owner ≡ owner)
parse_iff_example = parse_iff owner owner

abbrev pub lease : LeaseRecord
lease = record {
  lease_id = codes "0123456789abcdef0123456789abcdef";
  sandbox_id = codes "dev-1";
  owner = owner;
  uid = 100000;
  gid = 200000;
  state = active;
  quarantine_reason = none;
}

-- A parser that knows one document.
abbrev pub texts : Texts
texts = record {
  from_utf8 = λ bytes. some bytes;
  from_str = λ text. if ltb (length text) 40 then none else some (raw_of lease);
  debug = λ text. 34 ∷ text ++ 34 ∷ [];
  display = λ n. 48 ∷ [];
}

pub lease-IsWellFormed : IsWellFormed lease
unfolding is_lower_hex is_alphanumeric is_digit is_later
lease-IsWellFormed = (
  (refl, refl),
  (omega arith, omega arith, (refl, (refl, (refl, (refl, (refl, tt)))))),
  (zeros 32, (zeros-AreBytes 32, refl), refl),
  ground arith,
  ground arith,
  inl refl,
)

decode_iff_example :
    (decode texts (codes "version") lease.lease_id ≡ ok lease)
    ↔ IsRecordText texts (codes "version") lease.lease_id lease
decode_iff_example = decode_iff texts (codes "version") lease.lease_id lease

-- Formats that shift each value past the line feed.
abbrev shifted : Bytes → Bytes
shifted [] = []
shifted (b ∷ t) = (b + 11) ∷ shifted t

shifted_line : (t : Bytes) → All (λ b. b ≢ 10) (shifted t)
shifted_line [] = tt
shifted_line (b ∷ t) = ((λ e. omega arith), shifted_line t)

shifted_one : (t u : Bytes) → shifted t ≡ shifted u → t ≡ u
shifted_one [] [] e = refl
shifted_one [] (c ∷ u) e = absurd (cc)
shifted_one (b ∷ t) [] e = absurd (cc)
shifted_one (b ∷ t) (c ∷ u) e =
    let head : b + 11 ≡ c + 11 = ground arith in
    let same : b ≡ c = omega arith in rw (same, shifted_one t u (ground arith)) refl

abbrev shifting : Texts
shifting = record texts { debug = shifted; display = λ n. (n + 11) ∷ [] }

shifting-AreFormats : AreFormats shifting
shifting-AreFormats = record {
  debug_line = shifted_line;
  display_line = λ n. ((λ e. omega arith), tt);
  debug_one = shifted_one;
  display_one = λ n m e. let head : n + 11 ≡ m + 11 = ground arith in omega arith;
}

encode-injective_example : lease ≡ lease
encode-injective_example = encode-injective shifting shifting-AreFormats lease lease refl
