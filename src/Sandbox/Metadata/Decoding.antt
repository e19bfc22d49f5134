-- ===== src/Sandbox/Metadata/Decoding.antt =====
-- Which texts crates/shbox/src/sandbox/metadata.rs accepts as the record of a sandbox.
use shbox.Prelude.{
  ℕ, Bool, true, false, not, ◌==◌, ltb, ◌≡◌, ◌≤◌, ◌↔◌, refl, sym, ap, subst, ◌∙◌, Option, none,
  some, length, if◌then◌else◌, arith,
}
use shbox.Prelude.Bytes.{Bytes, bytes_eq, bytes_eq_iff, codes}
use shbox.Names.SandboxId
use shbox.Names.Fingerprint
use shbox.Names.Fingerprint.Canonical.{parse_iff}
use shbox.Subid.Ledger.Codec.Fields.{IsFingerprint}
use shbox.Sandbox.Metadata.{
  version, max_bytes, State, active, deleting, Error, not_utf8, toml, invalid_state, too_large,
  unsupported_version, mismatched_id, Result, ok, err, as_str, parse_state, Metadata, RawMetadata,
  Documents, check, or_error, id_of, owner_of, decode_raw, decode,
}

-- What every decoded record satisfies.
abbrev pub IsRecord : Metadata → Type 0
IsRecord m = SandboxId.IsSandboxId m.id × IsFingerprint m.owner

-- The document of a record.
abbrev pub raw_of : Metadata → RawMetadata
raw_of m = record { version = version; id = m.id; owner = m.owner; state = as_str m.state }

-- What holds of a result if it is no error.
abbrev Yields : {A : Type 0} → (A → Type 0) → Result A → Type 0
Yields Q (ok a) = Q a
Yields Q (err e) = Unit {0}

Yields-check :
    {A B : Type 0} (P : A → Type 0) (Q : B → Type 0) (m : Result A) (k : A → Result B)
    → Yields P m
    → ((a : A) → P a → Yields Q (k a))
    → Yields Q (check m k)
Yields-check P Q (ok a) k h f = f a h
Yields-check P Q (err e) k h f = tt

Yields-or_error :
    {A B : Type 0} (Q : B → Type 0) (m : Option A) (e : Error) (k : A → Result B)
    → ((a : A) → m ≡ some a → Yields Q (k a))
    → Yields Q (or_error m e k)
Yields-or_error Q (some a) e k f = f a refl
Yields-or_error Q none e k f = tt

Yields-test :
    {A : Type 0} (Q : A → Type 0) (t : Bool) (e : Error) (m : Result A)
    → (t ≡ false → Yields Q m)
    → Yields Q (if t then err e else m)
Yields-test Q true e m f = tt
Yields-test Q false e m f = f refl

Yields-weaken :
    {A : Type 0} (P Q : A → Type 0) (m : Result A) → ((a : A) → P a → Q a) → Yields P m → Yields Q m
Yields-weaken P Q (ok a) f h = f a h
Yields-weaken P Q (err e) f h = tt

Yields-ok : {A : Type 0} (Q : A → Type 0) (m : Result A) (a : A) → Yields Q m → m ≡ ok a → Q a
Yields-ok Q m a h e = subst (Yields Q) e h

id_of-Yields :
    (raw : Bytes) (p : SandboxId.Parsed)
    → SandboxId.Verdict raw p
    → Yields (λ id. id ≡ raw × SandboxId.IsSandboxId raw) (id_of p)
id_of-Yields raw (SandboxId.valid id) h = h
id_of-Yields raw (SandboxId.invalid e) h = tt

owner_of-Yields :
    (raw : Bytes) (p : Fingerprint.Decoded Bytes)
    → Fingerprint.parse raw ≡ p
    → Yields (λ owner. owner ≡ raw × IsFingerprint raw) (owner_of p)
owner_of-Yields raw (Fingerprint.err e) h = tt
owner_of-Yields raw (Fingerprint.ok owner) h =
    let (bytes, fine, split, same) = (parse_iff raw owner).0 h in (same, (bytes, fine, split))

by_state :
    (raw : Bytes) (t u : Bool)
    → (t ≡ true → raw ≡ codes "active")
    → (u ≡ true → raw ≡ codes "deleting")
    → Yields
        (λ state. raw ≡ as_str state)
        (if t then ok active else if u then ok deleting else err (invalid_state raw))
unfolding as_str
by_state raw true u f g = f refl
by_state raw false true f g = g refl
by_state raw false false f g = tt

parse_state-Yields : (raw : Bytes) → Yields (λ state. raw ≡ as_str state) (parse_state raw)
unfolding parse_state
parse_state-Yields raw =
    by_state raw (bytes_eq raw (codes "active")) (bytes_eq raw (codes "deleting"))
      (bytes_eq_iff raw (codes "active")).0 (bytes_eq_iff raw (codes "deleting")).0

parse_state-as_str : (state : State) → parse_state (as_str state) ≡ ok state
unfolding parse_state as_str bytes_eq
parse_state-as_str active = refl
parse_state-as_str deleting = refl

not_ltb : (most n : ℕ) → ltb most n ≡ false → n ≤ most
not_ltb most n h = ground (arith, h)

fits_false : (n most : ℕ) → n ≤ most → ltb most n ≡ false
fits_false n most h = ground (arith, h)

is_version : (n : ℕ) → not (n == version) ≡ false → n ≡ version
is_version n h = ground (arith, h)

same_id : (a b : Bytes) → not (bytes_eq a b) ≡ false → a ≡ b
same_id a b h = ground (arith, h, bytes_eq_iff a b)

-- What is read from a document.
abbrev IsRead : Bytes → RawMetadata → Metadata → Type 0
IsRead expected raw m = (raw ≡ raw_of m) × (m.id ≡ expected) × IsRecord m

decode_raw-Yields :
    (expected : Bytes) (raw : RawMetadata) → Yields (IsRead expected raw) (decode_raw expected raw)
unfolding decode_raw
decode_raw-Yields expected raw =
    Yields-test Q (not (raw.version == version)) (unsupported_version raw.version) _ λ v.
      Yields-check _ Q (id_of (SandboxId.parse raw.id)) _
        (id_of-Yields raw.id (SandboxId.parse raw.id) (SandboxId.parse-Verdict raw.id))
        λ id (is_id, fine).
          Yields-test Q (not (bytes_eq id expected)) (mismatched_id expected id) _ λ same.
            Yields-check _ Q (owner_of (Fingerprint.parse raw.owner)) _
              (owner_of-Yields raw.owner (Fingerprint.parse raw.owner) refl)
              λ owner (is_owner, print).
                Yields-check _ Q (parse_state raw.state) _ (parse_state-Yields raw.state)
                  λ state text. (
                    document id owner state (is_version raw.version v) is_id is_owner text,
                    same_id id expected same,
                    (
                      subst SandboxId.IsSandboxId (sym is_id) fine,
                      subst IsFingerprint (sym is_owner) print,
                    ),
                  )
  where
    Q : Metadata → Type 0
    Q = IsRead expected raw

    document :
        (id owner : Bytes) (state : State)
        → raw.version ≡ version
        → id ≡ raw.id
        → owner ≡ raw.owner
        → raw.state ≡ as_str state
        → raw ≡ raw_of (record { id = id; owner = owner; state = state })
    document id owner state v i o t =
        λ x. record { version = v x; id = sym i x; owner = sym o x; state = t x }

-- A record of the expected sandbox is what its own document decodes to.
decode_raw-raw_of : (m : Metadata) → IsRecord m → decode_raw m.id (raw_of m) ≡ ok m
unfolding decode_raw
decode_raw-raw_of m (fine, (bytes, digest, split)) =
    ap (λ p. check (id_of p) after_id) (SandboxId.parse-valid m.id fine)
    ∙ ap (λ t. if not t then err (mismatched_id m.id m.id) else after_test)
        ((bytes_eq_iff m.id m.id).1 refl)
    ∙ ap (λ p. check (owner_of p) after_owner)
        ((parse_iff m.owner m.owner).1 (bytes, digest, split, refl))
    ∙ ap (λ r. check r (after_state m.owner)) (parse_state-as_str m.state)
  where
    after_state : Bytes → State → Result Metadata
    after_state owner state = ok (record { id = m.id; owner = owner; state = state })

    after_owner : Bytes → Result Metadata
    after_owner owner = check (parse_state (as_str m.state)) (after_state owner)

    after_test : Result Metadata
    after_test = check (owner_of (Fingerprint.parse m.owner)) after_owner

    after_id : Bytes → Result Metadata
    after_id id =
        if not (bytes_eq id m.id)
        then err (mismatched_id m.id id)
        else check (owner_of (Fingerprint.parse m.owner)) λ owner.
          check (parse_state (as_str m.state))
            λ state. ok (record { id = id; owner = owner; state = state })

module _ (documents : Documents) where
  -- The text is not too large, and the parser reads it as the document of the record of the expected
  -- sandbox.
  abbrev pub IsRecordText : Bytes → Bytes → Metadata → Type 0
  IsRecordText bytes expected m =
      (length bytes ≤ max_bytes)
      × IsRecord m
      × (m.id ≡ expected)
      × (text : Bytes) × (documents.from_utf8 bytes ≡ some text)
      × (documents.from_str text ≡ some (raw_of m))

  decode-Yields :
      (bytes expected : Bytes)
      → Yields (IsRecordText bytes expected) (decode documents bytes expected)
  unfolding decode
  decode-Yields bytes expected =
      Yields-test Q (ltb max_bytes (length bytes)) (too_large (length bytes)) _ λ small.
        Yields-or_error Q (documents.from_utf8 bytes) not_utf8 _ λ text utf8.
          Yields-or_error Q (documents.from_str text) toml _ λ raw parsed.
            Yields-weaken (IsRead expected raw) Q (decode_raw expected raw)
              (λ m (same, id, whole). (
                not_ltb max_bytes (length bytes) small,
                whole,
                id,
                text,
                utf8,
                parsed ∙ ap some same,
              ))
              (decode_raw-Yields expected raw)
    where
      Q : Metadata → Type 0
      Q = IsRecordText bytes expected

  decode-IsRecordText :
      (bytes expected : Bytes) (m : Metadata)
      → IsRecordText bytes expected m
      → decode documents bytes expected ≡ ok m
  unfolding decode
  decode-IsRecordText bytes expected m (small, whole, id, text, utf8, parsed) =
      ap (λ t. if t then err (too_large (length bytes)) else rest (documents.from_utf8 bytes))
        (fits_false (length bytes) max_bytes small)
      ∙ ap rest utf8
      ∙ ap (λ o. or_error o toml (decode_raw expected)) parsed
      ∙ ap (λ x. decode_raw x (raw_of m)) (sym id)
      ∙ decode_raw-raw_of m whole
    where
      rest : Option Bytes → Result Metadata
      rest o = or_error o not_utf8 λ t. or_error (documents.from_str t) toml (decode_raw expected)

  -- A text decodes to the record of a sandbox exactly if it is not too large, the parser reads it as
  -- the record's document, the ID and the owner are well-formed, and the ID is the expected one.
  pub decoded_iff :
      (bytes expected : Bytes) (m : Metadata)
      → (decode documents bytes expected ≡ ok m) ↔ IsRecordText bytes expected m
  decoded_iff bytes expected m = (
    Yields-ok (IsRecordText bytes expected) (decode documents bytes expected) m
        (decode-Yields bytes expected),
    decode-IsRecordText bytes expected m,
  )
