-- ===== src/Subid/Ledger/Codec/Roundtrip.antt =====
-- The records that decode in crates/shbox/src/sandbox/subid/ledger.rs are the well-formed ones, and
-- an encoded record decodes to itself.
use shbox.Prelude.{
  ℕ, Bool, false, not, ◌||◌, ◌==◌, ltb, ◌≡◌, ◌≢◌, ◌≤◌, ◌↔◌, some, refl, sym, ap, subst, ◌∙◌, length,
  arith, if◌then◌else◌,
}
use shbox.Prelude.Bytes.{Bytes, bytes_eq, bytes_eq_iff}
use shbox.Names.SandboxId
use shbox.Names.Fingerprint.Canonical.{parse_iff}
use shbox.Subid.Ledger.{
  LeaseRecord, LeaseState, Error, Result, ok, err, as_str, parse_state, quarantined, reserved,
  active, releasing, unsupported_version, too_large, toml, not_utf8,
}
use shbox.Subid.Ledger.Codec.{
  encode, Texts, version, max_record_bytes, validate_lease_id, check, or_error, sandbox_id_of,
  owner_of, decode_fields, decode_raw, decode,
}
use shbox.Subid.Ledger.Codec.Yields.{
  Yields, Yields-check, Yields-or_error, Yields-test, Yields-map, not_ltb, Yields-ok,
}
use shbox.Subid.Ledger.Codec.Fields.{
  IsLeaseId, IsWellFormed, IsRead, raw_of, reason_iff, decode_raw-Yields, validate_lease_id-Yields,
}

check_ok {ℓ κ} :
    {A : Type ℓ} {B : Type κ} {m : Result A} {a : A} (k : A → Result B) {x : Result B}
    → m ≡ ok a
    → k a ≡ x
    → check m k ≡ x
check_ok k e h = ap (λ m. check m k) e ∙ h

test_ok {ℓ} :
    {A : Type ℓ} {t : Bool} (e : Error) (m : Result A) {x : Result A}
    → t ≡ false
    → m ≡ x
    → (if t then err e else m) ≡ x
test_ok e m h g = ap (λ t. if t then err e else m) h ∙ g

pub validate_lease_id-ok : (id : Bytes) → IsLeaseId id → validate_lease_id id ≡ ok tt
unfolding validate_lease_id
validate_lease_id-ok id (long, hex) = ground (arith, long, hex)

pub parse_state-as_str : (state : LeaseState) → parse_state (as_str state) ≡ ok state
unfolding parse_state as_str bytes_eq
parse_state-as_str reserved = refl
parse_state-as_str active = refl
parse_state-as_str releasing = refl
parse_state-as_str quarantined = refl

bytes_differ : (id : Bytes) → not (bytes_eq id id) ≡ false
bytes_differ id = ap not ((bytes_eq_iff id id).1 refl)

some_ids : (uid gid : ℕ) → uid ≢ 0 → gid ≢ 0 → (uid == 0 || gid == 0) ≡ false
some_ids uid gid u g = ground (arith, u, g)

-- A well-formed record is what its own document decodes to.
decode_raw-raw_of : (r : LeaseRecord) → IsWellFormed r → decode_raw r.lease_id (raw_of r) ≡ ok r
unfolding decode_raw decode_fields
decode_raw-raw_of r (id, sandbox, (bytes, fine, split), uid, gid, reason) =
    test_ok (unsupported_version version) _ refl (
      test_ok _ _ (bytes_differ r.lease_id) (
        check_ok _ (validate_lease_id-ok r.lease_id id) (
          check_ok _ (ap sandbox_id_of (SandboxId.parse-valid r.sandbox_id sandbox)) (
            check_ok _ (ap owner_of ((parse_iff r.owner r.owner).1 (bytes, fine, split, refl))) (
              test_ok _ _ (some_ids r.uid r.gid uid gid) (
                check_ok _ (parse_state-as_str r.state)
                  (test_ok _ _ ((reason_iff r.quarantine_reason r.state).1 reason) refl)))))))

fits_false : (n m : ℕ) → n ≤ m → ltb m n ≡ false
fits_false n m h = ground (arith, h)

module _ (texts : Texts) where
  -- The text is not too large, and the parser reads it as the document of a well-formed record
  -- with the expected lease ID.
  abbrev pub IsRecordText : Bytes → Bytes → LeaseRecord → Type 0
  IsRecordText bytes expected r =
      length bytes ≤ max_record_bytes
      × IsWellFormed r
      × r.lease_id ≡ expected
      × (text : Bytes) × Texts.from_utf8 texts bytes ≡ some text
      × Texts.from_str texts text ≡ some (raw_of r)

  decode-Yields :
      (bytes expected : Bytes) → Yields (IsRecordText bytes expected) (decode texts bytes expected)
  unfolding decode
  decode-Yields bytes expected =
      Yields-test Q (ltb max_record_bytes (length bytes)) (too_large (length bytes)) _ λ small.
        Yields-check _ Q (validate_lease_id expected) _ (validate_lease_id-Yields expected)
          λ _ fine. Yields-or_error Q (Texts.from_utf8 texts bytes) not_utf8 _ λ text utf8.
            Yields-or_error Q (Texts.from_str texts text) toml _ λ raw parsed.
              Yields-map (IsRead expected raw) Q (decode_raw expected raw)
                (λ r (same, id, whole). (
                  not_ltb max_record_bytes (length bytes) small,
                  whole,
                  id,
                  text,
                  utf8,
                  parsed ∙ ap some same,
                ))
                (decode_raw-Yields expected raw)
    where
      Q : LeaseRecord → Type 0
      Q = IsRecordText bytes expected

  decode-IsRecordText :
      (bytes expected : Bytes) (r : LeaseRecord)
      → IsRecordText bytes expected r
      → decode texts bytes expected ≡ ok r
  unfolding decode
  decode-IsRecordText bytes expected r (small, whole, id, text, utf8, parsed) =
      test_ok (too_large (length bytes)) _ (fits_false (length bytes) max_record_bytes small) (
        check_ok _ (validate_lease_id-ok expected (subst IsLeaseId id whole.0)) (
          ap
            (λ o.
              or_error o not_utf8
                (λ t. or_error (Texts.from_str texts t) toml (decode_raw expected)))
            utf8
          ∙ ap (λ o. or_error o toml (decode_raw expected)) parsed
          ∙ ap (λ x. decode_raw x (raw_of r)) (sym id)
          ∙ decode_raw-raw_of r whole))

  -- A text decodes to a record exactly if it is not too large, the parser reads it as the record's
  -- document, the record is well-formed, and it has the expected lease ID.
  pub decode_iff :
      (bytes expected : Bytes) (r : LeaseRecord)
      → (decode texts bytes expected ≡ ok r) ↔ IsRecordText bytes expected r
  decode_iff bytes expected r = (
    Yields-ok (IsRecordText bytes expected) (decode texts bytes expected) r
        (decode-Yields bytes expected),
    decode-IsRecordText bytes expected r,
  )

  -- A well-formed record whose text is not too large, and whose text the parser reads as its
  -- document, decodes from that text to itself under its own lease ID.
  pub decode-encode :
      (r : LeaseRecord) (text : Bytes)
      → IsWellFormed r
      → length (encode texts r) ≤ max_record_bytes
      → Texts.from_utf8 texts (encode texts r) ≡ some text
      → Texts.from_str texts text ≡ some (raw_of r)
      → decode texts (encode texts r) r.lease_id ≡ ok r
  decode-encode r text whole small utf8 parsed =
      (decode_iff (encode texts r) r.lease_id r).1 (small, whole, refl, text, utf8, parsed)
