-- ===== src/Subid/Ledger/Codec/Fields.antt =====
-- What `LeaseRecord::decode` of crates/shbox/src/sandbox/subid/ledger.rs says of the fields.
use shbox.Prelude.{
  ℕ, true, false, not, ◌&&◌, ◌||◌, ◌==◌, ◌≡◌, ◌≢◌, ◌⊎◌, ◌↔◌, Option, none, some, ◌++◌, refl, sym,
  subst, length, all, arith,
}
use Prim.Native.String.{String}
use shbox.Prelude.Bytes.{codes, Bytes, bytes_eq, bytes_eq_iff}
use shbox.Names.SandboxId
use shbox.Names.Fingerprint
use shbox.Names.Fingerprint.Base64.{encode as base64}
use shbox.Names.Fingerprint.Canonical.{IsDigest, parse_iff}
use shbox.Subid.Ledger.{
  LeaseRecord, LeaseState, ok, err, as_str, parse_state, is_quarantined, quarantined, reserved,
  active, releasing, zero_id, invalid_quarantine_reason, invalid_lease_id, unsupported_version,
  mismatched_lease_id,
}
use shbox.Subid.Ledger.Codec.{
  RawLease, version, lease_id_hex, is_lower_hex, validate_lease_id, is_some, sandbox_id_of,
  owner_of, decode_fields, decode_raw,
}
use shbox.Subid.Ledger.Codec.Yields.{Yields, Yields-check, Yields-if, Yields-test}

abbrev pub IsLeaseId : Bytes → Type 0
IsLeaseId id = length id ≡ lease_id_hex × all is_lower_hex id ≡ true

abbrev pub IsFingerprint : Bytes → Type 0
IsFingerprint raw =
    (bytes : Bytes) × IsDigest bytes × raw ≡ Fingerprint.digest_prefix ++ base64 bytes

-- What every decoded record satisfies.
abbrev pub IsWellFormed : LeaseRecord → Type 0
IsWellFormed r =
    IsLeaseId r.lease_id
    × SandboxId.IsSandboxId r.sandbox_id
    × IsFingerprint r.owner
    × r.uid ≢ 0
    × r.gid ≢ 0
    × ((r.quarantine_reason ≡ none) ⊎ (r.state ≡ quarantined))

pub validate_lease_id-Yields : (id : Bytes) → Yields (λ _. IsLeaseId id) (validate_lease_id id)
unfolding Yields validate_lease_id
validate_lease_id-Yields id =
    Yields-if (λ _. IsLeaseId id) (length id == lease_id_hex && all is_lower_hex id) (ok tt)
      (err (invalid_lease_id id)) (λ e. (ground (arith, e), ground (arith, e))) (λ e. tt)

sandbox_id_of_parsed-Yields :
    (raw : Bytes) (p : SandboxId.Parsed)
    → SandboxId.Verdict raw p
    → Yields (λ id. id ≡ raw × SandboxId.IsSandboxId raw) (sandbox_id_of p)
unfolding Yields
sandbox_id_of_parsed-Yields raw (SandboxId.valid id) h = h
sandbox_id_of_parsed-Yields raw (SandboxId.invalid e) h = tt

owner_of_parsed-Yields :
    (raw : Bytes) (p : Fingerprint.Decoded Bytes)
    → Fingerprint.parse raw ≡ p
    → Yields (λ owner. owner ≡ raw × IsFingerprint raw) (owner_of p)
unfolding Yields
owner_of_parsed-Yields raw (Fingerprint.err e) h = tt
owner_of_parsed-Yields raw (Fingerprint.ok owner) h =
    let (bytes, fine, split, same) = (parse_iff raw owner).0 h in (same, (bytes, fine, split))

parse_state-Yields : (raw : Bytes) → Yields (λ state. as_str state ≡ raw) (parse_state raw)
unfolding Yields parse_state as_str
parse_state-Yields raw = Yields-if Q (bytes_eq raw (codes "reserved")) _ _ (read "reserved") λ _.
    Yields-if Q (bytes_eq raw (codes "active")) _ _ (read "active") λ _.
      Yields-if Q (bytes_eq raw (codes "releasing")) _ _ (read "releasing")
        λ _. Yields-if Q (bytes_eq raw (codes "quarantined")) _ _ (read "quarantined") λ _. tt
  where
    Q : LeaseState → Type 0
    Q state = as_str state ≡ raw

    read : (s : String) → bytes_eq raw (codes s) ≡ true → codes s ≡ raw
    read s e = sym ((bytes_eq_iff raw (codes s)).0 e)

pub reason_iff :
    (reason : Option Bytes) (state : LeaseState)
    → ((is_some reason && not (is_quarantined state)) ≡ false)
      ↔ ((reason ≡ none) ⊎ (state ≡ quarantined))
reason_iff none state = ground arith
reason_iff (some reason) quarantined = ground arith
reason_iff (some reason) reserved = ground arith
reason_iff (some reason) active = ground arith
reason_iff (some reason) releasing = ground arith

-- The document that `encode` prints a record as.
abbrev pub raw_of : LeaseRecord → RawLease
raw_of r = record {
  version = version;
  lease_id = r.lease_id;
  sandbox_id = r.sandbox_id;
  owner = r.owner;
  uid = r.uid;
  gid = r.gid;
  state = as_str r.state;
  quarantine_reason = r.quarantine_reason;
}

-- What a decoded record is to its document.
abbrev pub IsRead : Bytes → RawLease → LeaseRecord → Type 0
IsRead expected raw r = raw ≡ raw_of r × r.lease_id ≡ expected × IsWellFormed r

-- A document from the four of its fields that are compared or parsed.
document :
    (raw : RawLease) (state : LeaseState)
    → raw.version ≡ version
    → as_str state ≡ raw.state
    → raw ≡ (record raw { version = version; state = as_str state })
document raw state v text = λ i. record raw { version = v i; state = (sym text) i }

no_zero : (uid gid : ℕ) → (uid == 0 || gid == 0) ≡ false → uid ≢ 0 × gid ≢ 0
no_zero uid gid h = (ground (arith, h), ground (arith, h))

not_differs : (a b : ℕ) → not (a == b) ≡ false → a ≡ b
not_differs a b h = ground (arith, h)

bytes_same : (a b : Bytes) → not (bytes_eq a b) ≡ false → a ≡ b
bytes_same a b h = ground (arith, h, bytes_eq_iff a b)

decode_fields-Yields :
    (expected : Bytes) (raw : RawLease)
    → raw.version ≡ version
    → raw.lease_id ≡ expected
    → IsLeaseId raw.lease_id
    → SandboxId.IsSandboxId raw.sandbox_id
    → IsFingerprint raw.owner
    → Yields (IsRead expected raw) (decode_fields raw raw.sandbox_id raw.owner)
unfolding decode_fields Yields
decode_fields-Yields expected raw v same fine sandbox owner =
    Yields-test (IsRead expected raw) (raw.uid == 0 || raw.gid == 0) zero_id _ λ ids.
      Yields-check (λ state. as_str state ≡ raw.state) (IsRead expected raw) (parse_state raw.state)
        _ (parse_state-Yields raw.state)
        λ state text.
          Yields-test (IsRead expected raw)
            (is_some raw.quarantine_reason && not (is_quarantined state)) invalid_quarantine_reason
            _
            λ reason. (
              document raw state v text,
              same,
              (
                fine,
                sandbox,
                owner,
                (no_zero raw.uid raw.gid ids).0,
                (no_zero raw.uid raw.gid ids).1,
                (reason_iff raw.quarantine_reason state).0 reason,
              ),
            )

pub decode_raw-Yields :
    (expected : Bytes) (raw : RawLease) → Yields (IsRead expected raw) (decode_raw expected raw)
unfolding decode_raw
decode_raw-Yields expected raw =
    Yields-test Q (not (raw.version == version)) (unsupported_version raw.version) _ λ v.
      Yields-test Q (not (bytes_eq raw.lease_id expected))
        (mismatched_lease_id expected raw.lease_id) _
        λ same.
          Yields-check _ Q (validate_lease_id raw.lease_id) _
            (validate_lease_id-Yields raw.lease_id)
            λ _ fine.
              Yields-check _ Q (sandbox_id_of (SandboxId.parse raw.sandbox_id)) _
                (sandbox_id_of_parsed-Yields raw.sandbox_id _
                  (SandboxId.parse-Verdict raw.sandbox_id))
                λ id (id_same, id_fine).
                  Yields-check _ Q (owner_of (Fingerprint.parse raw.owner)) _
                    (owner_of_parsed-Yields raw.owner (Fingerprint.parse raw.owner) refl)
                    λ owner (owner_same, owner_fine).
                      subst (λ x. Yields Q (decode_fields raw x owner)) (sym id_same)
                        (subst (λ x. Yields Q (decode_fields raw raw.sandbox_id x)) (sym owner_same)
                          (decode_fields-Yields expected raw (not_differs raw.version version v)
                            (bytes_same raw.lease_id expected same) fine id_fine owner_fine))
  where
    Q : LeaseRecord → Type 0
    Q = IsRead expected raw
