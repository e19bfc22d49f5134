-- ===== src/Subid/Ledger/Codec.antt =====
-- crates/shbox/src/sandbox/subid/ledger.rs: the text of a lease record. What the standard library
-- and the TOML parser do is the parameter `Texts`.
mod Yields
pub mod Fields
pub mod Injective
pub mod Roundtrip
use shbox.Prelude.{
  ℕ, Bool, true, false, not, ◌&&◌, ◌||◌, ◌==◌, leb, ltb, Option, none, some, List, [], ◌∷◌, ◌++◌,
  ◌*◌, length, all, if◌then◌else◌,
}
use shbox.Prelude.Ascii.{is_digit}
use shbox.Prelude.Bytes.{Bytes, bytes_eq, codes}
use shbox.Names.SandboxId
use shbox.Names.Fingerprint
use shbox.Subid.Ledger.{
  LeaseRecord, LeaseState, Error, invalid_lease_id, invalid_sandbox_id, invalid_owner,
  invalid_quarantine_reason, too_large, not_utf8, toml, unsupported_version, mismatched_lease_id,
  zero_id, Result, ok, err, as_str, parse_state, is_quarantined,
}

abbrev pub version : ℕ
version = 1

abbrev pub max_record_bytes : ℕ
max_record_bytes = 4 * 1024

abbrev pub lease_id_hex : ℕ
lease_id_hex = 32

-- `byte.is_ascii_digit() || (b'a'..=b'f').contains(&byte)`
unfoldable pub is_lower_hex : ℕ → Bool
is_lower_hex b = is_digit b || leb 97 b && leb b 102

unfoldable pub validate_lease_id : Bytes → Result (Unit {0})
validate_lease_id id =
    if length id == lease_id_hex && all is_lower_hex id then ok tt else err (invalid_lease_id id)

pub record RawLease : Type 0 where
  pub version : ℕ
  pub lease_id : Bytes
  pub sandbox_id : Bytes
  pub owner : Bytes
  pub uid : ℕ
  pub gid : ℕ
  pub state : Bytes
  pub quarantine_reason : Option Bytes

-- `from_utf8` and `toml::from_str`, and the formats `{:?}` of a text and `{}` of a number.
pub record Texts : Type 0 where
  pub from_utf8 : Bytes → Option Bytes
  pub from_str : Bytes → Option RawLease
  pub debug : Bytes → Bytes
  pub display : ℕ → Bytes

-- `?` on a result, and on an option that `ok_or` or `map_err` gives an error.
abbrev pub check {ℓ κ} : {A : Type ℓ} {B : Type κ} → Result A → (A → Result B) → Result B
check (ok a) k = k a
check (err e) k = err e

abbrev pub or_error {ℓ κ} : {A : Type ℓ} {B : Type κ} → Option A → Error → (A → Result B) → Result B
or_error (some a) e k = k a
or_error none e k = err e

abbrev pub sandbox_id_of : SandboxId.Parsed → Result Bytes
sandbox_id_of (SandboxId.valid id) = ok id
sandbox_id_of (SandboxId.invalid e) = err invalid_sandbox_id

abbrev pub owner_of : Fingerprint.Decoded Bytes → Result Bytes
owner_of (Fingerprint.ok owner) = ok owner
owner_of (Fingerprint.err e) = err invalid_owner

abbrev pub is_some : Option Bytes → Bool
is_some (some reason) = true
is_some none = false

-- `decode` from the check of the owner on.
unfoldable pub decode_fields : RawLease → Bytes → Bytes → Result LeaseRecord
decode_fields raw id owner =
    if raw.uid == 0 || raw.gid == 0
    then err zero_id
    else check (parse_state raw.state) (λ state.
      if is_some raw.quarantine_reason && not (is_quarantined state)
      then err invalid_quarantine_reason
      else ok (record {
        lease_id = raw.lease_id;
        sandbox_id = id;
        owner = owner;
        uid = raw.uid;
        gid = raw.gid;
        state = state;
        quarantine_reason = raw.quarantine_reason;
      }))

-- `decode` from the parsed document on.
unfoldable pub decode_raw : Bytes → RawLease → Result LeaseRecord
decode_raw expected raw =
    if not (raw.version == version)
    then err (unsupported_version raw.version)
    else if not (bytes_eq raw.lease_id expected)
    then err (mismatched_lease_id expected raw.lease_id)
    else check (validate_lease_id raw.lease_id) (λ _.
      check (sandbox_id_of (SandboxId.parse raw.sandbox_id)) (λ id.
        check (owner_of (Fingerprint.parse raw.owner)) (λ owner. decode_fields raw id owner)))

module _ (texts : Texts) where
  unfoldable pub decode : Bytes → Bytes → Result LeaseRecord
  decode bytes expected =
      if ltb max_record_bytes (length bytes)
      then err (too_large (length bytes))
      else check (validate_lease_id expected) (λ _.
        or_error (Texts.from_utf8 texts bytes) not_utf8
          (λ text. or_error (Texts.from_str texts text) toml (λ raw. decode_raw expected raw)))

  -- One line of `encode`: a key and its value.
  abbrev pub line : Bytes → Bytes → Bytes
  line key value = key ++ codes " = " ++ value ++ 10 ∷ []

  abbrev pub reason_line : Option Bytes → Bytes
  reason_line none = []
  reason_line (some reason) = line (codes "quarantine_reason") (Texts.debug texts reason)

  unfoldable pub encode : LeaseRecord → Bytes
  encode r =
      line (codes "version") (Texts.display texts version)
      ++ line (codes "lease_id") (Texts.debug texts r.lease_id)
      ++ line (codes "sandbox_id") (Texts.debug texts r.sandbox_id)
      ++ line (codes "owner") (Texts.debug texts r.owner)
      ++ line (codes "uid") (Texts.display texts r.uid)
      ++ line (codes "gid") (Texts.display texts r.gid)
      ++ line (codes "state") (Texts.debug texts (as_str r.state))
      ++ reason_line r.quarantine_reason

-- `LeaseRecord::file_name`
abbrev pub record_suffix : Bytes
record_suffix = codes ".toml"

unfoldable pub file_name : LeaseRecord → Bytes
file_name r = r.lease_id ++ record_suffix
