-- ===== src/Sandbox/Metadata.antt =====
-- crates/shbox/src/sandbox/metadata.rs: the durable record of one sandbox. UTF-8 decoding, the TOML
-- parser and the formats of the standard library are the parameter `Documents`.
pub mod Decoding
use shbox.Prelude.{
  ℕ, Bool, true, false, not, ◌==◌, ltb, Option, none, some, [], ◌∷◌, ◌++◌, ◌*◌, length,
  if◌then◌else◌,
}
use shbox.Prelude.Bytes.{Bytes, bytes_eq, codes}
use shbox.Names.SandboxId
use shbox.Names.Fingerprint

abbrev pub version : ℕ
version = 1

abbrev pub max_bytes : ℕ
max_bytes = 16 * 1024

pub data State : Type 0 where
  active deleting : State

pub data Error : Type 0 where
  not_utf8 toml invalid_id invalid_owner : Error
  too_large unsupported_version : ℕ → Error
  mismatched_id : Bytes → Bytes → Error
  invalid_state : Bytes → Error

pub data Result (A : Type 0) : Type 0 where
  ok : A → Result A
  err : Error → Result A

unfoldable pub as_str : State → Bytes
as_str active = codes "active"
as_str deleting = codes "deleting"

unfoldable pub parse_state : Bytes → Result State
parse_state raw =
    if bytes_eq raw (codes "active")
    then ok active
    else if bytes_eq raw (codes "deleting")
    then ok deleting
    else err (invalid_state raw)

pub record Metadata : Type 0 where
  pub id : Bytes
  pub owner : Bytes
  pub state : State

-- `Metadata::active`
abbrev pub new_active : Bytes → Bytes → Metadata
new_active id owner = record { id = id; owner = owner; state = active }

abbrev pub with_state : Metadata → State → Metadata
with_state m state = record m { state = state }

pub record RawMetadata : Type 0 where
  pub version : ℕ
  pub id : Bytes
  pub owner : Bytes
  pub state : Bytes

-- `from_utf8` and `toml::from_str`, and the formats `{:?}` of a text and `{}` of a number.
pub record Documents : Type 0 where
  pub from_utf8 : Bytes → Option Bytes
  pub from_str : Bytes → Option RawMetadata
  pub debug : Bytes → Bytes
  pub display : ℕ → Bytes

abbrev pub check : {A B : Type 0} → Result A → (A → Result B) → Result B
check (ok a) k = k a
check (err e) k = err e

abbrev pub or_error : {A B : Type 0} → Option A → Error → (A → Result B) → Result B
or_error (some a) e k = k a
or_error none e k = err e

abbrev pub id_of : SandboxId.Parsed → Result Bytes
id_of (SandboxId.valid id) = ok id
id_of (SandboxId.invalid e) = err invalid_id

abbrev pub owner_of : Fingerprint.Decoded Bytes → Result Bytes
owner_of (Fingerprint.ok owner) = ok owner
owner_of (Fingerprint.err e) = err invalid_owner

-- `decode` from the parsed document on.
unfoldable pub decode_raw : Bytes → RawMetadata → Result Metadata
decode_raw expected raw =
    if not (raw.version == version)
    then err (unsupported_version raw.version)
    else check (id_of (SandboxId.parse raw.id)) (λ id.
      if not (bytes_eq id expected)
      then err (mismatched_id expected id)
      else check (owner_of (Fingerprint.parse raw.owner)) (λ owner.
        check (parse_state raw.state)
          (λ state. ok (record { id = id; owner = owner; state = state }))))

module _ (documents : Documents) where
  abbrev pub line : Bytes → Bytes → Bytes
  line key value = key ++ codes " = " ++ value ++ 10 ∷ []

  unfoldable pub encode : Metadata → Bytes
  encode m =
      line (codes "version") (documents.display version)
      ++ line (codes "id") (documents.debug m.id)
      ++ line (codes "owner") (documents.debug m.owner)
      ++ line (codes "state") (documents.debug (as_str m.state))

  unfoldable pub decode : Bytes → Bytes → Result Metadata
  decode bytes expected =
      if ltb max_bytes (length bytes)
      then err (too_large (length bytes))
      else or_error (documents.from_utf8 bytes) not_utf8
          (λ text. or_error (documents.from_str text) toml (λ raw. decode_raw expected raw))
