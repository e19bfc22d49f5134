-- ===== src/Subid/Ledger/Disk/Names.antt =====
-- The names of crates/shbox/src/sandbox/subid/ledger.rs: the file name of a lease ID says which lease
-- it is, and it is neither a temp file nor the lock.
use shbox.Prelude.{
  ℕ, true, false, ◌≡◌, refl, sym, ap, ◌∙◌, [], ◌∷◌, ◌++◌, Option, none, some, arith, length,
  length-append, Bool-cases, inl, inr,
}
use shbox.Prelude.Ascii.{is_digit}
use shbox.Prelude.Bytes.{Bytes, bytes_eq, bytes_eq_iff}
use shbox.Subid.Ledger.{Result, ok, err}
use shbox.Subid.Ledger.Codec.{validate_lease_id, is_lower_hex, record_suffix}
use shbox.Subid.Ledger.Disk.{
  temp_prefix, with_first, strip_suffix, starts_with, is_skipped, lease_of, lease_named, checked,
}

strip_suffix_self : (suffix : Bytes) → strip_suffix suffix suffix ≡ some []
unfolding strip_suffix bytes_eq
strip_suffix_self [] = refl
strip_suffix_self (x ∷ suffix) = ground (arith, bytes_eq_iff (x ∷ suffix) (x ∷ suffix))

longer-bytes_eq : (x : ℕ) (front suffix : Bytes) → bytes_eq (x ∷ front ++ suffix) suffix ≡ false
longer-bytes_eq x front suffix = elim (Bool-cases (bytes_eq (x ∷ front ++ suffix) suffix)) [
  | inl e ↦
      let same = ap length ((bytes_eq_iff (x ∷ front ++ suffix) suffix).0 e) in
      absurd (omega (arith, same, length-append front suffix))
  | inr e ↦ e
]

pub strip_suffix-append :
    (suffix front : Bytes) → strip_suffix suffix (front ++ suffix) ≡ some front
unfolding strip_suffix
strip_suffix-append suffix [] = again
  where
    again : strip_suffix suffix suffix ≡ some []
    again = strip_suffix_self suffix
strip_suffix-append suffix (x ∷ front) =
    ground (arith, strip_suffix-append suffix front, longer-bytes_eq x front suffix)

with_first-some :
    (b : ℕ) (o : Option Bytes) (front : Bytes)
    → with_first b o ≡ some front
    → (rest : Bytes) × (o ≡ some rest) × (front ≡ b ∷ rest)
with_first-some b none front h = cc
with_first-some b (some rest) front h = (rest, refl, ground arith)

pub strip_suffix-some :
    (suffix name front : Bytes) → strip_suffix suffix name ≡ some front → name ≡ front ++ suffix
unfolding strip_suffix
strip_suffix-some suffix [] front h = ground (arith, bytes_eq_iff [] suffix)
strip_suffix-some suffix (x ∷ name) front h = elim (Bool-cases (bytes_eq (x ∷ name) suffix)) [
  | inl e ↦ ground (arith, bytes_eq_iff (x ∷ name) suffix)
  | inr e ↦
      let (rest, found, is_front) =
        with_first-some x (strip_suffix suffix name) front (ground arith) in
      ap (λ (t : Bytes). x ∷ t) (strip_suffix-some suffix name rest found)
      ∙ ap (λ (t : Bytes). t ++ suffix) (sym is_front)
]

pub suffix_cancel : (suffix a b : Bytes) → a ++ suffix ≡ b ++ suffix → a ≡ b
suffix_cancel suffix a b e =
    let left = strip_suffix-append suffix a in
    let right = strip_suffix-append suffix b in
    let same = ap (strip_suffix suffix) e in ground arith

first_hex :
    (id : Bytes)
    → validate_lease_id id ≡ ok tt
    → (x : ℕ) × (rest : Bytes) × (id ≡ x ∷ rest) × (is_lower_hex x ≡ true)
unfolding validate_lease_id
first_hex [] h = cc
first_hex (x ∷ rest) h = (x, rest, refl, ground arith)

undotted : (x : ℕ) (rest : Bytes) → is_lower_hex x ≡ true → is_skipped (x ∷ rest) ≡ false
unfolding is_skipped is_lower_hex starts_with bytes_eq is_digit
undotted x rest hex = ground arith

-- No lease ID starts with a dot.
pub is_skipped-lease :
    (id suffix : Bytes) → validate_lease_id id ≡ ok tt → is_skipped (id ++ suffix) ≡ false
is_skipped-lease id suffix h =
    let (x, rest, is_id, hex) = first_hex id h in rw is_id (undotted x (rest ++ suffix) hex)

pub starts_with-is_skipped :
    (name : Bytes) → starts_with temp_prefix name ≡ true → is_skipped name ≡ true
unfolding is_skipped
starts_with-is_skipped name h = rw h refl

pub starts_with-append : (before rest : Bytes) → starts_with before (before ++ rest) ≡ true
unfolding starts_with
starts_with-append [] rest = refl
starts_with-append (c ∷ before) rest = ground (arith, starts_with-append before rest)

lease_of_found :
    (name : Bytes) (found : Option Bytes) (id : Bytes)
    → lease_named name found ≡ ok id
    → (found ≡ some id) × (validate_lease_id id ≡ ok tt)
lease_of_found name none id h = cc
lease_of_found name (some front) id h = checked_ok name front (validate_lease_id front) refl h
  where
    checked_ok :
        (name front : Bytes) (r : Result (Unit {0}))
        → validate_lease_id front ≡ r
        → checked name front r ≡ ok id
        → (some front ≡ some id) × (validate_lease_id id ≡ ok tt)
    checked_ok name front (ok _) e k = ground arith
    checked_ok name front (err _) e k = cc

-- The name of a lease file is the lease ID with the suffix.
pub lease_of-ok :
    (name id : Bytes)
    → lease_of name ≡ ok id
    → (name ≡ id ++ record_suffix) × (validate_lease_id id ≡ ok tt)
unfolding lease_of
lease_of-ok name id h =
    let (found, fine) = lease_of_found name (strip_suffix record_suffix name) id h in
    (strip_suffix-some record_suffix name id found, fine)

pub lease_of-append :
    (id : Bytes) → validate_lease_id id ≡ ok tt → lease_of (id ++ record_suffix) ≡ ok id
unfolding lease_of
lease_of-append id h =
    ap (lease_named (id ++ record_suffix)) (strip_suffix-append record_suffix id)
    ∙ ap (checked (id ++ record_suffix) id) h
