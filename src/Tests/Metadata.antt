-- ===== src/Tests/Metadata.antt =====
-- The record of a sandbox at a concrete text.
use shbox.Prelude.{◌≡◌, ◌↔◌, ◌++◌, refl, [], ◌∷◌, some, none, if◌then◌else◌, ltb, length, arith}
use shbox.Sandbox.Metadata.{Metadata, Documents, new_active, ok, as_str, encode, decode}
use shbox.Sandbox.Metadata.Decoding.{IsRecord, IsRecordText, raw_of, decoded_iff}
use shbox.Tests.Names.{owner, lease, lease-IsWellFormed}

abbrev box : Metadata
box = new_active lease.sandbox_id owner

-- A parser that knows one document.
abbrev documents : Documents
documents = record {
  from_utf8 = λ bytes. some bytes;
  from_str = λ text. if ltb (length text) 40 then none else some (raw_of box);
  debug = λ text. 34 ∷ text ++ 34 ∷ [];
  display = λ n. 49 ∷ [];
}

decoded_iff_example :
    (decode documents (encode documents box) box.id ≡ ok box)
    ↔ IsRecordText documents (encode documents box) box.id box
decoded_iff_example = decoded_iff documents (encode documents box) box.id box

box-IsRecord : IsRecord box
box-IsRecord = (lease-IsWellFormed.1, lease-IsWellFormed.2)

decode-run : decode documents (encode documents box) box.id ≡ ok box
unfolding encode as_str
decode-run =
    (decoded_iff documents (encode documents box) box.id box).1
      (omega arith, box-IsRecord, refl, encode documents box, refl, refl)
