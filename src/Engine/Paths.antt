-- ===== src/Engine/Paths.antt =====
-- What crates/shbox-sandbox/src/validate.rs uses of `std::path` on Unix.
use shbox.Prelude.{
  ℕ, Bool, true, false, ◌&&◌, ◌||◌, ◌≡◌, ◌↔◌, refl, sym, ap, ap₂, ◌∙◌, List, [], ◌∷◌, ◌++◌, ◌==◌,
  if◌then◌else◌, arith,
}
use shbox.Prelude.Bytes.{Bytes, bytes_eq, bytes_eq_iff, codes}

abbrev pub slash : ℕ
slash = 47

unfoldable pub is_absolute : Bytes → Bool
is_absolute [] = false
is_absolute (b ∷ path) = b == slash

abbrev pub with_byte : ℕ → List Bytes → List Bytes
with_byte b [] = (b ∷ []) ∷ []
with_byte b (part ∷ parts) = (b ∷ part) ∷ parts

-- The parts between slashes.
unfoldable pub split : Bytes → List Bytes
split [] = [] ∷ []
split (b ∷ path) = let parts = split path in if b == slash then [] ∷ parts else with_byte b parts

-- `components` leaves out empty parts and those that are a dot.
unfoldable pub drop_empty : List Bytes → List Bytes
drop_empty [] = []
drop_empty (part ∷ parts) =
    let rest = drop_empty parts in
    if bytes_eq part [] || bytes_eq part (codes ".") then rest else part ∷ rest

-- `Path::components`, with the root and a leading dot of a relative path as parts of their own.
unfoldable pub components : Bytes → List Bytes
components path =
    if is_absolute path then (slash ∷ []) ∷ drop_empty (split path) else leading (split path)
  where
    leading : List Bytes → List Bytes
    leading [] = []
    leading (part ∷ parts) =
        if bytes_eq part (codes ".") then part ∷ drop_empty parts else drop_empty (part ∷ parts)

unfoldable pub is_prefix : List Bytes → List Bytes → Bool
is_prefix [] parts = true
is_prefix (p ∷ before) [] = false
is_prefix (p ∷ before) (q ∷ parts) = bytes_eq p q && is_prefix before parts

-- `Path::starts_with`
unfoldable pub starts_with : Bytes → Bytes → Bool
starts_with path base = is_prefix (components base) (components path)

-- Each component of the grant is the path's at the same place.
abbrev pub Beneath : Bytes → Bytes → Type 0
Beneath path grant = (rest : List Bytes) × (components path ≡ components grant ++ rest)

is_prefix-append : (before rest : List Bytes) → is_prefix before (before ++ rest) ≡ true
unfolding is_prefix
is_prefix-append [] rest = refl
is_prefix-append (p ∷ before) rest = ground (arith, bytes_eq_iff p p, is_prefix-append before rest)

is_prefix-rest :
    (before parts : List Bytes)
    → is_prefix before parts ≡ true
    → (rest : List Bytes) × (parts ≡ before ++ rest)
unfolding is_prefix
is_prefix-rest [] parts h = (parts, refl)
is_prefix-rest (p ∷ before) [] h = cc
is_prefix-rest (p ∷ before) (q ∷ parts) h =
    let same : p ≡ q = (bytes_eq_iff p q).0 (ground arith) in
    let (rest, later) = is_prefix-rest before parts (ground arith) in
    (rest, ap₂ ◌∷◌ (sym same) later)

pub starts_with_iff : (path base : Bytes) → (starts_with path base ≡ true) ↔ Beneath path base
unfolding starts_with
starts_with_iff path base = (
  is_prefix-rest (components base) (components path),
  λ h. ap (is_prefix (components base)) h.1 ∙ is_prefix-append (components base) h.0,
)

abbrev pub IsAbsolute : Bytes → Type 0
IsAbsolute path = (rest : Bytes) × (path ≡ slash ∷ rest)

pub is_absolute_iff : (path : Bytes) → (is_absolute path ≡ true) ↔ IsAbsolute path
unfolding is_absolute
is_absolute_iff [] = (λ h. cc, λ h. absurd (no_start h.0 h.1))
  where
    no_start : (rest : Bytes) → [] ≡ slash ∷ rest → ⊥
    no_start rest e = cc
is_absolute_iff (b ∷ path) = (λ h. (path, ap (λ c. c ∷ path) (ground arith)), λ h. starts h.0 h.1)
  where
    starts : (rest : Bytes) → b ∷ path ≡ slash ∷ rest → (b == slash) ≡ true
    starts rest e = ground arith
