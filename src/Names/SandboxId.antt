-- ===== src/Names/SandboxId.antt =====
-- crates/shbox/src/sandbox/id.rs: the grammar of sandbox identifiers and its parser.
use shbox.Prelude.{
  ℕ, suc, Bool, true, false, not, ◌||◌, ◌==◌, ltb, ltb→lt, ◌≡◌, ◌<◌, ◌≤◌, ◌+◌, Option, none, some,
  [], ◌∷◌, ◌++◌, refl, ap, sym, subst, inl, inr, Bool-cases, length, All, arith, if◌then◌else◌,
}
use shbox.Prelude.Ascii.{is_alphanumeric}
use shbox.Prelude.Bytes.{Bytes}

abbrev pub max_id_bytes : ℕ
max_id_bytes = 64

pub data InvalidSandboxId : Type 0 where
  empty : InvalidSandboxId
  too_long : ℕ → InvalidSandboxId
  byte : ℕ → ℕ → InvalidSandboxId

pub data Parsed : Type 0 where
  valid : Bytes → Parsed
  invalid : InvalidSandboxId → Parsed

-- `byte.is_ascii_alphanumeric() || byte == b'-'`
unfoldable pub is_later : ℕ → Bool
is_later b = is_alphanumeric b || b == 45

-- The loop over the bytes from `index` on: the first that the grammar excludes.
unfoldable pub bad_from : ℕ → Bytes → Option (ℕ × ℕ)
bad_from index [] = none
bad_from index (b ∷ rest) =
    let later = bad_from (suc index) rest in if is_later b then later else some (index, b)

-- The answer of the loop as the parser's.
abbrev pub answer : Bytes → Option (ℕ × ℕ) → Parsed
answer raw none = valid raw
answer raw (some (index, b)) = invalid (byte index b)

unfoldable pub parse : Bytes → Parsed
parse [] = invalid empty
parse (first ∷ rest) =
    if ltb max_id_bytes (length (first ∷ rest))
    then invalid (too_long (length (first ∷ rest)))
    else if not (is_alphanumeric first)
    then invalid (byte 0 first)
    else answer (first ∷ rest) (bad_from 1 rest)

-- Every byte is allowed where it stands.
abbrev pub Allowed : Bytes → Type 0
Allowed [] = Unit
Allowed (first ∷ rest) = is_alphanumeric first ≡ true × All (λ b. is_later b ≡ true) rest

-- The documented grammar `[A-Za-z0-9][A-Za-z0-9-]{0,63}`.
abbrev pub IsSandboxId : Bytes → Type 0
IsSandboxId raw = 0 < length raw × length raw ≤ max_id_bytes × Allowed raw

-- The first byte of `raw` that stands where the grammar excludes it is `b`, at `index`.
abbrev pub IsFirstBad : Bytes → ℕ → ℕ → Type 0
IsFirstBad raw index b =
    (before : Bytes) × (after : Bytes) × raw ≡ before ++ b ∷ after
    × length before ≡ index
    × Allowed before
    × (if index == 0 then is_alphanumeric b else is_later b) ≡ false

-- What each answer of the parser says of its text.
abbrev pub Verdict : Bytes → Parsed → Type 0
Verdict raw (valid id) = id ≡ raw × IsSandboxId raw
Verdict raw (invalid empty) = raw ≡ []
Verdict raw (invalid (too_long n)) = n ≡ length raw × max_id_bytes < n
Verdict raw (invalid (byte index b)) = length raw ≤ max_id_bytes × IsFirstBad raw index b

-- What the loop says of the bytes that it reads.
abbrev Scan : ℕ → Bytes → Option (ℕ × ℕ) → Type 0
Scan index rest none = All (λ b. is_later b ≡ true) rest
Scan index rest (some (at, b)) =
    (before : Bytes) × (after : Bytes) × rest ≡ before ++ b ∷ after
    × index + length before ≡ at
    × All (λ b. is_later b ≡ true) before
    × is_later b ≡ false

Scan-keep :
    (index b : ℕ) (rest : Bytes) (found : Option (ℕ × ℕ))
    → is_later b ≡ true
    → Scan (suc index) rest found
    → Scan index (b ∷ rest) found
Scan-keep index b rest none e h = (e, h)
Scan-keep index b rest (some (at, c)) e (before, after, split, place, fine, bad) =
    (b ∷ before, after, ap (b ∷◌) split, omega (arith, place), (e, fine), bad)

Scan-step :
    (index b : ℕ) (rest : Bytes) (found : Option (ℕ × ℕ))
    → Scan (suc index) rest found
    → Scan index (b ∷ rest) (if is_later b then found else some (index, b))
Scan-step index b rest found h = elim (Bool-cases (is_later b)) [
  | inl e ↦
      subst (λ t. Scan index (b ∷ rest) (if t then found else some (index, b))) (sym e)
        (Scan-keep index b rest found e h)
  | inr e ↦
      subst (λ t. Scan index (b ∷ rest) (if t then found else some (index, b))) (sym e)
        ([], rest, refl, omega arith, tt, e)
]

bad_from-Scan : (index : ℕ) (rest : Bytes) → Scan index rest (bad_from index rest)
unfolding bad_from
bad_from-Scan index [] = tt
bad_from-Scan index (b ∷ rest) =
    Scan-step index b rest (bad_from (suc index) rest) (bad_from-Scan (suc index) rest)

answer-Verdict :
    (first : ℕ) (rest : Bytes) (found : Option (ℕ × ℕ))
    → is_alphanumeric first ≡ true
    → suc (length rest) ≤ max_id_bytes
    → Scan 1 rest found
    → Verdict (first ∷ rest) (answer (first ∷ rest) found)
answer-Verdict first rest none e fits h = (refl, (omega arith, fits, (e, h)))
answer-Verdict first rest (some (at, b)) e fits (before, after, split, place, fine, bad) = (
  fits,
  (
    first ∷ before,
    after,
    ap (first ∷◌) split,
    omega (arith, place),
    (e, fine),
    ground (arith, place, bad),
  ),
)

-- The tests of `parse` on a text that is not empty, by their values.
tests-Verdict :
    (first : ℕ) (rest : Bytes) (long : Bool) (starts : Bool)
    → ltb max_id_bytes (suc (length rest)) ≡ long
    → is_alphanumeric first ≡ starts
    → Verdict (first ∷ rest) (
        if long
        then invalid (too_long (suc (length rest)))
        else if not starts
        then invalid (byte 0 first)
        else answer (first ∷ rest) (bad_from 1 rest))
tests-Verdict first rest true starts l e = (refl, ltb→lt max_id_bytes (suc (length rest)) l)
tests-Verdict first rest false false l e = (ground (arith, l), ([], rest, refl, refl, tt, e))
tests-Verdict first rest false true l e =
    answer-Verdict first rest (bad_from 1 rest) e (ground (arith, l)) (bad_from-Scan 1 rest)

-- Parsing a text as a sandbox ID answers for every text: it accepts the text unchanged if it
-- matches the documented grammar; otherwise the error is the right one: empty for the empty text,
-- too long with the length for more than 64 bytes, and else the first byte that the grammar
-- excludes, with its position.
pub parse-Verdict : (raw : Bytes) → Verdict raw (parse raw)
unfolding parse
parse-Verdict [] = refl
parse-Verdict (first ∷ rest) =
    tests-Verdict first rest (ltb max_id_bytes (suc (length rest))) (is_alphanumeric first) refl
      refl

bad_from-All :
    (index : ℕ) (rest : Bytes) → All (λ b. is_later b ≡ true) rest → bad_from index rest ≡ none
unfolding bad_from
bad_from-All index [] h = refl
bad_from-All index (b ∷ rest) (e, h) =
    subst (λ t. (if t then bad_from (suc index) rest else some (index, b)) ≡ none) (sym e)
      (bad_from-All (suc index) rest h)

-- Every text of the documented grammar is accepted.
pub parse-valid : (raw : Bytes) → IsSandboxId raw → parse raw ≡ valid raw
unfolding parse
parse-valid [] (some_byte, fits, allowed) = ground (arith, some_byte)
parse-valid (first ∷ rest) (some_byte, fits, (e, h)) =
    ground (arith, fits, e, bad_from-All 1 rest h)
