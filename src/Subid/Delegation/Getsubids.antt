-- ===== src/Subid/Delegation/Getsubids.antt =====
-- `parse_getsubids_output` of crates/shbox/src/sandbox/subid/delegation.rs, over code points, with what
-- it uses of `str`.
use shbox.Prelude.{
  ℕ, Bool, true, false, ◌&&◌, ◌||◌, ◌==◌, leb, ltb, ◌+◌, ◌-◌, ◌*◌, Option, none, some, List, [],
  ◌∷◌, if◌then◌else◌,
}
use shbox.Prelude.Ascii.{is_digit}
use shbox.Prelude.Bytes.{Bytes}
use shbox.Subid.Delegation.{SubidRange, RangeError, RangeResult, new, u32_mod, u64_mod}

-- `Error::MalformedLine` and `Error::MalformedRange`
pub data ParseError : Type 0 where
  malformed_line : Bytes → ParseError
  malformed_range : Bytes → RangeError → ParseError

pub data Parsed (A : Type 0) : Type 0 where
  ok : A → Parsed A
  err : ParseError → Parsed A

-- `char::is_whitespace`, the property White_Space of Unicode.
unfoldable pub is_whitespace : ℕ → Bool
is_whitespace c =
    leb 9 c && leb c 13
    || c == 0x20
    || c == 0x85
    || c == 0xa0
    || c == 0x1680
    || leb 0x2000 c && leb c 0x200a
    || c == 0x2028
    || c == 0x2029
    || c == 0x202f
    || c == 0x205f
    || c == 0x3000

abbrev pub add_first : ℕ → List Bytes → List Bytes
add_first c [] = (c ∷ []) ∷ []
add_first c (part ∷ parts) = (c ∷ part) ∷ parts

abbrev pub begins_newline : Bytes → Bool
begins_newline [] = false
begins_newline (c ∷ text) = c == 10

-- `str::lines`: a line ends at a newline, with a carriage return before it or not.
unfoldable pub lines : Bytes → List Bytes
lines [] = []
lines (c ∷ text) =
    let rest = lines text in
    if c == 10 then [] ∷ rest else if c == 13 && begins_newline text then rest else add_first c rest

abbrev pub is_nil : Bytes → Bool
is_nil [] = true
is_nil (c ∷ text) = false

unfoldable pub trim_end : Bytes → Bytes
trim_end [] = []
trim_end (c ∷ text) =
    let rest = trim_end text in if is_nil rest && is_whitespace c then [] else c ∷ rest

unfoldable pub trim_start : Bytes → Bytes
trim_start [] = []
trim_start (c ∷ text) = let rest = trim_start text in if is_whitespace c then rest else c ∷ text

abbrev pub before_add : ℕ → Option (Bytes × Bytes) → Option (Bytes × Bytes)
before_add c none = none
before_add c (some (before, after)) = some (c ∷ before, after)

-- `split_once(':')`
unfoldable pub split_once : Bytes → Option (Bytes × Bytes)
split_once [] = none
split_once (c ∷ text) =
    let later = split_once text in if c == 58 then some ([], text) else before_add c later

-- The parts between white space; `split_whitespace` leaves out the empty ones.
unfoldable pub parts : Bytes → List Bytes
parts [] = [] ∷ []
parts (c ∷ text) = let rest = parts text in if is_whitespace c then [] ∷ rest else add_first c rest

unfoldable pub nonempty : List Bytes → List Bytes
nonempty [] = []
nonempty (part ∷ rest) = let kept = nonempty rest in if is_nil part then kept else part ∷ kept

-- The digits of `parse::<u32>` and `parse::<u64>`, which fail where the number reaches the bound.
unfoldable pub digits : ℕ → ℕ → Bytes → Option ℕ
digits bound n [] = some n
digits bound n (c ∷ text) =
    let m = n * 10 + (c - 48) in
    let later = digits bound m text in if is_digit c && ltb m bound then later else none

abbrev pub unsigned : ℕ → Bytes → Option ℕ
unsigned bound [] = none
unsigned bound (c ∷ text) = digits bound 0 (c ∷ text)

-- A plus sign may stand before the digits.
unfoldable pub parse_number : ℕ → Bytes → Option ℕ
parse_number bound [] = none
parse_number bound (c ∷ text) = if c == 43 then unsigned bound text else unsigned bound (c ∷ text)

abbrev pub range_of : Bytes → RangeResult SubidRange → Parsed SubidRange
range_of line (RangeResult.ok r) = ok r
range_of line (RangeResult.err reason) = err (malformed_range line reason)

abbrev pub numbers : Bytes → Option ℕ → Option ℕ → Parsed SubidRange
numbers line (some start) (some count) = range_of line (new start count)
numbers line none _ = err (malformed_line line)
numbers line _ none = err (malformed_line line)

-- The name, the start and the count.
abbrev pub fields : Bytes → List Bytes → Parsed SubidRange
fields line (name ∷ start ∷ count ∷ []) =
    if is_nil name
    then err (malformed_line line)
    else numbers line (parse_number u64_mod start) (parse_number u64_mod count)
fields line _ = err (malformed_line line)

abbrev pub indexed : Bytes → Bytes → Option ℕ → Parsed SubidRange
indexed line rest none = err (malformed_line line)
indexed line rest (some index) = fields line (nonempty (parts rest))

abbrev pub halves : Bytes → Option (Bytes × Bytes) → Parsed SubidRange
halves line none = err (malformed_line line)
halves line (some (index, rest)) =
    indexed line rest (parse_number u32_mod (trim_start (trim_end index)))

-- A line that is not empty.
unfoldable pub parse_line : Bytes → Parsed SubidRange
parse_line line = halves line (split_once line)

abbrev pub add_range : Parsed SubidRange → Parsed (List SubidRange) → Parsed (List SubidRange)
add_range (err e) later = err e
add_range (ok r) (err e) = err e
add_range (ok r) (ok ranges) = ok (r ∷ ranges)

-- The loop over the lines.
unfoldable pub parse_lines : List Bytes → Parsed (List SubidRange)
parse_lines [] = ok []
parse_lines (line ∷ rest) =
    let trimmed = trim_end line in
    let later = parse_lines rest in
    if is_nil trimmed then later else add_range (parse_line trimmed) later

unfoldable pub parse_getsubids_output : Bytes → Parsed (List SubidRange)
parse_getsubids_output output = parse_lines (lines output)
