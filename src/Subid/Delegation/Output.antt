-- ===== src/Subid/Delegation/Output.antt =====
-- `parse_getsubids_output` of crates/shbox/src/sandbox/subid/delegation.rs reads what getsubids prints.
use shbox.Prelude.{ℕ, ◌≡◌, ◌≢◌, refl, ap, ap₂, ◌∙◌, some, List, [], ◌∷◌, ◌++◌, arith, All, ◌<◌, map}
use shbox.Prelude.Bytes.{Bytes}
use shbox.Subid.Delegation.{SubidRange, RangeResult, new, u32_mod, u64_mod}
use shbox.Subid.Delegation.Getsubids.{
  ok, lines, trim_end, trim_start, parts, nonempty, parse_number, range_of, numbers, fields,
  indexed, halves, parse_line, add_range, parse_lines, parse_getsubids_output,
}
use shbox.Subid.Delegation.Words.{
  IsDecimal, NoSpace, parse_number-decimal, digits-NoSpace, digits-NoColon, Unbroken,
  NoSpace-Unbroken, Unbroken-append, lines-line, split_once-index, parts-word, parts-space,
  EndsWell, trim_end-word, EndsWell-word, EndsWell-append, trim_start-word,
}

-- A range as getsubids prints it: its place in the list, the account, the start and the count.
pub record Line : Type 0 where
  pub place : ℕ
  pub index : Bytes
  pub name : Bytes
  pub start : Bytes
  pub count : Bytes
  pub range : SubidRange

pub record IsPrinted (l : Line) : Type 0 where
  pub place_lt : l.place < u32_mod
  pub start_lt : l.range.start < u64_mod
  pub count_lt : l.range.count < u64_mod
  pub index_digits : IsDecimal l.place l.index
  pub name_nonempty : l.name ≢ []
  pub name_plain : NoSpace l.name
  pub start_digits : IsDecimal l.range.start l.start
  pub count_digits : IsDecimal l.range.count l.count
  pub is_range : new l.range.start l.range.count ≡ RangeResult.ok l.range

abbrev pub after_index : Line → Bytes
after_index l = 32 ∷ (l.name ++ 32 ∷ (l.start ++ 32 ∷ l.count))

-- `<list-index>: <name> <start> <count>`
abbrev pub print_line : Line → Bytes
print_line l = l.index ++ 58 ∷ after_index l

abbrev pub print : List Line → Bytes
print [] = []
print (l ∷ ls) = print_line l ++ 10 ∷ print ls

after-EndsWell : (l : Line) → IsPrinted l → EndsWell (print_line l)
after-EndsWell l h = EndsWell-append l.index (58 ∷ after_index l) (
    EndsWell-append (58 ∷ 32 ∷ []) (l.name ++ 32 ∷ (l.start ++ 32 ∷ l.count)) (
      EndsWell-append l.name (32 ∷ (l.start ++ 32 ∷ l.count)) (
        EndsWell-append (32 ∷ []) (l.start ++ 32 ∷ l.count) (
          EndsWell-append l.start (32 ∷ l.count) (
            EndsWell-append (32 ∷ []) l.count (
              EndsWell-word l.count h.count_digits.0 (digits-NoSpace l.count h.count_digits.1)))))))

plain_byte : (c : ℕ) → c ≢ 10 → c ≢ 13 → Unbroken (c ∷ [])
plain_byte c h k = ((h, k), tt)

line-Unbroken : (l : Line) → IsPrinted l → Unbroken (print_line l)
line-Unbroken l h =
    Unbroken-append l.index (58 ∷ after_index l)
      (NoSpace-Unbroken l.index (digits-NoSpace l.index h.index_digits.1))
      (Unbroken-append (58 ∷ 32 ∷ []) (l.name ++ 32 ∷ (l.start ++ 32 ∷ l.count)) marks (
        Unbroken-append l.name (32 ∷ (l.start ++ 32 ∷ l.count))
          (NoSpace-Unbroken l.name h.name_plain)
          (Unbroken-append (32 ∷ []) (l.start ++ 32 ∷ l.count) blank (
            Unbroken-append l.start (32 ∷ l.count)
              (NoSpace-Unbroken l.start (digits-NoSpace l.start h.start_digits.1))
              (Unbroken-append (32 ∷ []) l.count blank
                (NoSpace-Unbroken l.count (digits-NoSpace l.count h.count_digits.1)))))))
  where
    blank : Unbroken (32 ∷ [])
    blank = ground arith

    marks : Unbroken (58 ∷ 32 ∷ [])
    marks = ground arith

nonempty_words :
    (a b c : Bytes) → a ≢ [] → b ≢ [] → c ≢ [] → nonempty ([] ∷ a ∷ b ∷ c ∷ []) ≡ a ∷ b ∷ c ∷ []
unfolding nonempty
nonempty_words [] b c h i j = absurd (h refl)
nonempty_words (x ∷ a) [] c h i j = absurd (i refl)
nonempty_words (x ∷ a) (y ∷ b) [] h i j = absurd (j refl)
nonempty_words (x ∷ a) (y ∷ b) (z ∷ c) h i j = refl

fields-parts :
    (l : Line) → IsPrinted l → nonempty (parts (after_index l)) ≡ l.name ∷ l.start ∷ l.count ∷ []
fields-parts l h =
    ap nonempty (
      parts-space [] (l.name ++ 32 ∷ (l.start ++ 32 ∷ l.count)) tt
      ∙ ap ([] ∷◌) (
          parts-space l.name (l.start ++ 32 ∷ l.count) h.name_plain
          ∙ ap (l.name ∷◌) (
              parts-space l.start l.count (digits-NoSpace l.start h.start_digits.1)
              ∙ ap (l.start ∷◌) (parts-word l.count (digits-NoSpace l.count h.count_digits.1)))))
    ∙ nonempty_words l.name l.start l.count h.name_nonempty h.start_digits.0 h.count_digits.0

parse_line-print : (l : Line) → IsPrinted l → parse_line (print_line l) ≡ ok l.range
unfolding parse_line
parse_line-print l h =
    ap (halves line)
      (split_once-index l.index (after_index l) (digits-NoColon l.index h.index_digits.1))
    ∙ ap (indexed line (after_index l)) index_read
    ∙ ap (fields line) (fields-parts l h)
    ∙ named l.name h.name_nonempty
    ∙ ap₂ (numbers line)
        (parse_number-decimal u64_mod l.range.start l.start h.start_digits h.start_lt)
        (parse_number-decimal u64_mod l.range.count l.count h.count_digits h.count_lt)
    ∙ ap (range_of line) h.is_range
  where
    line : Bytes
    line = print_line l

    named :
        (name : Bytes)
        → name ≢ []
        → fields line (name ∷ l.start ∷ l.count ∷ [])
          ≡ numbers line (parse_number u64_mod l.start) (parse_number u64_mod l.count)
    named [] ne = absurd (ne refl)
    named (c ∷ name) ne = refl

    index_read : parse_number u32_mod (trim_start (trim_end l.index)) ≡ some l.place
    index_read =
        ap (λ (t : Bytes). parse_number u32_mod (trim_start t))
          (trim_end-word l.index (digits-NoSpace l.index h.index_digits.1))
        ∙ ap (parse_number u32_mod)
            (trim_start-word l.index (digits-NoSpace l.index h.index_digits.1))
        ∙ parse_number-decimal u32_mod l.place l.index h.index_digits h.place_lt

parse_lines-line :
    (l : Line) (rest : List Bytes)
    → IsPrinted l
    → parse_lines (print_line l ∷ rest) ≡ add_range (ok l.range) (parse_lines rest)
unfolding parse_lines
parse_lines-line l rest h =
    let (same, there) = after-EndsWell l h in rw same (rw there (rw (parse_line-print l h) refl))

-- The output of getsubids for a list of valid ranges, one line for each with its place in the list,
-- the account's name without white space, the start and the count in decimal digits, is parsed to
-- these ranges in this order.
pub parse-print :
    (ls : List Line)
    → All IsPrinted ls
    → parse_getsubids_output (print ls) ≡ ok (map (λ (l : Line). l.range) ls)
unfolding parse_getsubids_output
parse-print [] h = unfold lines parse_lines in refl
parse-print (l ∷ ls) h =
    ap parse_lines (lines-line (print_line l) (print ls) (line-Unbroken l h.0))
    ∙ parse_lines-line l (lines (print ls)) h.0
    ∙ ap (add_range (ok l.range)) (parse-print ls h.1)
