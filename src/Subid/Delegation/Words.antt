-- ===== src/Subid/Delegation/Words.antt =====
-- Words and numbers in the lines that crates/shbox/src/sandbox/subid/delegation.rs parses.
use shbox.Prelude.{
  ℕ, true, false, ◌≡◌, ◌≢◌, ◌+◌, ◌-◌, ◌*◌, refl, some, [], ◌∷◌, ◌++◌, arith, All, All-map, ◌<◌, ◌≤◌,
}
use shbox.Prelude.Ascii.{is_digit}
use shbox.Prelude.Bytes.{Bytes}
use shbox.Subid.Delegation.Getsubids.{
  is_whitespace, lines, is_nil, trim_end, trim_start, split_once, parts, digits, parse_number,
}

-- The number that decimal digits stand for, after those of `n`.
abbrev pub value : ℕ → Bytes → ℕ
value n [] = n
value n (c ∷ text) = value (n * 10 + (c - 48)) text

-- The decimal digits of a number, with leading zeros or not.
abbrev pub IsDecimal : ℕ → Bytes → Type 0
IsDecimal n text = (text ≢ []) × All (λ c. is_digit c ≡ true) text × (value 0 text ≡ n)

abbrev pub NoSpace : Bytes → Type 0
NoSpace text = All (λ c. is_whitespace c ≡ false) text

pub value_le : (n : ℕ) (text : Bytes) → n ≤ value n text
value_le n [] = omega arith
value_le n (c ∷ text) = omega (arith, value_le (n * 10 + (c - 48)) text)

pub digits-value :
    (bound n : ℕ) (text : Bytes)
    → All (λ c. is_digit c ≡ true) text
    → value n text < bound
    → digits bound n text ≡ some (value n text)
unfolding digits
digits-value bound n [] h k = refl
digits-value bound n (c ∷ text) h k = ground (
  arith,
  h.0,
  k,
  value_le (n * 10 + (c - 48)) text,
  digits-value bound (n * 10 + (c - 48)) text h.1,
)

pub digit_facts : (c : ℕ) → is_digit c ≡ true → (is_whitespace c ≡ false) × (c ≢ 58) × (c ≢ 43)
unfolding is_digit is_whitespace
digit_facts c h = (ground (arith, h), λ e. ground (arith, h, e), λ e. ground (arith, h, e))

pub parse_number-decimal :
    (bound n : ℕ) (text : Bytes) → IsDecimal n text → n < bound → parse_number bound text ≡ some n
unfolding parse_number
parse_number-decimal bound n [] (some_digit, all_digits, is_value) h = absurd (some_digit refl)
parse_number-decimal bound n (c ∷ text) (some_digit, all_digits, is_value) h =
    let (no_space, no_colon, no_plus) = digit_facts c all_digits.0 in
    let reads = digits-value bound 0 (c ∷ text) all_digits (rw is_value h) in
    ground (arith, no_plus, reads, is_value)

abbrev pub NoColon : Bytes → Type 0
NoColon text = All (λ c. c ≢ 58) text

pub digits-NoSpace : (text : Bytes) → All (λ c. is_digit c ≡ true) text → NoSpace text
digits-NoSpace text = All-map (λ c h. (digit_facts c h).0) text

pub digits-NoColon : (text : Bytes) → All (λ c. is_digit c ≡ true) text → NoColon text
digits-NoColon text = All-map (λ c h. (digit_facts c h).1) text

pub space : is_whitespace 32 ≡ true
unfolding is_whitespace
space = refl

-- Where no line ends.
abbrev pub Unbroken : Bytes → Type 0
Unbroken text = All (λ c. (c ≢ 10) × (c ≢ 13)) text

pub unbroken : (c : ℕ) → is_whitespace c ≡ false → (c ≢ 10) × (c ≢ 13)
unfolding is_whitespace
unbroken c h = (λ e. ground (arith, h, e), λ e. ground (arith, h, e))

pub NoSpace-Unbroken : (text : Bytes) → NoSpace text → Unbroken text
NoSpace-Unbroken text = All-map (λ c h. unbroken c h) text

pub Unbroken-append : (a b : Bytes) → Unbroken a → Unbroken b → Unbroken (a ++ b)
Unbroken-append [] b h k = k
Unbroken-append (c ∷ a) b h k = (h.0, Unbroken-append a b h.1 k)

pub lines-line : (line rest : Bytes) → Unbroken line → lines (line ++ 10 ∷ rest) ≡ line ∷ lines rest
unfolding lines
lines-line [] rest h = refl
lines-line (c ∷ line) rest h =
    let (not_newline, not_return) = h.0 in
    ground (arith, lines-line line rest h.1, not_newline, not_return)

pub split_once-index :
    (index rest : Bytes) → NoColon index → split_once (index ++ 58 ∷ rest) ≡ some (index, rest)
unfolding split_once
split_once-index [] rest h = refl
split_once-index (c ∷ index) rest h =
    let no_colon = h.0 in ground (arith, split_once-index index rest h.1, no_colon)

pub parts-word : (word : Bytes) → NoSpace word → parts word ≡ word ∷ []
unfolding parts
parts-word [] h = refl
parts-word (c ∷ word) h = rw h.0 (rw (parts-word word h.1) refl)

pub parts-space : (word rest : Bytes) → NoSpace word → parts (word ++ 32 ∷ rest) ≡ word ∷ parts rest
unfolding parts
parts-space [] rest h = rw space refl
parts-space (c ∷ word) rest h = rw h.0 (rw (parts-space word rest h.1) refl)

-- A text that ends in no white space.
abbrev pub EndsWell : Bytes → Type 0
EndsWell text = (trim_end text ≡ text) × (is_nil text ≡ false)

pub trim_end-word : (text : Bytes) → NoSpace text → trim_end text ≡ text
unfolding trim_end
trim_end-word [] h = refl
trim_end-word (c ∷ text) h = let no_space = h.0 in ground (arith, no_space, trim_end-word text h.1)

pub EndsWell-word : (word : Bytes) → word ≢ [] → NoSpace word → EndsWell word
EndsWell-word [] ne h = absurd (ne refl)
EndsWell-word (c ∷ word) ne h = (trim_end-word (c ∷ word) h, refl)

pub EndsWell-append : (a b : Bytes) → EndsWell b → EndsWell (a ++ b)
unfolding trim_end
EndsWell-append [] b h = h
EndsWell-append (c ∷ a) b h =
    let (same, there) = EndsWell-append a b h in (ground (arith, same, there), refl)

pub trim_start-word : (text : Bytes) → NoSpace text → trim_start text ≡ text
unfolding trim_start
trim_start-word [] h = refl
trim_start-word (c ∷ text) h = rw h.0 refl
