-- ===== src/Names/Fingerprint/Base64.antt =====
-- Unpadded base64 by its own definition: the text of some bytes.
use shbox.Prelude.{[], ℕ, ◌==◌, ◌<◌, ◌+◌, ◌*◌, ◌/◌, ◌%◌, ◌-◌, List, ◌∷◌, map, All, if◌then◌else◌}
use shbox.Prelude.Bytes.{Bytes}
use shbox.Names.Fingerprint.{base64_alphabet}

-- The character of a value, and the values of a text of bytes, three of them to four values.
abbrev pub nth : ℕ → Bytes → ℕ
nth n [] = 0
nth n (c ∷ rest) = if n == 0 then c else nth (n - 1) rest

abbrev pub base64_char : ℕ → ℕ
base64_char v = nth v base64_alphabet

abbrev pub sextets : Bytes → List ℕ
sextets (a ∷ b ∷ c ∷ rest) =
    (a / 4) ∷ (a % 4 * 16 + b / 16) ∷ (b % 16 * 4 + c / 64) ∷ (c % 64) ∷ sextets rest
sextets (a ∷ b ∷ []) = (a / 4) ∷ (a % 4 * 16 + b / 16) ∷ (b % 16 * 4) ∷ []
sextets _ = []

-- The unpadded base64 text of some bytes.
abbrev pub encode : Bytes → Bytes
encode bytes = map base64_char (sextets bytes)

abbrev pub AreBytes : Bytes → Type 0
AreBytes bytes = All (λ b. b < 256) bytes

unfoldable pub Sextets : List ℕ → Type 0
Sextets vs = All (λ v. v < 64) vs
