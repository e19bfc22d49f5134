-- ===== src/Prelude/Ascii.antt =====
-- The ASCII classes of a byte, as `u8::is_ascii_digit` and `u8::is_ascii_alphanumeric` test them.
use Prim.Native.Nat.{ℕ}
use mathlib.Core.Bool.{Bool, ◌&&◌, ◌||◌}
use shbox.Prelude.Tests.{leb}

unfoldable pub is_digit : ℕ → Bool
is_digit b = leb 48 b && leb b 57

unfoldable pub is_alphanumeric : ℕ → Bool
unfolding is_digit
is_alphanumeric b = is_digit b || leb 65 b && leb b 90 || leb 97 b && leb b 122
