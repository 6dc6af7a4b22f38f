-- ===== src/Prelude/Unicode.antt =====
-- The tables of package unicode, which the code reads through strings.ToLower, unicode.IsLetter
-- and unicode.IsDigit. The tables themselves are a parameter; what is assumed of them is what the
-- package documents for ASCII.
use omnivore_go.Prelude.Tests.{leb}
use omnivore_go.Prelude.Strings.{Text}
use Prim.Native.Nat.{ℕ, ◌+◌, ◌<◌}
use mathlib.Core.Path.{◌≡◌, refl}
use mathlib.Core.Bool.{Bool, ◌&&◌, ◌||◌}
use mathlib.Core.List.{map}
use omnivore_go.Prelude.Tests.{if◌then◌else◌}

abbrev pub is_upper_ascii : ℕ → Bool
is_upper_ascii c = leb b'A' c && leb c b'Z'

abbrev pub is_lower_ascii : ℕ → Bool
is_lower_ascii c = leb b'a' c && leb c b'z'

abbrev pub is_digit_ascii : ℕ → Bool
is_digit_ascii c = leb b'0' c && leb c b'9'

pub record Unicode : Type 0 where
  pub lower_rune : ℕ → ℕ
  pub is_letter : ℕ → Bool
  pub is_digit : ℕ → Bool
  pub lower_rune_ascii : (c : ℕ) → c < 128 → lower_rune c ≡ (if is_upper_ascii c then c + 32 else c)
  pub is_letter_ascii : (c : ℕ) → c < 128 → is_letter c ≡ (is_upper_ascii c || is_lower_ascii c)
  pub is_digit_ascii_only : (c : ℕ) → c < 128 → is_digit c ≡ is_digit_ascii c

-- strings.ToLower
abbrev pub to_lower : Unicode → Text → Text
to_lower u s = map u.lower_rune s

-- The tables of a program whose texts are ASCII.
abbrev pub ascii : Unicode
ascii = record {
  lower_rune = λ c. if is_upper_ascii c then c + 32 else c;
  is_letter = λ c. is_upper_ascii c || is_lower_ascii c;
  is_digit = is_digit_ascii;
  lower_rune_ascii = λ c h. refl;
  is_letter_ascii = λ c h. refl;
  is_digit_ascii_only = λ c h. refl;
}
