-- ===== src/Prelude/Strings.antt =====
-- Go strings as lists of code points, and the functions of package strings that the code calls.
use Prim.Native.Nat.{ℕ, ◌+◌}
use Prim.Native.Char.{code}
use Prim.Native.String.{String}
use mathlib.Core.Path.{◌≡◌, refl, ap}
use mathlib.Core.Logic.{◌↔◌}
use mathlib.Core.Bool.{Bool, true, false, ◌&&◌, ◌||◌}
use mathlib.Core.List.{List, [], ◌∷◌, ◌++◌}
use native.Mathlib.Omega.{arith}
use omnivore_go.Prelude.Tests.{ltb, leb, &&_true, ◌==◌, if◌then◌else◌}
use omnivore_go.Prelude.Lists.{length, drop}

abbrev pub Text : Type 0
Text = List ℕ

-- The code points of a literal.
abbrev pub codes : String → Text
codes String.[] = []
codes (String.◌∷◌ c s) = code c ∷ codes s

-- The bytes of a code point in UTF-8.
unfoldable pub rune_length : ℕ → ℕ
rune_length c = if ltb c 0x80 then 1 else if ltb c 0x800 then 2 else if ltb c 0x10000 then 3 else 4

-- len of a string, in bytes
unfoldable pub byte_length : Text → ℕ
unfolding rune_length
byte_length [] = 0
byte_length (c ∷ s) = rune_length c + byte_length s

-- Equality of two Go strings.
unfoldable pub text_eq : Text → Text → Bool
text_eq [] [] = true
text_eq [] (d ∷ t) = false
text_eq (c ∷ s) [] = false
text_eq (c ∷ s) (d ∷ t) = c == d && text_eq s t

pub text_eq_refl : (s : Text) → text_eq s s ≡ true
unfolding text_eq
text_eq_refl [] = refl
text_eq_refl (c ∷ s) = ground (arith, text_eq_refl s)

pub text_eq→eq : (s t : Text) → text_eq s t ≡ true → s ≡ t
unfolding text_eq
text_eq→eq [] [] h = refl
text_eq→eq [] (d ∷ t) h = ground arith
text_eq→eq (c ∷ s) [] h = ground arith
text_eq→eq (c ∷ s) (d ∷ t) h = ground (arith, text_eq→eq s t)

pub text_eq_iff : (s t : Text) → (text_eq s t ≡ true) ↔ (s ≡ t)
text_eq_iff s t = (text_eq→eq s t, λ e. rw e (text_eq_refl t))

-- strings.HasPrefix
unfoldable pub has_prefix : Text → Text → Bool
has_prefix s [] = true
has_prefix [] (d ∷ p) = false
has_prefix (c ∷ s) (d ∷ p) = c == d && has_prefix s p

-- strings.TrimPrefix
unfoldable pub trim_prefix : Text → Text → Text
trim_prefix s p = if has_prefix s p then drop (length p) s else s

pub has_prefix-append : (p s : Text) → has_prefix (p ++ s) p ≡ true
unfolding has_prefix
has_prefix-append [] s = refl
has_prefix-append (c ∷ p) s = ground (arith, has_prefix-append p s)

prefix-drop : (p s : Text) → has_prefix s p ≡ true → p ++ drop (length p) s ≡ s
unfolding has_prefix
prefix-drop [] s h = refl
prefix-drop (d ∷ p) [] h = absurd (cc)
prefix-drop (d ∷ p) (c ∷ s) h =
    let (same, rest) = &&_true (c == d) (has_prefix s p) h in
    let equal : d ≡ c = ground (arith, same) in rw (prefix-drop p s rest) (ap (λ x. x ∷ s) equal)

pub prefix-trim_prefix : (p s : Text) → has_prefix s p ≡ true → p ++ trim_prefix s p ≡ s
unfolding trim_prefix
prefix-trim_prefix p s h = rw h (prefix-drop p s h)

-- unicode.IsSpace
unfoldable pub is_space : ℕ → Bool
is_space c =
    (leb 9 c && leb c 13)
    || c == 32
    || c == 0x85
    || c == 0xA0
    || c == 0x1680
    || (leb 0x2000 c && leb c 0x200a)
    || c == 0x2028
    || c == 0x2029
    || c == 0x202f
    || c == 0x205f
    || c == 0x3000

-- The token that is being read is put before the tokens of the rest, unless it is empty.
unfoldable pub push_token : Text → List Text → List Text
push_token [] ts = ts
push_token (c ∷ s) ts = (c ∷ s) ∷ ts

unfoldable pub fields_from : Text → Text → List Text
fields_from cur [] = push_token cur []
fields_from cur (c ∷ s) = elim (is_space c) [
  | true ↦ push_token cur (fields_from [] s)
  | false ↦ fields_from (cur ++ c ∷ []) s
]

-- strings.Fields
unfoldable pub fields : Text → List Text
unfolding fields_from push_token is_space
fields s = fields_from [] s

-- strings.Join
unfoldable pub join : List Text → Text → Text
join [] sep = []
join (t ∷ []) sep = t
join (t ∷ u ∷ ts) sep = t ++ (sep ++ join (u ∷ ts) sep)

-- strings.TrimLeft by a test on one code point
unfoldable pub trim_left : (ℕ → Bool) → Text → Text
trim_left p [] = []
trim_left p (c ∷ s) = let rest = trim_left p s in if p c then rest else c ∷ s

-- strings.TrimRight by a test on one code point
unfoldable pub trim_right : (ℕ → Bool) → Text → Text
trim_right p [] = []
trim_right p (c ∷ s) =
    let rest = trim_right p s in elim rest [ [] ↦ if p c then [] else c ∷ [] | d ∷ r ↦ c ∷ d ∷ r ]

-- strings.TrimFunc
unfoldable pub trim : (ℕ → Bool) → Text → Text
unfolding trim_left trim_right
trim p s = trim_right p (trim_left p s)

-- strings.Contains of one code point
unfoldable pub contains_rune : Text → ℕ → Bool
contains_rune [] c = false
contains_rune (d ∷ s) c = d == c || contains_rune s c

-- The text before the first `c`, and the text behind it.
unfoldable pub before : ℕ → Text → Text
before c [] = []
before c (d ∷ s) = if d == c then [] else d ∷ before c s

unfoldable pub after : ℕ → Text → Text
after c [] = []
after c (d ∷ s) = if d == c then s else after c s

-- strings.SplitN(s, sep, 2) at a separator of one code point
unfoldable pub split_two : Text → ℕ → List Text
unfolding contains_rune before after
split_two s c = if contains_rune s c then before c s ∷ after c s ∷ [] else s ∷ []
