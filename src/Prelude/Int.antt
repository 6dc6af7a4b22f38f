-- ===== src/Prelude/Int.antt =====
-- Go's int as a signed number, decimal printing by fmt.Sprintf("%d"), and reading by
-- fmt.Sscanf("%d").
use mathlib.Core.Path.{◌≡◌, refl, sym, ap, ◌∙◌}
use mathlib.Core.Bool.{Bool, true, false, ◌&&◌, not}
use mathlib.Core.Option.{Option, none, some}
use mathlib.Core.List.{[], ◌∷◌}
use native.Mathlib.Omega.{arith}
use Prim.Native.Nat.{ℕ, zero, suc, ◌+◌, ◌-◌, ◌*◌, ◌/◌, ◌%◌, ◌^◌, ◌≤◌, ◌<◌}
use omnivore_go.Prelude.Tests.{ltb, leb, ◌==◌, if◌then◌else◌, Bool-cases}
use mathlib.Core.Logic.{inl, inr}
use omnivore_go.Prelude.Strings.{Text, is_space}

-- `negsuc n` is -(n + 1).
pub data ℤ : Type 0 where
  pos : ℕ → ℤ
  negsuc : ℕ → ℤ

abbrev pub max_int64 : ℕ
max_int64 = 2 ^ 63 - 1

abbrev pub ltb_int : ℤ → ℤ → Bool
ltb_int (pos m) (pos n) = ltb m n
ltb_int (pos m) (negsuc n) = false
ltb_int (negsuc m) (pos n) = true
ltb_int (negsuc m) (negsuc n) = ltb n m

abbrev pub eq_int : ℤ → ℤ → Bool
eq_int (pos m) (pos n) = m == n
eq_int (pos m) (negsuc n) = false
eq_int (negsuc m) (pos n) = false
eq_int (negsuc m) (negsuc n) = m == n

-- The bits of an int64, and the number that 64 bits stand for
abbrev bits64 : ℤ → ℕ
bits64 (pos n) = n
bits64 (negsuc n) = 2 ^ 64 - n - 1

abbrev signed64 : ℕ → ℤ
signed64 w = if leb w max_int64 then pos w else negsuc (2 ^ 64 - w - 1)

-- a + b in two's complement
unfoldable pub add64 : ℤ → ℤ → ℤ
add64 a b = signed64 ((bits64 a + bits64 b) % 2 ^ 64)

pub add64-pos : (m n : ℕ) → m + n ≤ max_int64 → add64 (pos m) (pos n) ≡ pos (m + n)
unfolding add64
add64-pos m n h = ground arith

abbrev pub is_digit : ℕ → Bool
is_digit c = leb b'0' c && leb c b'9'

-- The digits at the front of a text, read behind `n`; the Boolean says that one was read.
unfoldable pub read_digits : ℕ → Bool → Text → Option ℕ
read_digits n seen [] = if seen then some n else none
read_digits n seen (c ∷ s) =
    let rest = read_digits (n * 10 + (c - b'0')) true s in
    if is_digit c then rest else if seen then some n else none

-- A sign and the digits; a number that an int64 cannot hold is an error.
unfoldable pub read_signed : Text → Option ℤ
unfolding read_digits
read_signed [] = none
read_signed (c ∷ s) =
    if c == b'-'
    then elim (read_digits 0 false s) [
      | none ↦ none
      | some zero ↦ some (pos 0)
      | some (suc n) ↦ if leb n max_int64 then some (negsuc n) else none
    ]
    else elim (read_digits 0 false (if c == b'+' then s else c ∷ s)) [
      | none ↦ none
      | some n ↦ if leb n max_int64 then some (pos n) else none
    ]

-- fmt.Sscanf(s, "%d", &n), `none` on an error; leading white space but a newline is skipped.
unfoldable pub scan_int : Text → Option ℤ
unfolding is_space read_signed
scan_int [] = none
scan_int (c ∷ s) =
    let rest = scan_int s in if is_space c && not (c == 10) then rest else read_signed (c ∷ s)

unfoldable pub digits : ℕ → ℕ → Text → Text
digits zero n out = out
digits (suc f) n out =
    let rest = digits f (n / 10) ((b'0' + n % 10) ∷ out) in
    if ltb n 10 then (b'0' + n) ∷ out else rest

-- fmt.Sprintf("%d", n) at a number that is not negative
unfoldable pub format_nat : ℕ → Text
unfolding digits
format_nat n = digits (suc n) n []

-- The value that digits add behind `n`, with no bound.
digits-read :
    (f n : ℕ) (out : Text) → n < f → read_digits 0 false (digits f n out) ≡ read_digits n true out
unfolding digits read_digits
digits-read zero n out h = absurd (omega arith)
digits-read (suc f) n out h = ground (arith, digits-read f (n / 10) ((b'0' + n % 10) ∷ out))

digits-small : (f n : ℕ) (out : Text) → ltb n 10 ≡ true → digits (suc f) n out ≡ (b'0' + n) ∷ out
unfolding digits
digits-small f n out h = rw (h, digits)

digits-large :
    (f n : ℕ) (out : Text)
    → ltb n 10 ≡ false
    → digits (suc f) n out ≡ digits f (n / 10) ((b'0' + n % 10) ∷ out)
unfolding digits
digits-large f n out h = rw (h, digits)

digits-head :
    (f n : ℕ) (out : Text)
    → n < f
    → (d : ℕ) × (s : Text) × (digits f n out ≡ d ∷ s) × (b'0' ≤ d) × (d ≤ b'9')
digits-head zero n out h = absurd (omega arith)
digits-head (suc f) n out h = elim (Bool-cases (ltb n 10)) [
  | inl small ↦ (b'0' + n, out, digits-small f n out small, omega arith, ground arith)
  | inr large ↦
      let (d, s, e, lo, hi) = digits-head f (n / 10) ((b'0' + n % 10) ∷ out) (ground arith) in
      (d, s, digits-large f n out large ∙ e, lo, hi)
]

digit-not-space : (d : ℕ) → b'0' ≤ d → d ≤ b'9' → is_space d ≡ false
unfolding is_space
digit-not-space d lo hi = ground arith

scan-signless :
    (d : ℕ) (s : Text)
    → b'0' ≤ d
    → d ≤ b'9'
    → scan_int (d ∷ s) ≡ elim (read_digits 0 false (d ∷ s)) [
      | none ↦ none
      | some n ↦ if leb n max_int64 then some (pos n) else none
    ]
unfolding scan_int
scan-signless d s lo hi = rw (digit-not-space d lo hi) (ground arith)

-- A number that an int64 holds is read back from its decimal print.
pub scan_int-format_nat : (n : ℕ) → n ≤ max_int64 → scan_int (format_nat n) ≡ some (pos n)
scan_int-format_nat n fits =
    let (d, s, e, lo, hi) = digits-head (suc n) n [] (omega arith) in
    let read : read_digits 0 false (d ∷ s) ≡ some n =
      sym (ap (read_digits 0 false) e)
      ∙ digits-read (suc n) n [] (omega arith)
      ∙ (unfold read_digits in refl) in
    let fit : leb n max_int64 ≡ true = ground arith in
    unfold format_nat in rw (e, scan-signless d s lo hi, read) (rw fit)

-- strconv.Atoi at a text without a sign, `none` on an error
unfoldable pub all_digits : Text → Bool
all_digits [] = true
all_digits (c ∷ s) = is_digit c && all_digits s

unfoldable pub atoi : Text → Option ℕ
unfolding all_digits read_digits
atoi s =
    if all_digits s
    then elim (read_digits 0 false s) [
      | none ↦ none
      | some n ↦ if leb n max_int64 then some n else none
    ]
    else none

-- Every number is read back from its digits.
pub read_digits-format_nat : (n : ℕ) → read_digits 0 false (format_nat n) ≡ some n
unfolding format_nat read_digits
read_digits-format_nat n = digits-read (suc n) n [] (omega arith)
