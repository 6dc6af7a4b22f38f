-- ===== src/SaveUrl/Private.antt =====
-- Which IPv4 addresses isPrivateIP rejects.
use omnivore_go.Prelude.{
  ℕ, suc, zero, ◌+◌, ◌*◌, ◌/◌, ◌%◌, ◌<◌, ◌≤◌, ltb, leb, ◌==◌, Text, codes, has_prefix, true, false,
  ◌&&◌, ◌||◌, [], ◌∷◌, ◌++◌, ◌≡◌, refl, ◌∙◌, arith, inl, inr, Bool-cases,
}
use omnivore_go.Prelude.Int.{format_nat, digits}
use omnivore_go.SaveUrl.Address.{is_private_ip, is_private_172, is_second_byte}

-- The digits of a number below 1000.
data Digits (n : ℕ) : Type 0 where
  one : n < 10 → format_nat n ≡ (b'0' + n) ∷ [] → Digits n
  two :
      (a b : ℕ)
      → n ≡ a * 10 + b
      → 0 < a
      → a < 10
      → b < 10
      → format_nat n ≡ (b'0' + a) ∷ (b'0' + b) ∷ []
      → Digits n
  three :
      (a b c : ℕ)
      → n ≡ a * 100 + b * 10 + c
      → 0 < a
      → a < 10
      → b < 10
      → c < 10
      → format_nat n ≡ (b'0' + a) ∷ (b'0' + b) ∷ (b'0' + c) ∷ []
      → Digits n

digits-small : (f n : ℕ) (out : Text) → ltb n 10 ≡ true → digits (suc f) n out ≡ (b'0' + n) ∷ out
unfolding digits
digits-small f n out h = rw (h, digits)

digits-large :
    (f n : ℕ) (out : Text)
    → ltb n 10 ≡ false
    → digits (suc f) n out ≡ digits f (n / 10) ((b'0' + n % 10) ∷ out)
unfolding digits
digits-large f n out h = rw (h, digits)

one_digit : (f n : ℕ) (out : Text) → 0 < f → n < 10 → digits f n out ≡ (b'0' + n) ∷ out
one_digit zero n out h k = absurd (omega arith)
one_digit (suc f) n out h k = digits-small f n out (ground (arith, k))

two_digits :
    (f n : ℕ) (out : Text)
    → 1 < f
    → 10 ≤ n
    → n < 100
    → digits f n out ≡ (b'0' + n / 10) ∷ (b'0' + n % 10) ∷ out
two_digits zero n out h lo hi = absurd (omega arith)
two_digits (suc f) n out h lo hi =
    digits-large f n out (ground (arith, lo))
    ∙ one_digit f (n / 10) ((b'0' + n % 10) ∷ out) (omega (arith, h)) (omega (arith, hi))

three_digits :
    (f n : ℕ) (out : Text)
    → 2 < f
    → 100 ≤ n
    → n < 1000
    → digits f n out ≡ (b'0' + n / 10 / 10) ∷ (b'0' + n / 10 % 10) ∷ (b'0' + n % 10) ∷ out
three_digits zero n out h lo hi = absurd (omega arith)
three_digits (suc f) n out h lo hi =
    digits-large f n out (ground (arith, lo))
    ∙ two_digits f (n / 10) ((b'0' + n % 10) ∷ out) (omega (arith, h)) (omega (arith, lo))
        (omega (arith, hi))

format_nat-Digits : (n : ℕ) → n < 256 → Digits n
unfolding format_nat
format_nat-Digits n h = elim (Bool-cases (ltb n 10)) [
  | inl e ↦ one (ground (arith, e)) (digits-small n n [] e)
  | inr e ↦ elim (Bool-cases (ltb n 100)) [
    | inl g ↦
        two (n / 10) (n % 10) (omega arith) (ground (arith, e)) (ground (arith, g)) (omega arith)
          (two_digits (suc n) n [] (ground (arith, e)) (ground (arith, e)) (ground (arith, g)))
    | inr g ↦
        three (n / 10 / 10) (n / 10 % 10) (n % 10) (omega arith) (ground (arith, g))
          (omega (arith, h)) (omega arith) (omega arith)
          (three_digits (suc n) n [] (ground (arith, g)) (ground (arith, g)) (omega (arith, h)))
  ]
]

-- An address in dotted form, whose last two bytes are `rest`.
abbrev pub dotted : ℕ → ℕ → Text → Text
dotted a b rest = format_nat a ++ (b'.' ∷ (format_nat b ++ (b'.' ∷ rest)))

short_second : (c : ℕ) (rest : Text) → is_second_byte (c ∷ b'.' ∷ rest) ≡ false
unfolding is_second_byte
short_second c [] = refl
short_second c (d ∷ rest) = ground arith

second_byte :
    (b : ℕ) (rest : Text)
    → b < 256
    → is_second_byte (format_nat b ++ (b'.' ∷ rest)) ≡ (leb 16 b && leb b 31)
unfolding is_second_byte
second_byte b rest h = elim (format_nat-Digits b h) [
  | one lo e ↦ rw (e, short_second (b'0' + b) rest) (ground (arith, lo))
  | two x y e lo hi hy f ↦ rw f (ground (arith, e, lo, hi, hy))
  | three x y z e lo hi hy hz f ↦ rw f (ground (arith, e, lo, hi, hy, hz))
]

class_a :
    (a : ℕ) (rest : Text)
    → a < 256
    → has_prefix (format_nat a ++ (b'.' ∷ rest)) (codes "10.") ≡ (a == 10)
unfolding has_prefix
class_a a rest h = elim (format_nat-Digits a h) [
  | one lo e ↦ rw e (ground (arith, lo))
  | two x y e lo hi hy f ↦ rw f (ground (arith, e, lo, hi, hy))
  | three x y z e lo hi hy hz f ↦ rw f (ground (arith, e, lo, hi, hy, hz))
]

class_b_short :
    (c b : ℕ) (rest : Text)
    → b < 256
    → is_private_172 (c ∷ b'.' ∷ (format_nat b ++ (b'.' ∷ rest))) ≡ false
unfolding is_private_172
class_b_short c b rest h = elim (format_nat-Digits b h) [
  | one lo e ↦ rw e (ground arith)
  | two x y e lo hi hy f ↦ rw f (ground arith)
  | three x y z e lo hi hy hz f ↦ rw f (ground arith)
]

class_b_middle :
    (c d b : ℕ) (rest : Text)
    → b < 256
    → is_private_172 (c ∷ d ∷ b'.' ∷ (format_nat b ++ (b'.' ∷ rest))) ≡ false
unfolding is_private_172
class_b_middle c d b rest h = elim (format_nat-Digits b h) [
  | one lo e ↦ rw e (ground arith)
  | two x y e lo hi hy f ↦ rw f (ground arith)
  | three x y z e lo hi hy hz f ↦ rw f (ground arith)
]

class_b :
    (a b : ℕ) (rest : Text)
    → a < 256
    → b < 256
    → is_private_172 (dotted a b rest) ≡ (a == 172 && (leb 16 b && leb b 31))
unfolding is_private_172
class_b a b rest h k = elim (format_nat-Digits a h) [
  | one lo e ↦ rw (e, class_b_short (b'0' + a) b rest k) (ground (arith, lo))
  | two x y e lo hi hy f ↦
      rw (f, class_b_middle (b'0' + x) (b'0' + y) b rest k) (ground (arith, e, lo, hi, hy))
  | three x y z e lo hi hy hz f ↦ rw (f, second_byte b rest k) (ground (arith, e, lo, hi, hy, hz))
]

byte_168 :
    (b : ℕ) (rest : Text)
    → b < 256
    → has_prefix (format_nat b ++ (b'.' ∷ rest)) (codes "168.") ≡ (b == 168)
unfolding has_prefix
byte_168 b rest h = elim (format_nat-Digits b h) [
  | one lo e ↦ rw e (ground (arith, lo))
  | two x y e lo hi hy f ↦ rw f (ground (arith, e, lo, hi, hy))
  | three x y z e lo hi hy hz f ↦ rw f (ground (arith, e, lo, hi, hy, hz))
]

three_then :
    (x y z : ℕ) (s : Text)
    → has_prefix (x ∷ y ∷ z ∷ b'.' ∷ s) (codes "192.168.")
      ≡ ((x == b'1' && y == b'9' && z == b'2') && has_prefix s (codes "168."))
unfolding has_prefix
three_then x y z s = ground arith

class_c :
    (a b : ℕ) (rest : Text)
    → a < 256
    → b < 256
    → has_prefix (dotted a b rest) (codes "192.168.") ≡ (a == 192 && b == 168)
class_c a b rest h k = elim (format_nat-Digits a h) [
  | one lo e ↦ rw e (unfold has_prefix in ground (arith, lo))
  | two x y e lo hi hy f ↦ rw f (unfold has_prefix in ground (arith, e, lo, hi, hy))
  | three x y z e lo hi hy hz f ↦
      rw
        (
          f,
          three_then (b'0' + x) (b'0' + y) (b'0' + z) (format_nat b ++ (b'.' ∷ rest)),
          byte_168 b rest k,
        )
        (ground (arith, e, lo, hi, hy, hz))
]

-- Of the hosts that are written as four bytes, isPrivateIP rejects exactly those of 10.0.0.0/8,
-- 172.16.0.0/12 and 192.168.0.0/16.
pub is_private_ip-dotted :
    (a b : ℕ) (rest : Text)
    → a < 256
    → b < 256
    → is_private_ip (dotted a b rest)
      ≡ (a == 10 || (a == 172 && (leb 16 b && leb b 31)) || (a == 192 && b == 168))
unfolding is_private_ip
is_private_ip-dotted a b rest h k =
    rw (class_a a (format_nat b ++ (b'.' ∷ rest)) h, class_b a b rest h k, class_c a b rest h k)
