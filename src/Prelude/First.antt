-- ===== src/Prelude/First.antt =====
-- The first element that passes a test, as a query with LIMIT 1 finds it.
use mathlib.Core.Path.{◌≡◌, sym}
use mathlib.Core.Logic.{inl, inr}
use mathlib.Core.Bool.{Bool, true, false}
use mathlib.Core.Option.{Option, none, some}
use mathlib.Core.List.{List, [], ◌∷◌, Mem, mem-cons_self, mem-cons_of_mem}
use omnivore_go.Prelude.Tests.{if◌then◌else◌, Bool-cases}
use omnivore_go.Prelude.Lists.{All}

abbrev pub first {ℓ} : {A : Type ℓ} → (A → Bool) → List A → Option A
first p [] = none
first p (x ∷ xs) = let rest = first p xs in if p x then some x else rest

pub first-none {ℓ} :
    {A : Type ℓ} (p : A → Bool) (xs : List A)
    → ◌≡◌ {A = Option (Option A)} (some (first p xs)) (some none)
    → All (λ x. p x ≡ false) xs
first-none p [] e = tt
first-none p (x ∷ xs) e = elim (Bool-cases (p x)) [
  | inl h ↦ let some_found = rw h at e in absurd (cc)
  | inr h ↦ (h, first-none p xs (rw h at e))
]

pub first-some {ℓ} :
    {A : Type ℓ} (p : A → Bool) (xs : List A) (a : A) (Q : A → Type 0)
    → ◌≡◌ {A = Option (Option A)} (some (first p xs)) (some (some a))
    → All Q xs
    → (p a ≡ true) × Q a
first-some p [] a Q e h = absurd (cc)
first-some p (x ∷ xs) a Q e (hx, h) = elim (Bool-cases (p x)) [
  | inl t ↦ let found = rw t at e in let same : x ≡ a = cc found in rw (sym same) (t, hx)
  | inr f ↦ first-some p xs a Q (rw f at e) h
]

pub first-Mem {ℓ} :
    {A : Type ℓ} (p : A → Bool) (xs : List A) (a : A)
    → ◌≡◌ {A = Option (Option A)} (some (first p xs)) (some (some a))
    → (p a ≡ true) × Mem a xs
first-Mem p [] a e = absurd (cc)
first-Mem p (x ∷ xs) a e = elim (Bool-cases (p x)) [
  | inl t ↦ let found = rw t at e in let same : x ≡ a = cc found in rw (sym same) (t, mem-cons_self)
  | inr f ↦ let (t, m) = first-Mem p xs a (rw f at e) in (t, mem-cons_of_mem x m)
]
