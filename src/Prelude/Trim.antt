-- ===== src/Prelude/Trim.antt =====
-- strings.TrimFunc: what is trimmed once stays as it is.
use mathlib.Core.Path.{◌≡◌, refl, ap, ◌∙◌}
use mathlib.Core.Logic.{inl, inr, ◌⊎◌}
use mathlib.Core.Bool.{Bool, true, false}
use mathlib.Core.List.{[], ◌∷◌}
use Prim.Native.Nat.{ℕ}
use omnivore_go.Prelude.Tests.{Bool-cases, if◌then◌else◌}
use omnivore_go.Prelude.Lists.{All}
use omnivore_go.Prelude.Strings.{Text, trim_left, trim_right, trim}

module _ (p : ℕ → Bool) where
  -- Either nothing is left, or the first code point stays.
  left_end :
      (s : Text)
      → (trim_left p s ≡ []) ⊎ ((c : ℕ) × (r : Text) × (trim_left p s ≡ c ∷ r) × (p c ≡ false))
  unfolding trim_left
  left_end [] = inl refl
  left_end (c ∷ s) = elim (Bool-cases (p c)) [
    | inl e ↦ rw e (left_end s)
    | inr e ↦ inr (c, s, (rw e), e)
  ]

  -- One step of TrimRight, from the right end.
  step : ℕ → Text → Text
  step c [] = if p c then [] else c ∷ []
  step c (d ∷ r) = c ∷ d ∷ r

  stepped :
      (c : ℕ) (r : Text)
      → (elim r as (λ x. Text) [ [] ↦ if p c then [] else c ∷ [] | d ∷ t ↦ c ∷ d ∷ t ]) ≡ step c r
  unfolding step
  stepped c [] = refl
  stepped c (d ∷ r) = refl

  trim_right-cons : (c : ℕ) (s : Text) → trim_right p (c ∷ s) ≡ step c (trim_right p s)
  unfolding trim_right
  trim_right-cons c s = stepped c (trim_right p s)

  step_head : (c : ℕ) (r : Text) → p c ≡ false → (t : Text) × (step c r ≡ c ∷ t)
  unfolding step
  step_head c [] e = ([], (rw e))
  step_head c (d ∷ r) e = (d ∷ r, refl)

  trim_right-step : (c : ℕ) (r : Text) → trim_right p r ≡ r → trim_right p (step c r) ≡ step c r
  unfolding step
  trim_right-step c [] h = elim (Bool-cases (p c)) [
    | inl e ↦ rw e (unfold trim_right in refl)
    | inr e ↦ rw e (trim_right-cons c [] ∙ (unfold step trim_right in rw e))
  ]
  trim_right-step c (d ∷ r) h = trim_right-cons c (d ∷ r) ∙ ap (step c) h

  right-right : (s : Text) → trim_right p (trim_right p s) ≡ trim_right p s
  right-right [] = unfold trim_right in refl
  right-right (c ∷ s) =
      rw (trim_right-cons c s) (trim_right-step c (trim_right p s) (right-right s))

  head_stays : (c : ℕ) (t : Text) → p c ≡ false → trim_left p (c ∷ t) ≡ c ∷ t
  unfolding trim_left
  head_stays c t e = rw e

  pub trim-trim : (s : Text) → trim p (trim p s) ≡ trim p s
  unfolding trim
  trim-trim s = elim (left_end s) [
    | inl e ↦ rw e (unfold trim_right trim_left in refl)
    | inr (c, r, e, stays) ↦
        let (t, f) = step_head c (trim_right p r) stays in
        let g : trim_right p (c ∷ r) ≡ c ∷ t = trim_right-cons c r ∙ f in
        let h : trim_right p (c ∷ t) ≡ c ∷ t = rw g at (right-right (c ∷ r)) in
        rw (e, g) (rw (head_stays c t stays) h)
  ]

  -- Either nothing is left by TrimFunc, or it begins with a code point that fails the test.
  pub trim-head :
      (s : Text) → (trim p s ≡ []) ⊎ ((c : ℕ) × (r : Text) × (trim p s ≡ c ∷ r) × (p c ≡ false))
  unfolding trim
  trim-head s = elim (left_end s) [
    | inl e ↦ inl (rw e (unfold trim_right in refl))
    | inr (c, r, e, stays) ↦
        let (t, f) = step_head c (trim_right p r) stays in
        inr (c, t, ap (trim_right p) e ∙ trim_right-cons c r ∙ f, stays)
  ]

  trim_left-All :
      (q : ℕ → Bool) (s : Text) → All (λ c. q c ≡ true) s → All (λ c. q c ≡ true) (trim_left p s)
  unfolding trim_left
  trim_left-All q [] h = tt
  trim_left-All q (c ∷ s) (hc, h) = elim (Bool-cases (p c)) [
    | inl e ↦ rw e (trim_left-All q s h)
    | inr e ↦ rw e (hc, h)
  ]

  step-All :
      (q : ℕ → Bool) (c : ℕ) (r : Text)
      → q c ≡ true
      → All (λ d. q d ≡ true) r
      → All (λ d. q d ≡ true) (step c r)
  unfolding step
  step-All q c [] hc h = elim (Bool-cases (p c)) [ inl e ↦ rw e tt | inr e ↦ rw e (hc, tt) ]
  step-All q c (d ∷ r) hc h = (hc, h)

  trim_right-All :
      (q : ℕ → Bool) (s : Text) → All (λ c. q c ≡ true) s → All (λ c. q c ≡ true) (trim_right p s)
  trim_right-All q [] h = unfold trim_right in tt
  trim_right-All q (c ∷ s) (hc, h) =
      rw (trim_right-cons c s) (step-All q c (trim_right p s) hc (trim_right-All q s h))

  -- What all code points have, those that TrimFunc leaves have.
  pub trim-All :
      (q : ℕ → Bool) (s : Text) → All (λ c. q c ≡ true) s → All (λ c. q c ≡ true) (trim p s)
  unfolding trim
  trim-All q s h = trim_right-All q (trim_left p s) (trim_left-All q s h)
