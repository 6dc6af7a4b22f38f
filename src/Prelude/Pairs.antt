-- ===== src/Prelude/Pairs.antt =====
-- Two lists that are related element by element.
use mathlib.Core.List.{List, [], ◌∷◌, map}

-- Two lists of one length, related element by element.
abbrev pub Pairs : {A : Type 0} → (A → A → Type 0) → List A → List A → Type 0
Pairs R [] [] = Unit
Pairs R [] (y ∷ ys) = ⊥
Pairs R (x ∷ xs) [] = ⊥
Pairs R (x ∷ xs) (y ∷ ys) = R x y × Pairs R xs ys

module _ {A : Type 0} where
  pub Pairs-refl : (R : A → A → Type 0) → ((x : A) → R x x) → (xs : List A) → Pairs R xs xs
  Pairs-refl R h [] = tt
  Pairs-refl R h (x ∷ xs) = (h x, Pairs-refl R h xs)

  pub Pairs-map :
      (R : A → A → Type 0) (f : A → A)
      → ((x : A) → R x (f x))
      → (xs : List A) → Pairs R xs (map f xs)
  Pairs-map R f h [] = tt
  Pairs-map R f h (x ∷ xs) = (h x, Pairs-map R f h xs)

  pub Pairs-trans :
      (R S T : A → A → Type 0)
      → ((x y z : A) → R x y → S y z → T x z)
      → (xs ys zs : List A) → Pairs R xs ys
      → Pairs S ys zs
      → Pairs T xs zs
  Pairs-trans R S T h [] [] [] p q = tt
  Pairs-trans R S T h [] [] (z ∷ zs) p q = elim q [ ]
  Pairs-trans R S T h [] (y ∷ ys) zs p q = elim p [ ]
  Pairs-trans R S T h (x ∷ xs) [] zs p q = elim p [ ]
  Pairs-trans R S T h (x ∷ xs) (y ∷ ys) [] p q = elim q [ ]
  Pairs-trans R S T h (x ∷ xs) (y ∷ ys) (z ∷ zs) p q =
      (h x y z p.0 q.0, Pairs-trans R S T h xs ys zs p.1 q.1)
