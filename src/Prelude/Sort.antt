-- ===== src/Prelude/Sort.antt =====
-- The order of Go strings, and sort.Strings as an insertion sort.
use mathlib.Core.Logic.{◌↔◌, inl, inr, ∥∥₁_elim}
use mathlib.Core.Path.{◌≡◌, refl, sym, ◌∙◌, subst}
use mathlib.Core.Bool.{Bool, true, false, ◌&&◌, ◌||◌}
use mathlib.Core.List.{List, [], ◌∷◌, Perm}
use mathlib.Core.List.Perm
use mathlib.Core.List.{Permᴰ}
use native.Mathlib.Omega.{arith}
use native.Mathlib.Nat.{ℕ_set}
use omnivore_go.Prelude.Tests.{ltb, ◌==◌, if◌then◌else◌, Bool-cases}
use omnivore_go.Prelude.Strings.{Text}

-- Strings are compared byte by byte; code points in UTF-8 have the same order.
unfoldable pub text_lt : Text → Text → Bool
text_lt [] [] = false
text_lt [] (d ∷ t) = true
text_lt (c ∷ s) [] = false
text_lt (c ∷ s) (d ∷ t) = ltb c d || (c == d && text_lt s t)

text_lt_asym : (s t : Text) → text_lt s t ≡ true → text_lt t s ≡ false
unfolding text_lt
text_lt_asym [] [] h = refl
text_lt_asym [] (d ∷ t) h = refl
text_lt_asym (c ∷ s) [] h = ground arith
text_lt_asym (c ∷ s) (d ∷ t) h = ground (arith, text_lt_asym s t)

text_lt_tri : (s t : Text) → text_lt s t ≡ false → text_lt t s ≡ false → s ≡ t
unfolding text_lt
text_lt_tri [] [] h k = refl
text_lt_tri [] (d ∷ t) h k = ground arith
text_lt_tri (c ∷ s) [] h k = ground arith
text_lt_tri (c ∷ s) (d ∷ t) h k = ground (arith, text_lt_tri s t)

text_lt_trans : (s t u : Text) → text_lt s t ≡ true → text_lt t u ≡ true → text_lt s u ≡ true
unfolding text_lt
text_lt_trans [] [] u h k = ground arith
text_lt_trans [] (d ∷ t) [] h k = ground arith
text_lt_trans [] (d ∷ t) (e ∷ u) h k = refl
text_lt_trans (c ∷ s) [] u h k = ground arith
text_lt_trans (c ∷ s) (d ∷ t) [] h k = ground arith
text_lt_trans (c ∷ s) (d ∷ t) (e ∷ u) h k = ground (arith, text_lt_trans s t u)

unfoldable pub insert_text : Text → List Text → List Text
insert_text t [] = t ∷ []
insert_text t (u ∷ us) = let rest = insert_text t us in if text_lt t u then t ∷ u ∷ us else u ∷ rest

-- sort.Strings
unfoldable pub sort_texts : List Text → List Text
unfolding insert_text
sort_texts [] = []
sort_texts (t ∷ ts) = insert_text t (sort_texts ts)

insert-insert :
    (a b : Text) (l : List Text) → insert_text a (insert_text b l) ≡ insert_text b (insert_text a l)
unfolding insert_text
insert-insert a b [] = ground (arith, text_lt_asym a b, text_lt_tri a b)
insert-insert a b (u ∷ us) = ground (
  arith,
  insert-insert a b us,
  text_lt_asym a b,
  text_lt_tri a b,
  text_lt_asym a u,
  text_lt_asym b u,
  text_lt_trans a b u,
  text_lt_trans b a u,
)

sort-Permᴰ : {xs ys : List Text} → Permᴰ xs ys → sort_texts xs ≡ sort_texts ys
unfolding sort_texts
sort-Permᴰ Permᴰ.nil = refl
sort-Permᴰ (Permᴰ.cons e p) = let h = sort-Permᴰ p in rw (e, h)
sort-Permᴰ (Permᴰ.swap {a = a} {b = b} {l = l} e f) =
    rw (sym e, sym f) (insert-insert a b (sort_texts l))
sort-Permᴰ (Permᴰ.trans p r) = sort-Permᴰ p ∙ sort-Permᴰ r

insert-Perm : (t : Text) (l : List Text) → Perm (insert_text t l) (t ∷ l)
unfolding insert_text
insert-Perm t [] = Perm.rfl
insert-Perm t (u ∷ us) = elim (Bool-cases (text_lt t u)) [
  | inl e ↦ rw e (Perm.rfl)
  | inr e ↦ rw e (Perm.trans (Perm.cons u (insert-Perm t us)) (Perm.swap t u us))
]

pub sort-Perm : (l : List Text) → Perm (sort_texts l) l
unfolding sort_texts
sort-Perm [] = Perm.rfl
sort-Perm (t ∷ ts) = Perm.trans (insert-Perm t (sort_texts ts)) (Perm.cons t (sort-Perm ts))

same_prop : (xs ys : List Text) → IsProp (xs ≡ ys)
same_prop xs ys = hlevel ℕ_set

-- Two lists have the same sorted list exactly if one is a rearrangement of the other.
pub sort_iff_Perm : (xs ys : List Text) → (sort_texts xs ≡ sort_texts ys) ↔ Perm xs ys
sort_iff_Perm xs ys = (
  λ e. Perm.trans (Perm.symm (sort-Perm xs)) (subst (λ l. Perm l ys) (sym e) (sort-Perm ys)),
  λ p. ∥∥₁_elim p (same_prop (sort_texts xs) (sort_texts ys)) sort-Permᴰ,
)
