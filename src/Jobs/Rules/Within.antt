-- ===== src/Jobs/Rules/Within.antt =====
-- The tables before and after, when only the item of a user was changed.
use mathlib.Core.Path.{subst}
use omnivore_go.Prelude.{
  Text, text_eq, text_eq→eq, List, [], ◌∷◌, ◌++◌, All, ◌≡◌, ◌⊎◌, refl, sym, ap, ◌∙◌, Bool-cases,
  inl, inr, if◌then◌else◌,
}
use omnivore_go.Prelude.Pairs.{Pairs, Pairs-refl, Pairs-map, Pairs-trans}
use omnivore_go.Jobs.Rules.Trigger.{ItemRow, Session, is_of, update_item}

-- The row is as before, or it is the user's item.
abbrev pub InScope : Text → Text → ItemRow → ItemRow → Type 0
InScope user item r after =
    (after ≡ r)
    ⊎ ((r.id ≡ item) × (r.user_id ≡ user) × (after.id ≡ r.id) × (after.user_id ≡ r.user_id))

-- Only rows of the user's item are changed, and labels are only added, and to the item.
abbrev pub Within : Text → Text → Session → Session → Type 0
Within user item s t =
    Pairs (InScope user item) s.items t.items
    × ((added : List (Text × Text)) × (t.labels ≡ added ++ s.labels) × All (λ p. p.0 ≡ item) added)

module _ (user item : Text) where
  pub same_tables : (s t : Session) → t.items ≡ s.items → t.labels ≡ s.labels → Within user item s t
  same_tables s t e f = (
    subst (Pairs (InScope user item) s.items) (sym e) (Pairs-refl _ (λ r. inl refl) s.items),
    ([], f, tt),
  )

  then_in :
      (a b c : ItemRow) → InScope user item a b → InScope user item b c → InScope user item a c
  then_in a b c (inl e) (inl f) = inl (f ∙ e)
  then_in a b c (inl e) (inr q) = inr (
      subst (λ r. (r.id ≡ item) × (r.user_id ≡ user) × (c.id ≡ r.id) × (c.user_id ≡ r.user_id)) e q)
  then_in a b c (inr p) (inl f) = inr (
      subst (λ r. (a.id ≡ item) × (a.user_id ≡ user) × (r.id ≡ a.id) × (r.user_id ≡ a.user_id))
        (sym f) p)
  then_in a b c (inr (i, u, e, f)) (inr (j, v, g, h)) = inr (i, u, g ∙ e, h ∙ f)

  All-append :
      (xs ys : List (Text × Text))
      → All (λ p. p.0 ≡ item) xs
      → All (λ p. p.0 ≡ item) ys
      → All (λ p. p.0 ≡ item) (xs ++ ys)
  All-append [] ys h k = k
  All-append (x ∷ xs) ys (h, hs) k = (h, All-append xs ys hs k)

  append_twice : (xs ys l : List (Text × Text)) → (xs ++ (ys ++ l)) ≡ ((xs ++ ys) ++ l)
  append_twice [] ys l = refl
  append_twice (x ∷ xs) ys l = ap (◌∷◌ x) (append_twice xs ys l)

  pub Within-trans :
      (s t u : Session) → Within user item s t → Within user item t u → Within user item s u
  Within-trans s t u (p, (xs, e, h)) (q, (ys, f, k)) = (
    Pairs-trans _ _ _ then_in s.items t.items u.items p q,
    (ys ++ xs, f ∙ (ap (λ l. ys ++ l) e ∙ append_twice ys xs s.labels), All-append ys xs k h),
  )

  changed :
      (change : ItemRow → ItemRow)
      → ((r : ItemRow) → ((change r).id ≡ r.id) × ((change r).user_id ≡ r.user_id))
      → (r : ItemRow) → InScope user item r (if is_of user item r then change r else r)
  unfolding is_of
  changed change h r = elim (Bool-cases (text_eq r.id item)) [
    | inl e ↦ elim (Bool-cases (text_eq r.user_id user)) [
      | inl f ↦
          rw (e, f) (inr (text_eq→eq r.id item e, text_eq→eq r.user_id user f, (h r).0, (h r).1))
      | inr f ↦ rw (e, f) (inl refl)
    ]
    | inr e ↦ rw e (inl refl)
  ]

  pub update_item-Within :
      (change : ItemRow → ItemRow)
      → ((r : ItemRow) → ((change r).id ≡ r.id) × ((change r).user_id ≡ r.user_id))
      → (s : Session) → Within user item s (update_item user item change s)
  unfolding update_item
  update_item-Within change h s =
      (Pairs-map (InScope user item) _ (changed change h) s.items, ([], refl, tt))
