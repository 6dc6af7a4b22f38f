-- ===== src/Graphql/Own.antt =====
-- The rows of one user before and after the requests of others.
use mathlib.Core.Path.{subst}
use omnivore_go.Prelude.{
  sym, ap, Text, text_eq, Bool, false, All, List, [], ◌∷◌, map, select, ◌≡◌, ◌⊎◌, refl, ◌∙◌,
  Bool-cases, inl, inr,
}
use omnivore_go.Graphql.Tables.{EntityLabel, Label, Highlight, LibraryItem, Store, has}

module _ {A : Type 0} (p : A → Bool) where
  -- Replacing rows that are not selected by one that is not
  pub select-map :
      (f : A → A)
      → ((x : A) → (f x ≡ x) ⊎ ((p x ≡ false) × (p (f x) ≡ false)))
      → (xs : List A) → select p (map f xs) ≡ select p xs
  select-map f h [] = refl
  select-map f h (x ∷ xs) = elim (h x) [
    | inl e ↦ rw (e, select-map f h xs) refl
    | inr (old, new) ↦ rw (old, new) (select-map f h xs)
  ]

  pub select-select :
      (keep : A → Bool)
      → ((x : A) → keep x ≡ false → p x ≡ false)
      → (xs : List A) → select p (select keep xs) ≡ select p xs
  select-select keep h [] = refl
  select-select keep h (x ∷ xs) = elim (Bool-cases (keep x)) [
    | inl e ↦ rw (e, select-select keep h xs) refl
    | inr e ↦ rw (e, h x e) (select-select keep h xs)
  ]

-- The rows of a user
abbrev pub items_of : Text → Store → List LibraryItem
items_of v s = select (λ r. text_eq r.user_id v) s.items

abbrev pub labels_of : Text → Store → List Label
labels_of v s = select (λ r. text_eq r.user_id v) s.labels

abbrev pub highlights_of : Text → Store → List Highlight
highlights_of v s = select (λ r. text_eq r.user_id v) s.highlights

-- The assignments of labels to the items of a user
abbrev pub assigned_of : Text → Store → List EntityLabel
assigned_of v s = select (λ a. has (λ r. text_eq r.id a.library_item_id) (items_of v s)) s.assigned

-- The user has the same items, labels and highlights, and the same labels at each item.
abbrev pub Same : Text → Store → Store → Type 0
Same v s t =
    (items_of v t ≡ items_of v s)
    × (labels_of v t ≡ labels_of v s)
    × (highlights_of v t ≡ highlights_of v s)
    × (assigned_of v t ≡ assigned_of v s)

Same-trans : (v : Text) (s t u : Store) → Same v s t → Same v t u → Same v s u
Same-trans v s t u (a, b, c, x) (d, e, f, y) = (d ∙ a, e ∙ b, f ∙ c, y ∙ x)

-- The primary key of the items: no id stands twice.
abbrev pub IsKeyed : List Text → Type 0
IsKeyed [] = Unit
IsKeyed (i ∷ is) = All (λ j. text_eq j i ≡ false) is × IsKeyed is

abbrev pub item_ids : Store → List Text
item_ids s = map (λ r. r.id) s.items

-- No item comes or goes, and if their ids are a key, then the user has the same.
abbrev pub Isolated : Text → Store → Store → Type 0
Isolated v s t = (item_ids t ≡ item_ids s) × (IsKeyed (item_ids s) → Same v s t)

pub Isolated-trans : (v : Text) (s t u : Store) → Isolated v s t → Isolated v t u → Isolated v s u
Isolated-trans v s t u (e, h) (f, k) =
    (f ∙ e, λ keyed. Same-trans v s t u (h keyed) (k (subst IsKeyed (sym e) keyed)))

-- A write of a table other than those of the items and of the assignments
pub beside :
    (v : Text) (s t : Store)
    → t.items ≡ s.items
    → t.assigned ≡ s.assigned
    → labels_of v t ≡ labels_of v s
    → highlights_of v t ≡ highlights_of v s
    → Isolated v s t
beside v s t e f g h = (
  ap (map (λ r. r.id)) e,
  λ keyed. (ap (select (λ r. text_eq r.user_id v)) e, g, h, rw (e, f) refl),
)

-- A write of the items of others that keeps the ids
pub rewritten :
    (v : Text) (f : LibraryItem → LibraryItem) (s t : Store)
    → t.items ≡ map f s.items
    → ((r : LibraryItem)
        → (f r ≡ r) ⊎ ((text_eq r.user_id v ≡ false) × (text_eq (f r).user_id v ≡ false)))
    → items_of v t ≡ items_of v s
rewritten v f s t e h =
    ap (select (λ r. text_eq r.user_id v)) e ∙ select-map (λ r. text_eq r.user_id v) f h s.items
