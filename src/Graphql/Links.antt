-- ===== src/Graphql/Links.antt =====
-- The labels of the items of one user, when those of another item are replaced.
use mathlib.Core.Bool.{true≢false}
use omnivore_go.Prelude.First.{first}
use omnivore_go.Graphql.Reads.{is_own}
use omnivore_go.Prelude.{
  ◌⊎◌, ap, some, sym, ◌++◌, text_eq_refl, Text, text_eq, text_eq→eq, Bool, false, not, All, List,
  [], ◌∷◌, map, select, ◌≡◌, refl, ◌∙◌, arith, Bool-cases, inl, inr,
}
use omnivore_go.Graphql.Tables.{EntityLabel, assign, reassigned, LibraryItem, Store, has}
use omnivore_go.Graphql.Own.{
  IsKeyed, select-select, Isolated, item_ids, items_of, assigned_of, rewritten,
}

same_ids :
    (f : LibraryItem → LibraryItem)
    → ((r : LibraryItem) → (f r).id ≡ r.id)
    → (rs : List LibraryItem) → map (λ r. r.id) (map f rs) ≡ map (λ r. r.id) rs
same_ids f h [] = refl
same_ids f h (r ∷ rs) = rw (h r, same_ids f h rs) refl

absent :
    (v item : Text) (rs : List LibraryItem)
    → All (λ j. text_eq j item ≡ false) (map (λ r. r.id) rs)
    → has (λ r. text_eq r.id item) (select (λ r. text_eq r.user_id v) rs) ≡ false
unfolding has
absent v item [] h = refl
absent v item (r ∷ rs) (e, h) = elim (Bool-cases (text_eq r.user_id v)) [
  | inl mine ↦ rw mine (rw e (absent v item rs h))
  | inr other ↦ rw other (absent v item rs h)
]

apart_from :
    (u item i : Text) (row : LibraryItem) (rs : List LibraryItem)
    → first (is_own u item) rs ≡ some row
    → All (λ j. text_eq j i ≡ false) (map (λ r. r.id) rs)
    → text_eq i item ≡ false
apart_from u item i row [] e h = absurd (cc)
apart_from u item i row (r ∷ rs) e (d, h) = elim (Bool-cases (is_own u item r)) [
  | inl own ↦
      let same : r.id ≡ item = text_eq→eq r.id item (ground (arith, own)) in
      elim (Bool-cases (text_eq i item)) [
        | inl equal ↦
            let is : i ≡ item = text_eq→eq i item equal in
            let bad : text_eq item item ≡ false = rw (same, is) at d in
            absurd (true≢false (sym (text_eq_refl item) ∙ bad))
        | inr e' ↦ e'
      ]
  | inr other ↦ apart_from u item i row rs (rw other at e) h
]

-- An item of one user is no item of another.
pub not_theirs :
    (v u item : Text) (row : LibraryItem) (rs : List LibraryItem)
    → text_eq u v ≡ false
    → IsKeyed (map (λ r. r.id) rs)
    → first (is_own u item) rs ≡ some row
    → has (λ r. text_eq r.id item) (select (λ r. text_eq r.user_id v) rs) ≡ false
unfolding has
not_theirs v u item row [] other keyed e = refl
not_theirs v u item row (r ∷ rs) other (h, keyed) e = elim (Bool-cases (is_own u item r)) [
  | inl own ↦
      let same : r.id ≡ item = text_eq→eq r.id item (ground (arith, own)) in
      let by : r.user_id ≡ u = text_eq→eq r.user_id u (ground (arith, own)) in
      let dropped : text_eq r.user_id v ≡ false = rw by other in
      let rest : All (λ j. text_eq j item ≡ false) (map (λ x. x.id) rs) = rw same at h in
      rw dropped (absent v item rs rest)
  | inr miss ↦
      let found : first (is_own u item) rs ≡ some row = rw miss at e in
      let ids_differ : text_eq r.id item ≡ false = apart_from u item r.id row rs found h in
      let rest = not_theirs v u item row rs other keyed found in
      elim (Bool-cases (text_eq r.user_id v)) [
        | inl mine ↦ rw mine (rw ids_differ rest)
        | inr e' ↦ rw e' rest
      ]
]

module _ (p : Text → Bool) (item : Text) (foreign : p item ≡ false) where
  select-assign :
      (ids : List Text) (old : List EntityLabel)
      → select (λ a. p a.library_item_id) (assign item ids ++ old)
        ≡ select (λ a. p a.library_item_id) old
  unfolding assign
  select-assign [] old = refl
  select-assign (i ∷ ids) old = rw foreign (select-assign ids old)

  kept_link :
      (a : EntityLabel) → not (text_eq a.library_item_id item) ≡ false → p a.library_item_id ≡ false
  kept_link a gone =
      let same = text_eq→eq a.library_item_id item (ground (arith, gone)) in rw same foreign

  -- The assignments of an item are replaced, and those of the items that are selected stay.
  pub select-reassigned :
      (ids : List Text) (old : List EntityLabel)
      → select (λ a. p a.library_item_id) (reassigned item ids old)
        ≡ select (λ a. p a.library_item_id) old
  unfolding reassigned
  select-reassigned ids old =
      select-assign ids (select (λ a. not (text_eq a.library_item_id item)) old)
      ∙ select-select (λ a. p a.library_item_id) (λ a. not (text_eq a.library_item_id item))
          kept_link old

-- A write of the items of others that keeps their ids, and the labels of all items of the user
pub items_written :
    (v : Text) (f : LibraryItem → LibraryItem) (s t : Store)
    → t.items ≡ map f s.items
    → t.labels ≡ s.labels
    → t.highlights ≡ s.highlights
    → ((r : LibraryItem) → (f r).id ≡ r.id)
    → ((r : LibraryItem)
        → (f r ≡ r) ⊎ ((text_eq r.user_id v ≡ false) × (text_eq (f r).user_id v ≡ false)))
    → (IsKeyed (item_ids s)
        → select (λ a. has (λ r. text_eq r.id a.library_item_id) (items_of v s)) t.assigned
          ≡ assigned_of v s)
    → Isolated v s t
items_written v f s t e l h ids others links = (
  ap (map (λ r. r.id)) e ∙ same_ids f ids s.items,
  λ keyed.
      let is = rewritten v f s t e others in
      (
        is,
        ap (select (λ r. text_eq r.user_id v)) l,
        ap (select (λ r. text_eq r.user_id v)) h,
        ap (λ xs. select (λ a. has (λ r. text_eq r.id a.library_item_id) xs) t.assigned) is
            ∙ links keyed,
      ),
)
