-- ===== src/Graphql/Isolated.antt =====
-- What the requests of other users leave of a user's rows.
use omnivore_go.Prelude.First.{first}
use omnivore_go.Graphql.Reads.{is_own}
use omnivore_go.Prelude.{
  ℕ, some, sym, Text, text_eq, text_eq→eq, false, ◌||◌, ◌&&◌, not, All, List, ◌∷◌, map, Option, ◌≡◌,
  ◌⊎◌, refl, arith, Bool-cases, inl, inr,
}
use omnivore_go.Graphql.Tables.{
  reassigned, assigned_names, name_labels, stored, get_item, Label, Highlight, LibraryItem, Store,
  Outside, Call, put_item, put_highlight, has, is_same_label, is_same_highlight, insert_label,
  update_item, set_item_labels, insert_highlight, update_highlight, delete_highlight,
}
use omnivore_go.Graphql.Resolver.{new_label, Request, serve_all}
use omnivore_go.Graphql.Served.{serve_all-Keeps}
use omnivore_go.Graphql.Rules.{Rule, MayBy}
use omnivore_go.Graphql.Own.{
  Same, Isolated, IsKeyed, item_ids, items_of, Isolated-trans, beside, select-map, select-select,
}
use omnivore_go.Graphql.Links.{not_theirs, select-reassigned, items_written}

unchanged : (v : Text) (s : Store) → Isolated v s s
unchanged v s = (refl, λ keyed. (refl, refl, refl, refl))

module _ (v : Text) (outside : Outside) where
  insert_label-Isolated :
      (l : Label) (s : Store)
      → text_eq l.user_id v ≡ false
      → Isolated v s (insert_label outside l s).1
  unfolding insert_label
  insert_label-Isolated l s h =
      elim (Bool-cases (outside.fails Call.call_create_label s || has (is_same_label l) s.labels)) [
        | inl e ↦ rw e (unchanged v s)
        | inr e ↦ rw e (beside v s (record s { labels = l ∷ s.labels }) refl refl (rw h refl) refl)
      ]

  put_item-id : (u : Text) (i r : LibraryItem) → (put_item u i r).id ≡ r.id
  unfolding put_item
  put_item-id u i r = elim (Bool-cases (text_eq r.id i.id && text_eq r.user_id u)) [
    | inl e ↦ rw e (sym (text_eq→eq r.id i.id (ground (arith, e))))
    | inr e ↦ rw e refl
  ]

  put_item-other :
      (u : Text) (i : LibraryItem)
      → text_eq u v ≡ false
      → i.user_id ≡ u
      → (r : LibraryItem)
      → (put_item u i r ≡ r)
        ⊎ ((text_eq r.user_id v ≡ false) × (text_eq (put_item u i r).user_id v ≡ false))
  unfolding put_item
  put_item-other u i other owned r = elim (Bool-cases (text_eq r.id i.id && text_eq r.user_id u)) [
    | inl e ↦
        let same = text_eq→eq r.user_id u (ground (arith, e)) in
        rw e (inr (rw same other, rw owned other))
    | inr e ↦ rw e (inl refl)
  ]

  update_item-Isolated :
      (u : Text) (i : LibraryItem) (s : Store)
      → text_eq u v ≡ false
      → i.user_id ≡ u
      → Isolated v s (update_item outside u i s).1
  unfolding update_item stored
  update_item-Isolated u i s other owned =
      let new = record (stored outside i) { updated_at = outside.saved_now s } in
      elim (Bool-cases (outside.fails Call.call_update_item s)) [
        | inl e ↦ rw e (unchanged v s)
        | inr e ↦ rw e (
            items_written v (put_item u new) s (record s { items = map (put_item u new) s.items })
              refl refl refl (put_item-id u new) (put_item-other u new other owned) (λ keyed. refl))
      ]

  name_labels-id :
      (u item : Text) (names : List Text) (at : ℕ) (r : LibraryItem)
      → (name_labels u item names at r).id ≡ r.id
  unfolding name_labels
  name_labels-id u item names at r = elim (Bool-cases (text_eq r.id item && text_eq r.user_id u)) [
    | inl e ↦ rw e refl
    | inr e ↦ rw e refl
  ]

  name_labels-other :
      (u item : Text) (names : List Text) (at : ℕ)
      → text_eq u v ≡ false
      → (r : LibraryItem)
      → (name_labels u item names at r ≡ r)
        ⊎ ((text_eq r.user_id v ≡ false)
            × (text_eq (name_labels u item names at r).user_id v ≡ false))
  unfolding name_labels
  name_labels-other u item names at other r =
      elim (Bool-cases (text_eq r.id item && text_eq r.user_id u)) [
        | inl e ↦
            let same = text_eq→eq r.user_id u (ground (arith, e)) in
            rw e (inr (rw same other, rw same other))
        | inr e ↦ rw e (inl refl)
      ]

  found_first :
      (u item : Text) (row : LibraryItem) (s : Store)
      → get_item outside u item s ≡ some row
      → first (is_own u item) s.items ≡ some row
  unfolding get_item
  found_first u item row s h = elim (Bool-cases (outside.fails Call.call_get_item s)) [
    | inl e ↦ let bad = rw e at h in absurd (cc)
    | inr e ↦ rw e at h
  ]

  set_item_labels-Isolated :
      (u item : Text) (ids : List Text) (row : LibraryItem) (s : Store)
      → text_eq u v ≡ false
      → get_item outside u item s ≡ some row
      → Isolated v s (set_item_labels outside u item ids s).1
  unfolding set_item_labels
  set_item_labels-Isolated u item ids row s other found =
      let links = reassigned item ids s.assigned in
      let f =
        name_labels u item (assigned_names outside u item links s.labels) (outside.saved_now s) in
      elim (Bool-cases (outside.fails Call.call_set_labels s)) [
        | inl e ↦ rw e (unchanged v s)
        | inr e ↦ rw e (
            items_written v f s (record s { assigned = links; items = map f s.items }) refl refl
              refl (name_labels-id u item _ _) (name_labels-other u item _ _ other)
              (λ keyed.
                select-reassigned (λ i. has (λ r. text_eq r.id i) (items_of v s)) item
                  (not_theirs v u item row s.items other keyed (found_first u item row s found)) ids
                  s.assigned))
      ]

  insert_highlight-Isolated :
      (h : Highlight) (s : Store)
      → text_eq h.user_id v ≡ false
      → Isolated v s (insert_highlight outside h s).1
  unfolding insert_highlight
  insert_highlight-Isolated h s other =
      let new = record h { created_at = outside.saved_now s; updated_at = outside.saved_now s } in
      elim (Bool-cases
        (outside.fails Call.call_create_highlight s || has (is_same_highlight h) s.highlights)) [
          | inl e ↦ rw e (unchanged v s)
          | inr e ↦ rw e (
              beside v s (record s { highlights = new ∷ s.highlights }) refl refl refl
                (rw other refl))
        ]

  put_highlight-other :
      (u : Text) (i : Highlight)
      → text_eq u v ≡ false
      → i.user_id ≡ u
      → (r : Highlight)
      → (put_highlight u i r ≡ r)
        ⊎ ((text_eq r.user_id v ≡ false) × (text_eq (put_highlight u i r).user_id v ≡ false))
  unfolding put_highlight
  put_highlight-other u i other owned r =
      elim (Bool-cases (text_eq r.id i.id && text_eq r.user_id u)) [
        | inl e ↦
            let same = text_eq→eq r.user_id u (ground (arith, e)) in
            rw e (inr (rw same other, rw owned other))
        | inr e ↦ rw e (inl refl)
      ]

  update_highlight-Isolated :
      (u : Text) (i : Highlight) (s : Store)
      → text_eq u v ≡ false
      → i.user_id ≡ u
      → Isolated v s (update_highlight outside u i s).1
  unfolding update_highlight
  update_highlight-Isolated u i s other owned =
      elim (Bool-cases (outside.fails Call.call_update_highlight s)) [
        | inl e ↦ rw e (unchanged v s)
        | inr e ↦ rw e (
            beside v s _ refl refl refl (
              select-map (λ r. text_eq r.user_id v) _ (put_highlight-other u _ other owned)
                s.highlights))
      ]

  kept_highlight :
      (u id : Text)
      → text_eq u v ≡ false
      → (r : Highlight) → not (text_eq r.id id && text_eq r.user_id u) ≡ false
      → text_eq r.user_id v ≡ false
  kept_highlight u id other r gone =
      let same = text_eq→eq r.user_id u (ground (arith, gone)) in rw same other

  delete_highlight-Isolated :
      (u id : Text) (s : Store)
      → text_eq u v ≡ false
      → Isolated v s (delete_highlight outside u id s).1
  unfolding delete_highlight
  delete_highlight-Isolated u id s other =
      elim (Bool-cases (outside.fails Call.call_delete_highlight s)) [
        | inl e ↦ rw e (unchanged v s)
        | inr e ↦ rw e (
            beside v s _ refl refl refl
              (select-select (λ r. text_eq r.user_id v) _ (kept_highlight u id other) s.highlights))
      ]

  isolation : Rule outside (λ u. text_eq u v ≡ false) (Isolated v)
  unfolding new_label
  isolation = record {
    same = unchanged v;
    then_again = Isolated-trans v;
    inserts_label =
        λ u input s other e. insert_label-Isolated (new_label outside u input s) s other;
    updates_item = λ u i s other owned. update_item-Isolated u i s other owned;
    sets_labels =
        λ u item ids row s other found. set_item_labels-Isolated u item ids row s other found;
    inserts_highlight = insert_highlight-Isolated;
    updates_highlight = λ u h s other owned. update_highlight-Isolated u h s other owned;
    deletes_highlight = λ u id s other. delete_highlight-Isolated u id s other;
  }

  -- Whatever the other users and callers without an account ask for, in any order and whatever
  -- fails, a user keeps the same items, labels and highlights, and the same labels at each item, if
  -- no two items have one id.
  pub serve_all-Same :
      (qs : List (Option Text × Request)) (s : Store)
      → IsKeyed (item_ids s)
      → All (λ q. MayBy outside (λ u. text_eq u v ≡ false) q.0) qs
      → Same v s (serve_all outside qs s)
  serve_all-Same qs s keyed others =
      (serve_all-Keeps outside _ (Isolated v) isolation qs s others).1 keyed
