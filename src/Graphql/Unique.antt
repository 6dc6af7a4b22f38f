-- ===== src/Graphql/Unique.antt =====
-- The names of a user's labels.
use omnivore_go.Prelude.{
  Text, text_eq, Bool, true, false, ◌||◌, ◌&&◌, All, List, [], ◌∷◌, Option, none, some, ◌≡◌, refl,
  Bool-cases, inl, inr, if◌then◌else◌,
}
use omnivore_go.Prelude.First.{first-none}
use omnivore_go.Graphql.Tables.{
  Label, Store, Outside, Call, has, is_same_label, is_same_highlight, is_named, find_label_by_name,
  insert_label, update_item, set_item_labels, insert_highlight, update_highlight, delete_highlight,
}
use omnivore_go.Graphql.Inputs.{CreateLabelInput}
use omnivore_go.Graphql.Resolver.{new_label, Request, serve_all}
use omnivore_go.Graphql.Served.{serve_all-Keeps}
use omnivore_go.Graphql.Rules.{Rule, MayBy}

module _ (outside : Outside) where
  -- No two labels of a user have names that LOWER makes equal.
  abbrev pub IsDistinct : List Label → Type 0
  IsDistinct [] = Unit
  IsDistinct (l ∷ ls) =
      All
        (λ r.
          (text_eq r.user_id l.user_id && text_eq (outside.lower r.name) (outside.lower l.name))
          ≡ false)
        ls
      × IsDistinct ls

  abbrev Stays : Store → Store → Type 0
  Stays s t = IsDistinct s.labels → IsDistinct t.labels

  -- A query that finds none
  none_named :
      (u name : Text) (s : Store)
      → find_label_by_name outside u name s ≡ some none
      → All (λ r. is_named outside u name r ≡ false) s.labels
  unfolding find_label_by_name
  none_named u name s e = elim (Bool-cases (outside.fails Call.call_find_label s)) [
    | inl f ↦ let gone = rw f at e in absurd (cc)
    | inr f ↦ first-none (is_named outside u name) s.labels (rw f at e)
  ]

  inserted-IsDistinct :
      (u : Text) (input : CreateLabelInput) (s : Store)
      → find_label_by_name outside u input.name s ≡ some none
      → Stays s (insert_label outside (new_label outside u input s) s).1
  unfolding insert_label new_label is_named
  inserted-IsDistinct u input s e h =
      elim (Bool-cases (
        outside.fails Call.call_create_label s
        || has (is_same_label (new_label outside u input s)) s.labels)) [
          | inl f ↦ rw f h
          | inr f ↦ rw f (none_named u input.name s e, h)
        ]

  -- A write of other tables, which may fail
  elsewhere :
      (s t : Store) (fails : Bool)
      → t.labels ≡ s.labels
      → Stays s (if◌then◌else◌ {A = Bool × Store} fails (false, s) (true, t)).1
  elsewhere s t true e h = h
  elsewhere s t false e h = rw e h

  distinctness : Rule outside (λ u. Unit) Stays
  unfolding update_item set_item_labels insert_highlight update_highlight delete_highlight
  distinctness = record {
    same = λ s h. h;
    then_again = λ s t u f g h. g (f h);
    inserts_label = λ u input s may e. inserted-IsDistinct u input s e;
    updates_item = λ u i s may owned. elsewhere s _ (outside.fails Call.call_update_item s) refl;
    sets_labels =
        λ u item ids row s may found. elsewhere s _ (outside.fails Call.call_set_labels s) refl;
    inserts_highlight = λ h s may.
        elsewhere s _
          (outside.fails Call.call_create_highlight s || has (is_same_highlight h) s.highlights)
          refl;
    updates_highlight =
        λ u h s may owned. elsewhere s _ (outside.fails Call.call_update_highlight s) refl;
    deletes_highlight =
        λ u id s may. elsewhere s _ (outside.fails Call.call_delete_highlight s) refl;
  }

  any : (caller : Option Text) → MayBy outside (λ u. Unit) caller
  any none = tt
  any (some id) = λ u e. tt

  anyone : (qs : List (Option Text × Request)) → All (λ q. MayBy outside (λ u. Unit) q.0) qs
  anyone [] = tt
  anyone ((caller, q) ∷ qs) = (any caller, anyone qs)

  -- However requests of any users follow each other, whatever ids they draw and whatever fails,
  -- labels of one user that differ in their names up to case go on to do so.
  pub serve_all-IsDistinct :
      (qs : List (Option Text × Request)) (s : Store)
      → IsDistinct s.labels
      → IsDistinct (serve_all outside qs s).labels
  serve_all-IsDistinct qs s h = serve_all-Keeps outside _ Stays distinctness qs s (anyone qs) h
