-- ===== src/Graphql/Rules.antt =====
-- What holds between the tables before and after requests: it is enough to show it of the writes.
use omnivore_go.Prelude.{
  Text, text_eq, text_eq→eq, Bool, List, Option, none, some, ◌≡◌, refl, Bool-cases, inl, inr,
}
use omnivore_go.Graphql.Tables.{
  get_item, Highlight, LibraryItem, Store, Outside, find_label_by_name, insert_label, update_item,
  set_item_labels, insert_highlight, update_highlight, delete_highlight,
}
use omnivore_go.Graphql.Inputs.{
  Code, success, Action, refuse, given, written, CreateLabelInput, if_owner,
}
use omnivore_go.Graphql.Resolver.{signed_in, new_label}

-- A relation of tables that every write keeps which a user makes of whom `May` holds.
pub record Rule (outside : Outside) (May : Text → Type 0) (R : Store → Store → Type 0)
    : Type 0 where
  pub same : (s : Store) → R s s
  pub then_again : (s t u : Store) → R s t → R t u → R s u
  pub inserts_label :
      (u : Text) (input : CreateLabelInput) (s : Store)
      → May u
      → find_label_by_name outside u input.name s ≡ some none
      → R s (insert_label outside (new_label outside u input s) s).1
  pub updates_item :
      (u : Text) (i : LibraryItem) (s : Store)
      → May u
      → i.user_id ≡ u
      → R s (update_item outside u i s).1
  pub sets_labels :
      (u item : Text) (ids : List Text) (row : LibraryItem) (s : Store)
      → May u
      → get_item outside u item s ≡ some row
      → R s (set_item_labels outside u item ids s).1
  pub inserts_highlight :
      (h : Highlight) (s : Store) → May h.user_id → R s (insert_highlight outside h s).1
  pub updates_highlight :
      (u : Text) (h : Highlight) (s : Store)
      → May u
      → h.user_id ≡ u
      → R s (update_highlight outside u h s).1
  pub deletes_highlight :
      (u id : Text) (s : Store) → May u → R s (delete_highlight outside u id s).1

-- The user of the caller, if there is one, may write.
abbrev pub MayBy : Outside → (Text → Type 0) → Option Text → Type 0
MayBy outside May none = Unit
MayBy outside May (some id) = (u : Text) → outside.parse_uuid id ≡ some u → May u

module _ (outside : Outside) (May : Text → Type 0) (R : Store → Store → Type 0)
    (rule : Rule outside May R) where
  abbrev pub Keeps : {A : Type 0} → Action A → Type 0
  Keeps m = (s : Store) → R s (m s).1

  pub given_at :
      {A B : Type 0} (c : Code) (o : Option B) (k : B → Action A) (s : Store)
      → ((x : B) → o ≡ some x → R s (k x s).1)
      → R s (given c o k s).1
  unfolding given refuse
  given_at c none k s h = rule.same s
  given_at c (some x) k s h = h x refl

  pub given-Keeps :
      {A B : Type 0} (c : Code) (o : Option B) (k : B → Action A)
      → ((x : B) → Keeps (k x))
      → Keeps (given c o k)
  given-Keeps c o k h s = given_at c o k s (λ x e. h x s)

  pub written-Keeps :
      {A : Type 0} (c : Code) (x : A) (s : Store) (r : Bool × Store)
      → R s r.1
      → R s (written c x r).1
  unfolding written
  written-Keeps c x s (ok, t) h = elim (Bool-cases ok) [ inl e ↦ rw e h | inr e ↦ rw e h ]

  pub answered-Keeps :
      {B : Type 0} (c : Code) (o : Option B) (s t : Store)
      → R s t
      → R s (given {A = B} c o (λ x w. (success x, w)) t).1
  unfolding given refuse
  answered-Keeps c none s t h = h
  answered-Keeps c (some x) s t h = h

  parsed-Keeps :
      {A : Type 0} (c : Code) (o : Option Text) (k : Text → Action A)
      → ((u : Text) → o ≡ some u → May u)
      → ((u : Text) → May u → Keeps (k u))
      → Keeps (given c o k)
  parsed-Keeps c o k n h s = given_at c o k s (λ u e. h u (n u e) s)

  pub signed_in-Keeps :
      {A : Type 0} (missing invalid : Code) (caller : Option Text) (k : Text → Action A)
      → MayBy outside May caller
      → ((u : Text) → May u → Keeps (k u))
      → Keeps (signed_in outside missing invalid caller k)
  unfolding signed_in given refuse
  signed_in-Keeps missing invalid none k n h s = rule.same s
  signed_in-Keeps missing invalid (some id) k n h s =
      parsed-Keeps invalid (outside.parse_uuid id) k n h s

  pub if_owner_at :
      {A : Type 0} (c : Code) (u owner : Text) (k : Action A) (s : Store)
      → (owner ≡ u → R s (k s).1)
      → R s (if_owner c u owner k s).1
  unfolding if_owner refuse
  if_owner_at c u owner k s h = elim (Bool-cases (text_eq owner u)) [
    | inl e ↦ rw e (h (text_eq→eq owner u e))
    | inr e ↦ rw e (rule.same s)
  ]

  pub if_owner-Keeps :
      {A : Type 0} (c : Code) (u owner : Text) (k : Action A)
      → (owner ≡ u → Keeps k)
      → Keeps (if_owner c u owner k)
  if_owner-Keeps c u owner k h s = if_owner_at c u owner k s (λ e. h e s)
