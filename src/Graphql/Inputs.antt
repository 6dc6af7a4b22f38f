-- ===== src/Graphql/Inputs.antt =====
-- internal/graphql/resolver/schema.resolvers.go: the inputs and answers of the mutations, and what
-- they do with one input.
use omnivore_go.Prelude.{
  ℕ, Text, codes, text_eq, Bool, false, List, ◌∷◌, Option, none, some, if◌then◌else◌,
}
use omnivore_go.Graphql.Tables.{Highlight, LibraryItem, Store}

-- The error codes of the results
pub data Code : Type 0 where
  unauthorized bad_request not_found forbidden label_already_exists update_failed bad_data : Code

-- A success, an error result, or a Go error
pub data Answer (A : Type 0) : Type 0 where
  success : A → Answer A
  refused : Code → Answer A
  failed : Answer A

abbrev pub Action : Type 0 → Type 0
Action A = Store → Answer A × Store

pub record CreateLabelInput : Type 0 where
  pub name : Text
  pub color : Option Text
  pub description : Option Text

pub record CreateHighlightInput : Type 0 where
  pub id : Text
  pub short_id : Text
  pub article_id : Text
  pub quote : Option Text
  pub annotation : Option Text
  pub patch : Option Text
  pub color : Option Text

pub record UpdateHighlightInput : Type 0 where
  pub highlight_id : Text
  pub annotation : Option Text
  pub color : Option Text

pub record UpdatePageInput : Type 0 where
  pub page_id : Text
  pub title : Option Text
  pub description : Option Text
  pub saved_at : Option Text
  pub reading_progress_percent : Option ℕ
  pub state : Option Text

unfoldable pub refuse : {A : Type 0} → Code → Action A
refuse c s = (refused c, s)

-- What a parse or a query gives, or else an error result
unfoldable pub given : {A B : Type 0} → Code → Option B → (B → Action A) → Action A
unfolding refuse
given c none k s = refuse c s
given c (some x) k s = k x s

-- if input.X != nil { field = *input.X }
unfoldable pub or_else {ℓ} : {A : Type ℓ} → Option A → A → A
or_else none old = old
or_else (some x) old = x

-- The same for a field that is a pointer
unfoldable pub or_kept : {A : Type 0} → Option A → Option A → Option A
or_kept none old = old
or_kept (some x) old = some x

-- The answer after a write, or else an error result
unfoldable pub written : {A : Type 0} → Code → A → Bool × Store → Answer A × Store
written c x (ok, s) = if ok then (success x, s) else (refused c, s)

unfoldable pub cons_parsed : Option Text → Option (List Text) → Option (List Text)
cons_parsed (some u) (some us) = some (u ∷ us)
cons_parsed (some u) none = none
cons_parsed none us = none

-- The test item.UserID != userID
unfoldable pub if_owner : {A : Type 0} → Code → Text → Text → Action A → Action A
if_owner c user owner k s = if text_eq owner user then k s else refuse c s

unfoldable pub with_archived : Bool → ℕ → LibraryItem → LibraryItem
with_archived archived at row =
    if archived
    then record row { state = codes "ARCHIVED"; archived_at = some at }
    else record row { state = codes "SUCCEEDED"; archived_at = none }

unfoldable pub new_highlight : Text → Text → Text → CreateHighlightInput → Highlight
new_highlight user id item input = record {
  id = id;
  user_id = user;
  library_item_id = item;
  short_id = input.short_id;
  highlight_type = codes "HIGHLIGHT";
  quote = input.quote;
  annotation = input.annotation;
  patch = input.patch;
  color = input.color;
  created_at = 0;
  updated_at = 0;
}

unfoldable pub with_notes : UpdateHighlightInput → Highlight → Highlight
with_notes input h = record h {
  annotation = or_kept input.annotation h.annotation;
  color = or_kept input.color h.color;
}

unfoldable pub is_archived : Option Text → Bool
is_archived none = false
is_archived (some state) = text_eq state (codes "ARCHIVED")

unfoldable pub with_page : UpdatePageInput → ℕ → LibraryItem → LibraryItem
with_page input at row = record row {
  title = or_kept input.title row.title;
  description = or_kept input.description row.description;
  reading_progress_percent = or_else input.reading_progress_percent row.reading_progress_percent;
  state = or_else input.state row.state;
  archived_at = if is_archived input.state then some at else row.archived_at;
}
