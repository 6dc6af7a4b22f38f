-- ===== src/Graphql/Tables.antt =====
-- The tables behind the resolvers, with internal/repository: label.go, highlight.go and
-- library_item.go. The policies of the tables are those of migrations 0022, 0065, 0078, 0120, 0123,
-- 0126 and 0173, for the role omnivore_user, which internal/db/auth_tx.go: SetClaims gives a user
-- who is not an administrator.
use omnivore_go.Prelude.{
  ℕ, Text, text_eq, Bool, true, false, ◌||◌, ◌&&◌, not, List, [], ◌∷◌, ◌++◌, map, select, Option,
  none, some, ◌≡◌, if◌then◌else◌,
}
use omnivore_go.Prelude.First.{first}

pub record Label : Type 0 where
  pub id : Text
  pub user_id : Text
  pub name : Text
  pub color : Text
  pub description : Option Text

-- The columns of highlight that the resolvers read or write
pub record Highlight : Type 0 where
  pub id : Text
  pub user_id : Text
  pub library_item_id : Text
  pub short_id : Text
  pub highlight_type : Text
  pub quote : Option Text
  pub annotation : Option Text
  pub patch : Option Text
  pub color : Option Text
  pub created_at : ℕ
  pub updated_at : ℕ

-- The columns of library_item that the resolvers write. Go has a percentage as float64 and a time in
-- nanoseconds; the table has them as real and in microseconds.
pub record LibraryItem : Type 0 where
  pub id : Text
  pub user_id : Text
  pub title : Option Text
  pub description : Option Text
  pub state : Text
  pub archived_at : Option ℕ
  pub reading_progress_percent : ℕ
  pub saved_at : ℕ
  pub updated_at : ℕ
  pub label_names : List Text

pub record EntityLabel : Type 0 where
  pub library_item_id : Text
  pub label_id : Text

pub record Store : Type 0 where
  pub items : List LibraryItem
  pub labels : List Label
  pub assigned : List EntityLabel
  pub highlights : List Highlight

pub data Call : Type 0 where
  call_find_label call_create_label call_get_labels call_get_item call_update_item : Call
  call_set_labels call_create_highlight call_get_highlight call_update_highlight : Call
  call_delete_highlight : Call

-- Package uuid, LOWER and array_agg(DISTINCT ...) of PostgreSQL, its conversions to real and to
-- microseconds, time.Parse, the clock of the process, the time that gorm or a trigger gives a row that
-- is written, in microseconds, and which calls fail.
pub record Outside : Type 0 where
  pub parse_uuid : Text → Option Text
  pub new_uuid : Store → Text
  pub lower : Text → Text
  pub array_agg_distinct : List Text → List Text
  pub to_real : ℕ → ℕ
  pub to_real-twice : (x : ℕ) → to_real (to_real x) ≡ to_real x
  pub to_micros : ℕ → ℕ
  pub to_micros-twice : (t : ℕ) → to_micros (to_micros t) ≡ to_micros t
  pub parse_time : Text → Option ℕ
  pub now : Store → ℕ
  pub saved_now : Store → ℕ
  pub fails : Call → Store → Bool

unfoldable pub put_item : Text → LibraryItem → LibraryItem → LibraryItem
put_item user new r = if text_eq r.id new.id && text_eq r.user_id user then new else r

unfoldable pub put_highlight : Text → Highlight → Highlight → Highlight
put_highlight user new r = if text_eq r.id new.id && text_eq r.user_id user then new else r

-- The keys of labels: the id, and a name of a user
unfoldable pub is_same_label : Label → Label → Bool
is_same_label l r = text_eq r.id l.id || (text_eq r.user_id l.user_id && text_eq r.name l.name)

-- The keys of highlight: the id and the short id
unfoldable pub is_same_highlight : Highlight → Highlight → Bool
is_same_highlight h r = text_eq r.id h.id || text_eq r.short_id h.short_id

unfoldable pub has {ℓ} : {A : Type ℓ} → (A → Bool) → List A → Bool
has p [] = false
has p (x ∷ xs) = p x || has p xs

unfoldable pub assign : Text → List Text → List EntityLabel
assign item [] = []
assign item (l ∷ ls) = record { library_item_id = item; label_id = l } ∷ assign item ls

-- The UPDATE of label_names, of an item that is the user's
unfoldable pub name_labels : Text → Text → List Text → ℕ → LibraryItem → LibraryItem
name_labels user item names at r =
    if text_eq r.id item && text_eq r.user_id user
    then record r { label_names = names; updated_at = at }
    else r

-- The assignments of an item are replaced by new ones.
unfoldable pub reassigned : Text → List Text → List EntityLabel → List EntityLabel
reassigned item ids links =
    assign item ids ++ select (λ a. not (text_eq a.library_item_id item)) links

module _ (outside : Outside) where
  open outside use {lower, array_agg_distinct, to_real, to_micros, saved_now, fails}

  unfoldable pub micros_or_null : Option ℕ → Option ℕ
  micros_or_null none = none
  micros_or_null (some t) = some (to_micros t)

  -- What the columns hold of a row that is written.
  unfoldable pub stored : LibraryItem → LibraryItem
  stored i = record i {
    archived_at = micros_or_null i.archived_at;
    reading_progress_percent = to_real i.reading_progress_percent;
    saved_at = to_micros i.saved_at;
  }

  -- The names of the labels that are assigned to an item, of which the user reads the own ones.
  unfoldable pub assigned_names : Text → Text → List EntityLabel → List Label → List Text
  assigned_names user item links ls = array_agg_distinct (
      map (λ l. l.name)
        (select
          (λ l.
            has (λ a. text_eq a.library_item_id item && text_eq a.label_id l.id) links
            && text_eq l.user_id user)
          ls))

  unfoldable pub is_named : Text → Text → Label → Bool
  is_named user name r = text_eq r.user_id user && text_eq (lower r.name) (lower name)

  -- FindByName: `none` is an error.
  unfoldable pub find_label_by_name : Text → Text → Store → Option (Option Label)
  find_label_by_name user name s =
      if fails Call.call_find_label s then none else some (first (is_named user name) s.labels)

  -- LabelRepository.Create
  unfoldable pub insert_label : Label → Store → Bool × Store
  insert_label l s =
      if fails Call.call_create_label s || has (is_same_label l) s.labels
      then (false, s)
      else (true, record s { labels = l ∷ s.labels })

  -- GetByIDs: a user reads the own labels.
  unfoldable pub get_labels : Text → List Text → Store → Option (List Label)
  get_labels user ids s =
      if fails Call.call_get_labels s
      then none
      else some (select (λ r. has (text_eq r.id) ids && text_eq r.user_id user) s.labels)

  -- LibraryItemRepository.GetByID: a user reads the own items; `none` is an error.
  unfoldable pub get_item : Text → Text → Store → Option LibraryItem
  get_item user id s =
      if fails Call.call_get_item s
      then none
      else first (λ r. text_eq r.id id && text_eq r.user_id user) s.items

  -- LibraryItemRepository.Update: a user updates the own items; gorm sets the time of the update.
  unfoldable pub update_item : Text → LibraryItem → Store → Bool × Store
  update_item user i s = if fails Call.call_update_item s then (false, s) else (
    true,
    record s {
      items = map (put_item user (record (stored i) { updated_at = saved_now s })) s.items;
    },
  )

  -- LibraryItemRepository.SetLabels: the table entity_labels has no policy; that of library_item lets
  -- the UPDATE write the user's item alone.
  unfoldable pub set_item_labels : Text → Text → List Text → Store → Bool × Store
  set_item_labels user item ids s =
      let links = reassigned item ids s.assigned in
      let names = assigned_names user item links s.labels in
      if fails Call.call_set_labels s then (false, s) else (
        true,
        record s {
          assigned = links;
          items = map (name_labels user item names (saved_now s)) s.items;
        },
      )

  -- HighlightRepository.Create: gorm sets the times.
  unfoldable pub insert_highlight : Highlight → Store → Bool × Store
  insert_highlight h s =
      if fails Call.call_create_highlight s || has (is_same_highlight h) s.highlights
      then (false, s)
      else (
        true,
        record s {
          highlights =
              record h { created_at = saved_now s; updated_at = saved_now s } ∷ s.highlights;
        },
      )

  -- HighlightRepository.GetByID: every user reads all highlights.
  unfoldable pub get_highlight : Text → Store → Option Highlight
  get_highlight id s =
      if fails Call.call_get_highlight s then none else first (λ r. text_eq r.id id) s.highlights

  -- HighlightRepository.Update: a user updates the own highlights.
  unfoldable pub update_highlight : Text → Highlight → Store → Bool × Store
  update_highlight user h s = if fails Call.call_update_highlight s then (false, s) else (
    true,
    record s {
      highlights = map (put_highlight user (record h { updated_at = saved_now s })) s.highlights;
    },
  )

  -- HighlightRepository.Delete: a user deletes the own highlights, and to delete none is no error.
  unfoldable pub delete_highlight : Text → Text → Store → Bool × Store
  delete_highlight user id s = if fails Call.call_delete_highlight s then (false, s) else (
    true,
    record s {
      highlights = select (λ r. not (text_eq r.id id && text_eq r.user_id user)) s.highlights;
    },
  )
