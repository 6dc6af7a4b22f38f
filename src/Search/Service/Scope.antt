-- ===== src/Search/Service/Scope.antt =====
-- Which items a search can return: those of the user who asks, in the state that the folder
-- filter names; and what the filters on progress and labels select.
use mathlib.Core.List.{append_assoc, append-nil}
use omnivore_go.Prelude.{
  ℕ, Text, codes, text_eq, text_eq→eq, Bool, true, false, ◌&&◌, ◌||◌, ◌==◌, ◌↔◌, List, [], ◌∷◌,
  ◌++◌, ◌≡◌, refl, sym, ap, ◌∙◌, All, All-imp, select-none, arith, &&_true,
}
use omnivore_go.Prelude.Unicode.{Unicode}
use omnivore_go.Prelude.Int.{pos}
use omnivore_go.Search.Query.{SearchFilter, parse_search_query, last_filter_value}
use omnivore_go.Search.Conditions.{
  Condition, user_is, state_is, filter_condition, apply_search_filters, state_of_folder,
  folder_conditions, search_conditions, apply_sorting,
}
use omnivore_go.Search.Library.{Library, holds_all, sql_test, array_length}
use omnivore_go.Search.Service.{SearchParams, SearchResult, found, page_offset, page_size, search}
use omnivore_go.Search.Service.Rows.{matching, search-holds}

-- The conditions that the filters of a query add.
abbrev filter_conditions : List SearchFilter → List Condition
filter_conditions [] = []
filter_conditions (f ∷ fs) = filter_condition f ++ filter_conditions fs

apply_search_filters-append :
    (q : List Condition) (fs : List SearchFilter)
    → apply_search_filters q fs ≡ q ++ filter_conditions fs
unfolding apply_search_filters
apply_search_filters-append q [] = sym (append-nil q)
apply_search_filters-append q (f ∷ fs) =
    apply_search_filters-append (q ++ filter_condition f) fs
    ∙ append_assoc q (filter_condition f) (filter_conditions fs)

-- The value of the filter in:…
abbrev pub folder_filter : Unicode → Text → Text
folder_filter u query = last_filter_value (parse_search_query u query) (codes "in")

search_conditions-append :
    (u : Unicode) (user_id query : Text)
    → search_conditions u user_id query
      ≡ user_is user_id
        ∷ state_is (state_of_folder (folder_filter u query))
        ∷ (folder_conditions (folder_filter u query) query
            ++ filter_conditions (parse_search_query u query))
unfolding search_conditions
search_conditions-append u user_id query =
    apply_search_filters-append _ (parse_search_query u query)

&&_false : (b : Bool) → (b && false) ≡ false
&&_false b = ground arith

module _ (u : Unicode) (lib : Library) where
  open lib use {Item, holds, user_id, state, label_names, progress, sorted}

  -- The item is the user's, and in the state that the folder filter names.
  abbrev pub InScope : SearchParams → Item → Type 0
  InScope p i = (user_id i ≡ p.user_id) × (state i ≡ state_of_folder (folder_filter u p.query))

  holds_all-InScope :
      (p : SearchParams) (i : Item)
      → holds_all holds (search_conditions u p.user_id p.query) i ≡ true
      → InScope p i
  holds_all-InScope p i h =
      let folder = folder_filter u p.query in
      let all = rw (search_conditions-append u p.user_id p.query) at h in
      let (mine, rest) = &&_true (holds (user_is p.user_id) i) _ all in
      let (placed, _) = &&_true (holds (state_is (state_of_folder folder)) i) _ rest in
      (
        text_eq→eq (user_id i) p.user_id (sym (lib.holds-user_is p.user_id i) ∙ mine),
        text_eq→eq (state i) (state_of_folder folder)
            (sym (lib.holds-state_is (state_of_folder folder) i) ∙ placed),
      )

  -- Every item of an answered page, at an offset and a size that are not negative, belongs to the
  -- user of the search, and is deleted, archived or saved as the folder filter says.
  pub search-InScope :
      (p : SearchParams) (o n : ℕ) (r : SearchResult Item)
      → page_offset p.after ≡ pos o
      → page_size p.first ≡ pos n
      → search u lib p ≡ found r
      → All (InScope p) r.items
  search-InScope p o n r at size e =
      All-imp (λ i. holds_all holds (search_conditions u p.user_id p.query) i ≡ true) (InScope p)
        (holds_all-InScope p) r.items (search-holds u lib p o n r at size e)

  holds_all-append :
      (cs ds : List Condition) (i : Item)
      → holds_all holds (cs ++ ds) i ≡ (holds_all holds cs i && holds_all holds ds i)
  holds_all-append [] ds i = refl
  holds_all-append (c ∷ cs) ds i = ground (arith, holds_all-append cs ds i)

  -- The filter no:labels.
  abbrev pub no_labels_filter : SearchFilter
  no_labels_filter = record { type = codes "no"; value = codes "labels" }

  no_labels-false : (i : Item) → holds_all holds (filter_condition no_labels_filter) i ≡ false
  unfolding filter_condition text_eq
  no_labels-false i = rw (lib.holds-no_labels i) (never (label_names i))
    where
      never : (xs : List Text) → (sql_test (λ n. n == 0) (array_length xs) && true) ≡ false
      never [] = refl
      never (x ∷ xs) = ground arith

  no_labels-conditions :
      (pre post : List SearchFilter) (i : Item)
      → holds_all holds (filter_conditions (pre ++ no_labels_filter ∷ post)) i ≡ false
  no_labels-conditions [] post i =
      rw (holds_all-append (filter_condition no_labels_filter) _ i, no_labels-false i)
  no_labels-conditions (f ∷ pre) post i =
      rw (holds_all-append (filter_condition f) _ i, no_labels-conditions pre post i)
        (&&_false (holds_all holds (filter_condition f) i))

  no_labels-search :
      (p : SearchParams) (pre post : List SearchFilter) (i : Item)
      → parse_search_query u p.query ≡ pre ++ no_labels_filter ∷ post
      → holds_all holds (search_conditions u p.user_id p.query) i ≡ false
  no_labels-search p pre post i e =
      let none_of_them = no_labels-conditions pre post i in
      rw (search_conditions-append u p.user_id p.query) (
        ground (
          arith,
          ap (λ fs. holds_all holds (filter_conditions fs) i) e,
          none_of_them,
          holds_all-append (folder_conditions (folder_filter u p.query) p.query)
              (filter_conditions (parse_search_query u p.query)) i,
        ))

  -- A query with the filter no:labels matches no item at all, whatever the library holds: the code
  -- asks for array_length(label_names, 1) = 0, and that length is NULL at an empty array.
  pub no_labels-matching :
      (p : SearchParams) (pre post : List SearchFilter)
      → parse_search_query u p.query ≡ pre ++ no_labels_filter ∷ post
      → matching u lib p ≡ []
  unfolding matching
  no_labels-matching p pre post e =
      select-none (holds_all holds (search_conditions u p.user_id p.query))
        (sorted (apply_sorting u p.query)) (λ i. no_labels-search p pre post i e)

  -- Whether an item passes the filter is:value.
  abbrev pub passes_is : Text → Item → Bool
  passes_is value i =
      holds_all holds (filter_condition (record { type = codes "is"; value = value })) i

  -- Every item passes is:unread, is:reading or is:read; it passes two of them exactly at a progress
  -- of 98 percent, where it is both being read and read.
  pub is-progress :
      (i : Item)
      → ((passes_is (codes "unread") i
            || passes_is (codes "reading") i
            || passes_is (codes "read") i)
          ≡ true)
        × ((passes_is (codes "unread") i && passes_is (codes "reading") i) ≡ false)
        × (((passes_is (codes "reading") i && passes_is (codes "read") i) ≡ true)
            ↔ (progress i ≡ 9800))
  unfolding filter_condition text_eq
  is-progress i =
      rw
        (
          lib.holds-progress_below 2 i,
          lib.holds-progress_between 2 98 i,
          lib.holds-progress_at_least 98 i,
        )
        (ground arith, ground arith, ground arith)
