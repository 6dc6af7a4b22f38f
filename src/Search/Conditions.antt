-- ===== src/Search/Conditions.antt =====
-- internal/service/search.go: the WHERE conditions and the ORDER BY clauses that a search hands to
-- the database.
use omnivore_go.Prelude.{
  ℕ, Text, codes, text_eq, Bool, not, ◌&&◌, List, [], ◌∷◌, ◌++◌, if◌then◌else◌,
}
use omnivore_go.Prelude.Unicode.{Unicode}
use omnivore_go.Search.Query.{
  SearchFilter, parse_search_query, last_filter_value, has_full_text_search,
  extract_full_text_query,
}

-- One call of `Where`, with its arguments.
pub data Condition : Type 0 where
  user_is state_is folder_is label_any content_reader_is matches_text : Text → Condition
  progress_at_least progress_below : ℕ → Condition
  progress_between : ℕ → ℕ → Condition
  has_highlights no_highlights has_labels no_labels : Condition

is_condition : Text → List Condition
is_condition value =
    if text_eq value (codes "read")
    then progress_at_least 98 ∷ []
    else if text_eq value (codes "unread")
    then progress_below 2 ∷ []
    else if text_eq value (codes "reading")
    then progress_between 2 98 ∷ []
    else []

type_condition : Text → Condition
type_condition value =
    if text_eq value (codes "pdf")
    then content_reader_is (codes "PDF")
    else if text_eq value (codes "epub")
    then content_reader_is (codes "EPUB")
    else content_reader_is (codes "WEB")

has_condition : Text → List Condition
has_condition value =
    if text_eq value (codes "highlights")
    then has_highlights ∷ []
    else if text_eq value (codes "labels")
    then has_labels ∷ []
    else []

no_condition : Text → List Condition
no_condition value =
    if text_eq value (codes "highlights")
    then no_highlights ∷ []
    else if text_eq value (codes "labels")
    then no_labels ∷ []
    else []

-- What one round of the loop in applySearchFilters adds.
unfoldable pub filter_condition : SearchFilter → List Condition
unfolding is_condition type_condition has_condition no_condition
filter_condition f =
    if text_eq f.type (codes "in")
    then []
    else if text_eq f.type (codes "is")
    then is_condition f.value
    else if text_eq f.type (codes "label")
    then label_any f.value ∷ []
    else if text_eq f.type (codes "type")
    then type_condition f.value ∷ []
    else if text_eq f.type (codes "has")
    then has_condition f.value
    else if text_eq f.type (codes "no")
    then no_condition f.value
    else if text_eq f.type (codes "fulltext")
    then matches_text f.value ∷ []
    else []

unfoldable pub apply_search_filters : List Condition → List SearchFilter → List Condition
apply_search_filters query [] = query
apply_search_filters query (f ∷ fs) = apply_search_filters (query ++ filter_condition f) fs

abbrev pub deleted : Text
deleted = codes "DELETED"

abbrev pub archived : Text
archived = codes "ARCHIVED"

abbrev pub succeeded : Text
succeeded = codes "SUCCEEDED"

-- The state that the folder filter asks for.
unfoldable pub state_of_folder : Text → Text
state_of_folder folder =
    if text_eq folder (codes "trash")
    then deleted
    else if text_eq folder (codes "archive")
    then archived
    else succeeded

-- A folder of its own, neither a view on states nor all folders.
unfoldable pub is_plain_folder : Text → Bool
is_plain_folder folder =
    not (text_eq folder [])
    && not (text_eq folder (codes "all"))
    && not (text_eq folder (codes "trash"))
    && not (text_eq folder (codes "archive"))

unfoldable pub folder_conditions : Text → Text → List Condition
unfolding is_plain_folder
folder_conditions folder query =
    if is_plain_folder folder
    then folder_is folder ∷ []
    else if text_eq query []
    then folder_is (codes "inbox") ∷ []
    else []

-- The conditions of one search, in the order in which they are added.
unfoldable pub search_conditions : Unicode → Text → Text → List Condition
search_conditions u user_id query =
    let filters = parse_search_query u query in
    let folder = last_filter_value filters (codes "in") in
    apply_search_filters
      (user_is user_id ∷ state_is (state_of_folder folder) ∷ folder_conditions folder query) filters

-- `applySorting`: the terms are put into the text of the clause as they are.
unfoldable pub apply_sorting : Unicode → Text → List Text
apply_sorting u query =
    let rank : Text =
      codes "ts_rank_cd(search_tsv, websearch_to_tsquery('english', '"
      ++ (extract_full_text_query u query ++ codes "')) DESC") in
    let saved : List Text = codes "saved_at DESC NULLS LAST" ∷ [] in
    if has_full_text_search u query then rank ∷ saved else saved
