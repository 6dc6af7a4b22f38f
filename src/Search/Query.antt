-- ===== src/Search/Query.antt =====
-- internal/service/search.go: the search query language, from the text that a user types to the
-- list of filters.
pub mod Print
use omnivore_go.Prelude.{
  Text, codes, text_eq, fields, join, trim, contains_rune, split_two, Bool, true, false, List, [],
  ◌∷◌, ◌++◌, if◌then◌else◌, ◌==◌, ℕ,
}
use omnivore_go.Prelude.Unicode.{Unicode, to_lower}

pub record SearchFilter : Type 0 where
  pub type : Text
  pub value : Text

abbrev pub fulltext : Text
fulltext = codes "fulltext"

-- What one token appends; `parts` are those of strings.SplitN.
filter_of_parts : Unicode → List Text → List SearchFilter
filter_of_parts u (type ∷ value ∷ []) =
    record { type = to_lower u type; value = trim (λ c. c == b'"') value } ∷ []
filter_of_parts u parts = []

token_filters : Unicode → Text → List SearchFilter
token_filters u token =
    if contains_rune token b':'
    then filter_of_parts u (split_two token b':')
    else record { type = fulltext; value = token } ∷ []

filters_of_tokens : Unicode → List Text → List SearchFilter
filters_of_tokens u [] = []
filters_of_tokens u (token ∷ tokens) = token_filters u token ++ filters_of_tokens u tokens

unfoldable pub parse_search_query : Unicode → Text → List SearchFilter
unfolding filters_of_tokens token_filters filter_of_parts
parse_search_query u query = filters_of_tokens u (fields query)

last_value_from : Text → List SearchFilter → Text → Text
last_value_from value [] type = value
last_value_from value (f ∷ fs) type =
    last_value_from (if text_eq f.type type then f.value else value) fs type

-- The value of the last filter of a type, or the empty text.
unfoldable pub last_filter_value : List SearchFilter → Text → Text
unfolding last_value_from
last_filter_value filters type = last_value_from [] filters type

unfoldable pub has_full_text : List SearchFilter → Bool
has_full_text [] = false
has_full_text (f ∷ fs) = if text_eq f.type fulltext then true else has_full_text fs

unfoldable pub has_full_text_search : Unicode → Text → Bool
unfolding has_full_text
has_full_text_search u query = has_full_text (parse_search_query u query)

unfoldable pub full_text_terms : List SearchFilter → List Text
full_text_terms [] = []
full_text_terms (f ∷ fs) =
    let rest = full_text_terms fs in if text_eq f.type fulltext then f.value ∷ rest else rest

unfoldable pub extract_full_text_query : Unicode → Text → Text
unfolding full_text_terms
extract_full_text_query u query = join (full_text_terms (parse_search_query u query)) (codes " ")
