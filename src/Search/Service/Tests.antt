-- ===== src/Search/Service/Tests.antt =====
-- Runs of the search service over a small library, and the theorems at concrete inputs.
use omnivore_go.Prelude.{
  suc, Text, codes, text_eq, join, fields, is_space, trim, split_two, List, [], ◌∷◌, ◌≡◌, refl,
  Option, none, some, length, All, arith,
}
use omnivore_go.Prelude.Unicode.{ascii}
use omnivore_go.Prelude.Int.{ℤ, pos}
use omnivore_go.Search.Query.{SearchFilter, parse_search_query, last_filter_value}
use omnivore_go.Search.Query.Print.{print_query, parse-print}
use omnivore_go.Search.Conditions.{
  search_conditions, apply_search_filters, filter_condition, state_of_folder, folder_conditions,
  is_plain_folder,
}
use omnivore_go.Search.Service.{
  SearchParams, SearchResult, page_offset, page_size, page, answer, search, add_length, format_int,
}
use omnivore_go.Search.Service.Sample.{Row, sample, sample-IsAvailable}
use omnivore_go.Search.Service.Rows.{matching, cut}
use omnivore_go.Search.Service.Pages.{read_all, read_all-matching}
use omnivore_go.Search.Service.Scope.{InScope, search-InScope, no_labels-matching}

abbrev ann : Text → Option ℤ → SearchParams
ann query first = record { user_id = codes "ann"; query = query; after = none; first = first }

abbrev written : List SearchFilter
written =
    record { type = codes "in"; value = codes "trash" }
    ∷ record { type = codes "label"; value = codes "a:b" }
    ∷ []

printed : print_query written ≡ codes "in:trash label:a:b"
unfolding join
printed = refl

parse-print_example : parse_search_query ascii (print_query written) ≡ written
unfolding is_space
parse-print_example = parse-print ascii written (ground arith)

read_all-matching_example :
    read_all ascii sample
      (suc (length (matching ascii sample (ann [] (some (pos 2))))))
      (ann [] (some (pos 2)))
    ≡ some (matching ascii sample (ann [] (some (pos 2))))
unfolding page_size matching search_conditions apply_search_filters filter_condition state_of_folder
    folder_conditions is_plain_folder parse_search_query fields last_filter_value text_eq
read_all-matching_example =
    read_all-matching ascii sample sample-IsAvailable (ann [] (some (pos 2))) 2
      ((refl, (refl, tt)), ((refl, tt), (tt, tt))) refl refl (omega arith) (omega arith)

abbrev first_page : SearchResult Row
first_page = cut ascii sample (ann [] (some (pos 2))) 0 2

search-InScope_example : All (InScope ascii sample (ann [] (some (pos 2)))) first_page.items
unfolding page_offset page_size search answer page add_length matching search_conditions
    apply_search_filters filter_condition state_of_folder folder_conditions is_plain_folder
    parse_search_query fields last_filter_value text_eq format_int
search-InScope_example =
    search-InScope ascii sample (ann [] (some (pos 2))) 0 2 first_page refl refl refl

no_labels-matching_example : matching ascii sample (ann (codes "no:labels") none) ≡ []
unfolding parse_search_query fields split_two trim
no_labels-matching_example =
    no_labels-matching ascii sample (ann (codes "no:labels") none) [] [] refl
