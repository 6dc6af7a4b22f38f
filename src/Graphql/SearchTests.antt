-- ===== src/Graphql/SearchTests.antt =====
-- A search with a token, from the request to the items.
use omnivore_go.Prelude.{
  rune_length, byte_length, Text, codes, text_eq, fields, [], ◌++◌, none, some, ◌≡◌, refl, ap, inl,
  arith,
}
use omnivore_go.Prelude.Unicode.{ascii}
use omnivore_go.Prelude.Int.{pos}
use omnivore_go.Search.Query.{parse_search_query, last_filter_value}
use omnivore_go.Search.Conditions.{
  search_conditions, apply_search_filters, filter_condition, state_of_folder, folder_conditions,
  is_plain_folder,
}
use omnivore_go.Search.Service.{
  SearchParams, page_offset, page_size, page, answer, search, add_length, format_int,
}
use omnivore_go.Search.Service.Sample.{Row, sample}
use omnivore_go.Search.Service.Rows.{matching, cut}
use omnivore_go.Auth.Middleware.{Request, ContextUser, generate_token, auth}
use omnivore_go.Auth.Tokens.{auth-generate_token}
use omnivore_go.Auth.Proven.{IsProven}
use omnivore_go.Auth.Sample.{memory, plain, write_claims}
use omnivore_go.Graphql.Search.{
  SearchConnection, SearchAnswer, connection, shown, to_int32, query_or_empty, search_limited,
  search_as, search_items, serve_search, IsOwn, serve_search-IsOwn,
}

abbrev token : Text
token = write_claims (record {
  user_id = codes "ann";
  user_role = codes "omnivore_user";
  issuer = codes "omnivore-api";
  subject = codes "ann";
  issued_at = 10;
  expires_at = 604810;
})

abbrev request : Request
request = record { api_key = []; authorization = codes "Bearer " ++ token; auth_cookie = none }

handed_out : generate_token plain (codes "ann") (codes "omnivore_user") 10 ≡ some token
unfolding generate_token
handed_out = refl

user_found :
    (auth plain memory request ([], [])).0
    ≡ some (record { id = codes "ann"; role = codes "omnivore_user" })
user_found =
    ap (λ x. x.0)
      (auth-generate_token plain memory (codes "ann") (codes "omnivore_user") token 10 request
        ([], []) handed_out (omega arith) refl (inl refl)).0

abbrev two_items : SearchParams
two_items = record { user_id = codes "ann"; query = []; after = none; first = some (pos 2) }

abbrev page_of_two : SearchConnection Row
page_of_two = connection (cut ascii sample two_items 0 2)

items_answered :
    serve_search ascii sample (λ t. some t) plain memory request ([], []) none (some (pos 2)) none
    ≡ SearchAnswer.answered page_of_two
unfolding serve_search search_items search_as search_limited rune_length byte_length query_or_empty
    shown connection to_int32 page_offset page_size search answer page add_length matching
    search_conditions apply_search_filters filter_condition state_of_folder folder_conditions
    is_plain_folder parse_search_query fields last_filter_value text_eq format_int
items_answered = rw user_found refl

serve_search-IsOwn_example :
    (w : ContextUser) × ((auth plain memory request ([], [])).0 ≡ some w)
    × IsProven plain memory request ([], []) w
    × ((v : Text) × (some w.id ≡ some v) × IsOwn ascii sample (λ t. some t) v [] page_of_two)
unfolding page_offset page_size query_or_empty
serve_search-IsOwn_example =
    serve_search-IsOwn ascii sample (λ t. some t) plain memory request ([], []) none none
      (some (pos 2)) 0 2 page_of_two refl refl items_answered
