-- ===== src/Graphql/SaveTests.antt =====
-- Saving a URL with a token, from the request to the table.
use omnivore_go.Prelude.{
  ◌≤◌, Text, codes, text_eq, has_prefix, List, [], ◌++◌, none, some, ◌≡◌, refl, ap, inl, arith,
}
use omnivore_go.Prelude.Unicode.{ascii}
use omnivore_go.SaveUrl.Address.{
  check_url, validate_and_clean_url, clean_tracking_params, is_private_ip, is_private_172,
  is_second_byte,
}
use omnivore_go.SaveUrl.Items.{LibraryItem, count, is_at}
use omnivore_go.SaveUrl.Service.{
  answer, enqueue_fetch, insert_item, create_item, create_or_update, save_cleaned, save_url,
  generate_slug,
}
use omnivore_go.SaveUrl.Sample.{table, parser}
use omnivore_go.Auth.Middleware.{Request, ContextUser, generate_token, auth}
use omnivore_go.Auth.Tokens.{auth-generate_token}
use omnivore_go.Auth.Proven.{IsProven}
use omnivore_go.Auth.Sample.{memory, plain, write_claims}
use omnivore_go.Graphql.Inputs.{or_else}
use omnivore_go.Graphql.Save.{
  SaveInput, SaveAnswer, service_input, save_answer, save_as, save_mutation, serve_save, IsSaved,
  serve_save-IsSaved,
}

abbrev token : Text
token = write_claims (record {
  user_id = codes "ann";
  user_role = codes "omnivore_user";
  issuer = codes "omnivore-api";
  subject = codes "ann";
  issued_at = 10;
  expires_at = 604810;
})

abbrev request : Request
request = record { api_key = []; authorization = codes "Bearer " ++ token; auth_cookie = none }

handed_out : generate_token plain (codes "ann") (codes "omnivore_user") 10 ≡ some token
unfolding generate_token
handed_out = refl

user_found :
    (auth plain memory request ([], [])).0
    ≡ some (record { id = codes "ann"; role = codes "omnivore_user" })
user_found =
    ap (λ x. x.0)
      (auth-generate_token plain memory (codes "ann") (codes "omnivore_user") token 10 request
        ([], []) handed_out (omega arith) refl (inl refl)).0

abbrev page : Text
page = codes "https://a.org/x/"

abbrev input : SaveInput
input = record {
  url = page;
  source = none;
  client_request_id = none;
  timezone = none;
  locale = none;
}

abbrev behind : List LibraryItem
behind = (save_url parser ascii table (service_input (codes "r") (codes "ann") input) []).1

request_saved :
    serve_save parser ascii table (λ t. some t) plain memory (codes "r") input request ([], []) []
    ≡ (SaveAnswer.save_success page (codes "r"), behind)
unfolding serve_save save_mutation save_as save_answer service_input or_else save_url save_cleaned
    create_or_update create_item insert_item enqueue_fetch answer generate_slug
    validate_and_clean_url check_url clean_tracking_params is_private_ip is_private_172
    is_second_byte has_prefix text_eq
request_saved = rw user_found refl

none_yet : (user url : Text) → count (is_at user url) [] ≤ 1
unfolding count
none_yet user url = omega arith

serve_save-IsSaved_example :
    (w : ContextUser) × ((auth plain memory request ([], [])).0 ≡ some w)
    × IsProven plain memory request ([], []) w
    × ((v : Text) × (some w.id ≡ some v)
        × IsSaved parser ascii table (λ t. some t) input page v behind)
serve_save-IsSaved_example =
    serve_save-IsSaved parser ascii table (λ t. some t) plain memory (codes "r") page (codes "r")
      input request ([], []) [] behind none_yet request_saved
