-- ===== src/SaveUrl/Tests.antt =====
-- Runs of SaveURL over a small table, and the theorems at concrete inputs.
use omnivore_go.Prelude.{
  ◌&&◌, ◌||◌, ◌==◌, leb, ◌≤◌, Text, codes, text_eq, has_prefix, List, [], none, some, true, false,
  ◌≡◌, refl, arith,
}
use omnivore_go.Prelude.Unicode.{ascii}
use omnivore_go.SaveUrl.Address.{
  check_url, validate_and_clean_url, clean_tracking_params, is_private_ip, is_private_172,
  is_second_byte,
}
use omnivore_go.SaveUrl.Items.{LibraryItem, count, is_at}
use omnivore_go.SaveUrl.Service.{
  SaveUrlInput, SaveUrlResult, answer, enqueue_fetch, insert_item, create_item, create_or_update,
  save_cleaned, save_url, generate_slug,
}
use omnivore_go.SaveUrl.Once.{save_url-once}
use omnivore_go.SaveUrl.Private.{dotted, is_private_ip-dotted}
use omnivore_go.SaveUrl.Sample.{table, parser}

private : is_private_ip (codes "172.31.0.1") ≡ true
unfolding is_private_ip is_private_172 is_second_byte has_prefix
private = refl

public : is_private_ip (codes "172.32.0.1") ≡ false
unfolding is_private_ip is_private_172 is_second_byte has_prefix
public = refl

abbrev page : Text
page = codes "https://a.org/x/"

abbrev request : SaveUrlInput
request = record {
  user_id = codes "ann";
  url = page;
  source = codes "api";
  client_request_id = codes "r";
  timezone = none;
  locale = none;
  labels = [];
}

abbrev behind : List LibraryItem
behind = (save_url parser ascii table request []).1

abbrev result : SaveUrlResult
result = record { url = page; client_request_id = codes "r"; library_item_id = codes "id" }

saved : save_url parser ascii table request [] ≡ (some result, behind)
unfolding save_url save_cleaned create_or_update create_item insert_item enqueue_fetch answer
    generate_slug validate_and_clean_url check_url clean_tracking_params is_private_ip
    is_private_172 is_second_byte has_prefix text_eq
saved = refl

none_yet : (url : Text) → count (is_at (codes "ann") url) [] ≤ 1
unfolding count
none_yet url = omega arith

save_url-once_example :
    (validate_and_clean_url parser page ≡ some page) × (count (is_at (codes "ann") page) behind ≡ 1)
save_url-once_example = save_url-once parser ascii table request result [] behind none_yet saved

is_private_ip-dotted_example :
    is_private_ip (dotted 172 20 (codes "0.1"))
    ≡ ((172 == 10) || ((172 == 172) && (leb 16 20 && leb 20 31)) || ((172 == 192) && (20 == 168)))
is_private_ip-dotted_example = is_private_ip-dotted 172 20 (codes "0.1") (omega arith) (omega arith)
