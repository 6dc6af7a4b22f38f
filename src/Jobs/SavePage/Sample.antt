-- ===== src/Jobs/SavePage/Sample.antt =====
-- A world that answers every request: the cache holds one page, and the table one item.
use omnivore_go.Prelude.{codes, Bool, true, false, List, [], ◌∷◌, none, some, ◌≡◌, sym, ap}
use omnivore_go.Jobs.SavePage.Page.{
  SavePageData, Row, World, inserted_row, updated_row, is_row, has_row, put_rows,
}

pub ended : (r : Bool × List Row) (s : List Row) → r ≡ (true, s) → (r.0 ≡ true) × (s ≡ r.1)
ended r s e = (ap (λ x. x.0) e, sym (ap (λ x. x.1) e))

pub answered : (a b : Bool) → some a ≡ some b → a ≡ b
answered a b e = cc e

abbrev pub table : World
table = record {
  Store = List Row;
  rows = λ s. s;
  now = λ s. 9000000;
  get_cache = λ k s. some k;
  read_payload = λ raw. some (record { final_url = []; title = []; content = raw });
  blob_storage_url = [];
  gcs_upload_bucket = codes "omnivore-files";
  open_storage = λ s. false;
  download = λ path s. none;
  parse_url = λ t. some (record { host = t; hostname = t });
  readability = λ html page. record {
    title = codes "A Page";
    text_content = html;
    content = html;
    byline = [];
    excerpt = [];
  };
  parse_rfc3339 = λ t. none;
  select_id = λ id user s. some (has_row (is_row id user) s);
  insert = λ i s. (true, inserted_row i ∷ s);
  update = λ i s. (true, put_rows (is_row i.id i.user_id) (updated_row i) s);
  end_transaction = λ r. r;
  select_id_lem = λ id user s b e. answered (has_row (is_row id user) s) b e;
  insert_lem = λ i s s' e. sym (ap (λ r. r.1) e);
  update_lem = λ i s s' e. sym (ap (λ r. r.1) e);
  end_transaction_lem = λ r s e. ended r s e;
}

abbrev pub being_fetched : Row
being_fetched = record {
  id = codes "i1";
  user_id = codes "ann";
  slug = codes "a";
  title = codes "https://a.b";
  author = none;
  description = none;
  original_url = codes "https://a.b";
  readable_content = [];
  word_count = 0;
  state = codes "PROCESSING";
  saved_at = 1;
  published_at = none;
  item_type = codes "WEB";
  content_reader = codes "WEB";
  folder = codes "inbox";
  subscription = none;
  site_name = none;
}

abbrev pub page_of_ann : SavePageData
page_of_ann = record {
  user_id = codes "ann";
  url = codes "https://a.b";
  final_url = [];
  article_saving_request_id = codes "i1";
  state = some (codes "PROCESSING");
  folder = none;
  rss_feed_url = none;
  saved_at = none;
  published_at = none;
  title = [];
  content_type = [];
  cache_key = codes "two words";
}
