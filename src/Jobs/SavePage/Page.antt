-- ===== src/Jobs/SavePage/Page.antt =====
-- internal/jobs/save_page.go: the payload, the library item, and what the job calls: Redis, the
-- blob storage, packages url, time and json, go-readability and PostgreSQL, as parameters.
use omnivore_go.Prelude.{
  ℕ, Text, text_eq, Bool, true, false, ◌&&◌, List, [], ◌∷◌, map, Option, none, some, ◌≡◌,
  if◌then◌else◌,
}

-- The fields that the job reads.
pub record SavePageData : Type 0 where
  pub user_id : Text
  pub url : Text
  pub final_url : Text
  pub article_saving_request_id : Text
  pub state : Option Text
  pub folder : Option Text
  pub rss_feed_url : Option Text
  pub saved_at : Option Text
  pub published_at : Option Text
  pub title : Text
  pub content_type : Text
  pub cache_key : Text

pub record CachePayload : Type 0 where
  pub final_url : Text
  pub title : Text
  pub content : Text

pub record PageUrl : Type 0 where
  pub host : Text
  pub hostname : Text

-- What go-readability extracts; the fields are empty where it fails.
pub record Article : Type 0 where
  pub title : Text
  pub text_content : Text
  pub content : Text
  pub byline : Text
  pub excerpt : Text

pub record LibraryItem : Type 0 where
  pub id : Text
  pub user_id : Text
  pub slug : Text
  pub title : Text
  pub author : Text
  pub description : Text
  pub original_url : Text
  pub readable_content : Text
  pub word_count : ℕ
  pub state : Text
  pub saved_at : ℕ
  pub published_at : Option ℕ
  pub item_type : Text
  pub content_reader : Text
  pub folder : Text
  pub subscription : Option Text
  pub site_name : Text

-- A row of omnivore.library_item; `none` is NULL.
pub record Row : Type 0 where
  pub id : Text
  pub user_id : Text
  pub slug : Text
  pub title : Text
  pub author : Option Text
  pub description : Option Text
  pub original_url : Text
  pub readable_content : Text
  pub word_count : ℕ
  pub state : Text
  pub saved_at : ℕ
  pub published_at : Option ℕ
  pub item_type : Text
  pub content_reader : Text
  pub folder : Text
  pub subscription : Option Text
  pub site_name : Option Text

-- nullStr
unfoldable pub null_str : Text → Option Text
null_str s = if text_eq s [] then none else some s

-- The row of the INSERT.
unfoldable pub inserted_row : LibraryItem → Row
inserted_row i = record {
  id = i.id;
  user_id = i.user_id;
  slug = i.slug;
  title = i.title;
  author = null_str i.author;
  description = null_str i.description;
  original_url = i.original_url;
  readable_content = i.readable_content;
  word_count = i.word_count;
  state = i.state;
  saved_at = i.saved_at;
  published_at = i.published_at;
  item_type = i.item_type;
  content_reader = i.content_reader;
  folder = i.folder;
  subscription = i.subscription;
  site_name = null_str i.site_name;
}

-- The SET clause of the UPDATE.
unfoldable pub updated_row : LibraryItem → Row → Row
updated_row i r = record r {
  title = i.title;
  author = null_str i.author;
  description = null_str i.description;
  readable_content = i.readable_content;
  word_count = i.word_count;
  state = i.state;
  published_at = i.published_at;
  site_name = null_str i.site_name;
}

-- WHERE id = $1 AND user_id = $2
unfoldable pub is_row : Text → Text → Row → Bool
is_row id user r = text_eq r.id id && text_eq r.user_id user

unfoldable pub has_row : (Row → Bool) → List Row → Bool
has_row p [] = false
has_row p (r ∷ rs) = if p r then true else has_row p rs

abbrev pub put_rows : (Row → Bool) → (Row → Row) → List Row → List Row
put_rows p f rs = map (λ r. if p r then f r else r) rs

-- An error is `none` or `false`; a transaction is rolled back at an error, and otherwise ended.
pub record World : Type 1 where
  pub Store : Type 0
  pub rows : Store → List Row
  pub now : Store → ℕ
  pub get_cache : Text → Store → Option Text
  pub read_payload : Text → Option CachePayload
  pub blob_storage_url : Text
  pub gcs_upload_bucket : Text
  pub open_storage : Store → Bool
  pub download : Text → Store → Option Text
  pub parse_url : Text → Option PageUrl
  pub readability : Text → PageUrl → Article
  pub parse_rfc3339 : Text → Option ℕ
  pub select_id : Text → Text → Store → Option Bool
  pub insert : LibraryItem → Store → Bool × Store
  pub update : LibraryItem → Store → Bool × Store
  pub end_transaction : Bool × Store → Bool × Store
  pub select_id_lem :
      (id user : Text) (s : Store) (b : Bool)
      → select_id id user s ≡ some b
      → has_row (is_row id user) (rows s) ≡ b
  pub insert_lem :
      (i : LibraryItem) (s s' : Store) → insert i s ≡ (true, s') → rows s' ≡ inserted_row i ∷ rows s
  pub update_lem :
      (i : LibraryItem) (s s' : Store)
      → update i s ≡ (true, s')
      → rows s' ≡ put_rows (is_row i.id i.user_id) (updated_row i) (rows s)
  pub end_transaction_lem :
      (r : Bool × Store) (s' : Store)
      → end_transaction r ≡ (true, s')
      → (r.0 ≡ true) × (rows s' ≡ rows r.1)
