-- ===== src/Jobs/SavePage/Save.antt =====
-- internal/jobs/save_page.go: fetchContent, the decisions on the item, and HandleSavePage.
use omnivore_go.Prelude.{
  ℕ, ◌/◌, Text, codes, text_eq, fields, Bool, true, false, ◌&&◌, not, [], ◌++◌, length, Option,
  none, some, if◌then◌else◌,
}
use omnivore_go.Prelude.Int.{format_nat}
use omnivore_go.Prelude.Unicode.{Unicode}
use omnivore_go.Jobs.SavePage.Slug.{make_slug}
use omnivore_go.Jobs.SavePage.Page.{
  SavePageData, CachePayload, PageUrl, Article, LibraryItem, World,
}

pub data Outcome : Type 0 where
  saved : Outcome
  skipped : Outcome
  error : Outcome
  -- no part of the URL can be read
  panicked : Outcome

-- A pointer to a text that is not empty.
unfoldable pub given : Option Text → Option Text
given none = none
given (some t) = if text_eq t [] then none else some t

unfoldable pub text_or : Text → Option Text → Text
text_or d none = d
text_or d (some t) = t

unfoldable pub state_of : Option Text → Text
state_of none = codes "SUCCEEDED"
state_of (some t) =
    if not (text_eq t []) && not (text_eq t (codes "PROCESSING")) then t else codes "SUCCEEDED"

unfoldable pub folder_of : Option Text → Text
unfolding given text_or
folder_of f = text_or (codes "inbox") (given f)

unfoldable pub first_title : Text → Text → Text → Text
first_title from_data from_article host =
    if text_eq from_data []
    then if text_eq from_article [] then host else from_article
    else from_data

module _ (w : World) (u : Unicode) where
  open w use {
    Store, now, get_cache, read_payload, blob_storage_url, gcs_upload_bucket, open_storage,
    download, parse_url, readability, parse_rfc3339, select_id, insert, update, end_transaction,
  }

  -- A time that is given and can be parsed.
  unfoldable pub parsed_time : Option Text → Option ℕ
  parsed_time none = none
  parsed_time (some t) = parse_rfc3339 t

  unfoldable pub time_or : ℕ → Option ℕ → ℕ
  time_or d none = d
  time_or d (some t) = t

  unfoldable pub saved_at_of : SavePageData → Store → ℕ
  unfolding given parsed_time time_or
  saved_at_of d s = time_or (now s) (parsed_time (given d.saved_at))

  -- contentBlobPath; times are nanoseconds.
  unfoldable pub content_blob_path : SavePageData → Store → Text
  content_blob_path d s =
      codes "content/"
      ++ (d.user_id
          ++ (codes "/"
              ++ (d.article_saving_request_id
                  ++ (codes "." ++ (format_nat (saved_at_of d s / 1000000) ++ codes ".original")))))

  -- The content and the final URL; `none` is an error.
  unfoldable pub downloaded : Text → Option Text → Option (Text × Text)
  downloaded final none = none
  downloaded final (some content) = some (content, final)

  unfoldable pub from_blob : SavePageData → Text → Store → Option (Text × Text)
  from_blob d final s =
      if text_eq blob_storage_url [] && text_eq gcs_upload_bucket (codes "omnivore-files")
      then some ([], final)
      else if open_storage s
      then downloaded final (download (content_blob_path d s) s)
      else none

  unfoldable pub from_payload :
      SavePageData → Text → Option CachePayload → Store → Option (Text × Text)
  from_payload d final none s = from_blob d final s
  from_payload d final (some p) s =
      some (p.content, (if text_eq p.final_url [] then final else p.final_url))

  unfoldable pub from_cached : SavePageData → Text → Option Text → Store → Option (Text × Text)
  from_cached d final none s = from_blob d final s
  from_cached d final (some raw) s =
      if text_eq raw [] then from_blob d final s else from_payload d final (read_payload raw) s

  -- fetchContent
  unfoldable pub fetch_content : SavePageData → Store → Option (Text × Text)
  fetch_content d s =
      let final = if text_eq d.final_url [] then d.url else d.final_url in
      if text_eq d.cache_key []
      then from_blob d final s
      else from_cached d final (get_cache d.cache_key s) s

  unfoldable pub either_url : Option PageUrl → Option PageUrl → Option PageUrl
  either_url none other = other
  either_url (some p) other = some p

  unfoldable pub item_of : SavePageData → Text → PageUrl → Article → Store → LibraryItem
  item_of d final page a s =
      let title = first_title d.title a.title page.host in
      record {
        id = d.article_saving_request_id;
        user_id = d.user_id;
        slug = make_slug u title;
        title = title;
        author = a.byline;
        description = a.excerpt;
        original_url = final;
        readable_content = a.content;
        word_count = length (fields a.text_content);
        state = state_of d.state;
        saved_at = saved_at_of d s;
        published_at = parsed_time (given d.published_at);
        item_type = codes "ARTICLE";
        content_reader = codes "WEB";
        folder = folder_of d.folder;
        subscription = given d.rss_feed_url;
        site_name = page.hostname;
      }

  -- upsertLibraryItem, behind its SELECT; `false` is an error.
  unfoldable pub write_item : LibraryItem → Option Bool → Store → Bool × Store
  write_item i none s = (false, s)
  write_item i (some false) s = insert i s
  write_item i (some true) s = update i s

  unfoldable pub upsert_library_item : LibraryItem → Store → Bool × Store
  upsert_library_item i s = write_item i (select_id i.id i.user_id s) s

  unfoldable pub upserted : Bool × Store → Outcome × Store
  upserted (false, s) = (error, s)
  upserted (true, s) = (saved, s)

  unfoldable pub save_parsed : SavePageData → Text → Text → Option PageUrl → Store → Outcome × Store
  save_parsed d content final none s = (panicked, s)
  save_parsed d content final (some page) s =
      upserted (
        end_transaction (upsert_library_item (item_of d final page (readability content page) s) s))

  unfoldable pub save_content : SavePageData → Option (Text × Text) → Store → Outcome × Store
  save_content d none s = (error, s)
  save_content d (some (content, final)) s =
      if text_eq content []
      then (error, s)
      else save_parsed d content final (either_url (parse_url final) (parse_url d.url)) s

  -- HandleSavePage; `none` is data that does not parse.
  unfoldable pub handle_save_page : Option SavePageData → Store → Outcome × Store
  handle_save_page none s = (error, s)
  handle_save_page (some d) s =
      if text_eq d.content_type (codes "application/pdf")
      then (skipped, s)
      else save_content d (fetch_content d s) s
