-- ===== src/SaveUrl/Service.antt =====
-- internal/service/save_url.go: SaveURL and the slug of a new item.
use omnivore_go.Prelude.{
  ℕ, ◌%◌, ◌==◌, Text, codes, Bool, true, false, List, [], ◌∷◌, ◌++◌, Option, none, some, take, map,
  if◌then◌else◌,
}
use omnivore_go.Prelude.Int.{format_nat}
use omnivore_go.Prelude.Unicode.{Unicode, to_lower}
use omnivore_go.SaveUrl.Address.{UrlPackage, validate_and_clean_url}
use omnivore_go.SaveUrl.Items.{LibraryItem, Rows, QueuedFetch, is_at}

pub record SaveUrlInput : Type 0 where
  pub user_id : Text
  pub url : Text
  pub source : Text
  pub client_request_id : Text
  pub timezone : Option Text
  pub locale : Option Text
  pub labels : List Text

pub record SaveUrlResult : Type 0 where
  pub url : Text
  pub client_request_id : Text
  pub library_item_id : Text

unfoldable pub trim_slash : Text → Text
trim_slash [] = []
trim_slash (c ∷ []) = if c == b'/' then [] else c ∷ []
trim_slash (c ∷ d ∷ s) = c ∷ trim_slash (d ∷ s)

unfoldable pub dash_for : ℕ → ℕ → ℕ
dash_for old c = if c == old then b'-' else c

-- The slug of a parsed URL; its parts are ASCII here, so bytes are code points.
unfoldable pub slug_of : Unicode → Text → ℕ → Text
unfolding trim_slash dash_for
slug_of u host_and_path nanos =
    let dashed = map (dash_for b'.') (map (dash_for b'/') (trim_slash host_and_path)) in
    take 100 (to_lower u dashed) ++ (codes "-" ++ format_nat (nanos % 1000000))

module _ (net : UrlPackage) (unicode : Unicode) (db : Rows) where
  open net use {parse, hostname, path}
  open db use {Store, now, new_uuid, select_first, insert, save, add_job}

  -- `none`: the URL does not parse, and reading its parts panics.
  unfoldable pub generate_slug : Text → ℕ → Option Text
  unfolding slug_of
  generate_slug url nanos = elim (parse url) [
    | none ↦ none
    | some u ↦ some (slug_of unicode (hostname u ++ path u) nanos)
  ]

  unfoldable pub new_item : SaveUrlInput → Text → Text → Text → Store → LibraryItem
  new_item input url id slug s = record {
    id = id;
    user_id = input.user_id;
    original_url = url;
    slug = slug;
    title = url;
    state = codes "PROCESSING";
    item_type = codes "WEB";
    readable_content = [];
    folder = codes "inbox";
    saved_at = now s;
  }

  unfoldable pub fetch_request : SaveUrlInput → Text → Text → QueuedFetch
  fetch_request input url id = record {
    name = codes "fetch-content";
    request = record {
      url = url;
      user_id = input.user_id;
      library_item_id = id;
      folder = codes "inbox";
      priority = codes "high";
      state = codes "PROCESSING";
      timezone = input.timezone;
      locale = input.locale;
      labels = input.labels;
    };
    job_id = codes "fetch-content_" ++ input.client_request_id;
    attempts = 2;
    priority = 1;
    backoff = 2000;
  }

  unfoldable pub answer : SaveUrlInput → Text → Text → Bool × Store → Option SaveUrlResult × Store
  answer input url id (false, s) = (none, s)
  answer input url id (true, s) = (
    some (record { url = url; client_request_id = input.client_request_id; library_item_id = id }),
    s,
  )

  unfoldable pub enqueue_fetch :
      SaveUrlInput → Text → Text → Bool × Store → Option SaveUrlResult × Store
  enqueue_fetch input url id (false, s) = (none, s)
  enqueue_fetch input url id (true, s) =
      answer input url id (add_job (fetch_request input url id) s)

  unfoldable pub insert_item :
      SaveUrlInput → Text → Text → Option Text → Store → Option SaveUrlResult × Store
  insert_item input url id none s = (none, s)
  insert_item input url id (some slug) s =
      enqueue_fetch input url id (insert (new_item input url id slug s) s)

  unfoldable pub create_item : SaveUrlInput → Text → Text × Store → Option SaveUrlResult × Store
  create_item input url (id, s) = insert_item input url id (generate_slug url (now s)) s

  unfoldable pub update_item :
      SaveUrlInput → Text → LibraryItem → Store → Option SaveUrlResult × Store
  update_item input url i s =
      enqueue_fetch input url i.id
        (save (record i { state = codes "PROCESSING"; saved_at = now s }) s)

  unfoldable pub create_or_update :
      SaveUrlInput → Text → Option (Option LibraryItem) → Store → Option SaveUrlResult × Store
  create_or_update input url none s = (none, s)
  create_or_update input url (some none) s = create_item input url (new_uuid s)
  create_or_update input url (some (some i)) s = update_item input url i s

  unfoldable pub save_cleaned : SaveUrlInput → Option Text → Store → Option SaveUrlResult × Store
  save_cleaned input none s = (none, s)
  save_cleaned input (some url) s =
      create_or_update input url (select_first (is_at input.user_id url) s) s

  -- SaveURL; `none` is an error or a panic.
  unfoldable pub save_url : SaveUrlInput → Store → Option SaveUrlResult × Store
  save_url input s = save_cleaned input (validate_and_clean_url net input.url) s
