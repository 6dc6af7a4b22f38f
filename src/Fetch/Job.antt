-- ===== src/Fetch/Job.antt =====
-- internal/handler/handler.go: the payloads, the keys, and the priority and the attempts of the
-- jobs that are queued.
use omnivore_go.Prelude.{
  ℕ, Text, codes, text_eq, Bool, false, ◌||◌, not, List, [], ◌∷◌, ◌++◌, Option, none, some,
  if◌then◌else◌,
}
use omnivore_go.Prelude.Int.{ℤ, scan_int}
use omnivore_go.Jobs.Feed.Items.{is_above}
use omnivore_go.Jobs.SavePage.Page.{SavePageData}

pub record UserConfig : Type 0 where
  pub id : Text
  pub library_item_id : Text
  pub folder : Option Text

-- The fields that the job reads.
pub record JobData : Type 0 where
  pub url : Text
  pub user_id : Option Text
  pub save_request_id : Text
  pub state : Option Text
  pub source : Option Text
  pub task_id : Option Text
  pub locale : Option Text
  pub timezone : Option Text
  pub rss_feed_url : Option Text
  pub saved_at : Option Text
  pub published_at : Option Text
  pub folder : Option Text
  pub users : List UserConfig
  pub priority : Text

-- fetch.Result, and cachedFetchResult
pub record Result : Type 0 where
  pub final_url : Text
  pub title : Text
  pub content : Text
  pub content_type : Text

pub record SavePageJobData : Type 0 where
  pub user_id : Text
  pub url : Text
  pub final_url : Text
  pub article_saving_request_id : Text
  pub state : Option Text
  pub source : Text
  pub folder : Option Text
  pub rss_feed_url : Option Text
  pub saved_at : Option Text
  pub published_at : Option Text
  pub task_id : Option Text
  pub title : Text
  pub content_type : Text
  pub cache_key : Text

-- What save-page reads of the payload: the fields go by the same names in JSON.
unfoldable pub read_job : SavePageJobData → SavePageData
read_job j = record {
  user_id = j.user_id;
  url = j.url;
  final_url = j.final_url;
  article_saving_request_id = j.article_saving_request_id;
  state = j.state;
  folder = j.folder;
  rss_feed_url = j.rss_feed_url;
  saved_at = j.saved_at;
  published_at = j.published_at;
  title = j.title;
  content_type = j.content_type;
  cache_key = j.cache_key;
}

unfoldable pub is_given : Option Text → Bool
is_given none = false
is_given (some t) = not (text_eq t [])

unfoldable pub text_of : Option Text → Text
text_of none = []
text_of (some t) = t

-- The list of users: the one user of the job, or else its list.
unfoldable pub users_of_job : JobData → List UserConfig
unfolding is_given text_of
users_of_job d =
    if is_given d.user_id
    then record { id = text_of d.user_id; library_item_id = d.save_request_id; folder = d.folder }
      ∷ []
    else d.users

unfoldable pub source_of : Option Text → Text
unfolding is_given text_of
source_of s = if is_given s then text_of s else codes "puppeteer-parse"

unfoldable pub get_bullmq_priority : Bool → Bool → Text → ℕ
get_bullmq_priority is_rss is_import priority =
    if is_import
    then 100
    else if is_rss
    then (if text_eq priority (codes "low") then 10 else 5)
    else if text_eq priority (codes "low")
    then 5
    else 1

unfoldable pub get_attempts : Bool → Bool → ℕ
get_attempts is_rss is_import = if is_import then 1 else if is_rss then 2 else 3

unfoldable pub build_cache_key : Text → Text → Text → Text
build_cache_key url locale timezone =
    codes "fetch-result:" ++ (url ++ (codes ":" ++ (locale ++ (codes ":" ++ timezone))))

unfoldable pub failure_redis_key : Text → Text
failure_redis_key domain = codes "fetch-failure:" ++ domain

unfoldable pub is_listed : Text → Bool
is_listed domain = text_eq domain (codes "localhost") || text_eq domain (codes "weibo.com")

-- fetch.NoCacheURLs
unfoldable pub is_no_cache_url : Text → Bool
is_no_cache_url url =
    text_eq url (codes "https://deviceandbrowserinfo.com/are_you_a_bot")
    || text_eq url (codes "https://deviceandbrowserinfo.com/info_device")
    || text_eq url (codes "https://jacksonh.org")

-- Whether a number of failures, as Redis holds it, is above the bound.
unfoldable pub counts_above : ℤ → Option Text → Bool
counts_above max none = false
counts_above max (some v) = elim (scan_int v) [ none ↦ false | some n ↦ is_above (some n) max ]
