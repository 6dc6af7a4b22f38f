-- ===== src/Jobs/Feed/World.antt =====
-- What a poll of a feed calls: the network, the feed parser, the caches and the queues of Redis,
-- and the database, as parameters.
use omnivore_go.Prelude.{ℕ, Text, Bool, Option, List}
use omnivore_go.Prelude.Unicode.{Unicode}
use omnivore_go.Jobs.Feed.Items.{Feed}
use omnivore_go.Jobs.Feed.Tasks.{ContentFetchUser, FetchJob}

-- The fields of SavePageData that a feed item fills.
pub record SaveFromFeed : Type 0 where
  pub user_id : Text
  pub url : Text
  pub article_saving_request_id : Text
  pub state : Text
  pub labels : List Text
  pub source : Text
  pub folder : Text
  pub rss_feed_url : Text
  pub saved_at : Text
  pub published_at : Text
  pub title : Text
  pub author : Text
  pub cache_key : Text

-- What updateSubscription writes; `none` is NULL.
pub record SubscriptionUpdate : Type 0 where
  pub most_recent_item_date : Option ℕ
  pub last_fetched_checksum : Text
  pub scheduled_at : ℕ
  pub refreshed_at : ℕ
  pub failed_at : Option ℕ

-- An error of Redis in a test is read as "no"; errors of the updates are logged.
pub record World : Type 1 where
  pub Store : Type 0
  pub unicode : Unicode
  pub rfc3339 : ℕ → Text
  pub now : Store → ℕ
  pub new_uuid : Store → Text × Store
  pub recently_saved : Text → Store → Bool
  pub failures : Text → Store → Option Text
  pub incr_failure : Text → Store → Store
  pub set_cache : Text → Text → Text → Text → Store → Bool × Store
  pub add_save_page : SaveFromFeed → Store → Bool × Store
  pub add_fetch_jobs : List FetchJob → Store → Bool × Store
  pub hash : Text → List ContentFetchUser → Text
  pub fetch_feed : Text → Store → Option (Text × Text) × Store
  pub parse_feed : Text → Option Feed
  pub mark_failed : ℕ → Text → Store → Store
  pub update_subscription : Text → SubscriptionUpdate → Store → Store
