-- ===== src/Jobs/Feed/Sample.antt =====
-- A world in which every request is answered, and whose store lists what was asked of it.
use omnivore_go.Prelude.{Text, codes, true, false, List, [], ◌∷◌, none, some}
use omnivore_go.Prelude.Unicode.{ascii}
use omnivore_go.Jobs.Feed.Items.{Feed, FeedItem, nanos_of_ms}
use omnivore_go.Jobs.Feed.Tasks.{FetchJob}
use omnivore_go.Jobs.Feed.World.{World, SaveFromFeed, SubscriptionUpdate}
use omnivore_go.Jobs.Feed.Subscription.{Subscription}
use omnivore_go.Jobs.Feed.Refresh.{RefreshFeedRequest}

pub data Event : Type 0 where
  counted_failure : Text → Event
  cached : Text → Event
  saved : SaveFromFeed → Event
  fetching : List FetchJob → Event
  marked : Text → Event
  updated : Text → SubscriptionUpdate → Event

abbrev pub seen_item : FeedItem
seen_item = record {
  title = codes "old";
  link = codes "https://a.org/1";
  links = [];
  guid = [];
  content = [];
  description = [];
  published = some (nanos_of_ms 4000);
  updated = none;
  author = none;
}

abbrev pub later_item : FeedItem
later_item = record seen_item {
  link = codes "https://a.org/2";
  published = some (nanos_of_ms 7000);
}

abbrev pub two_items : Feed
two_items = record {
  updated = none;
  published = none;
  items = later_item ∷ seen_item ∷ [];
  extensions = λ ns element. [];
}

abbrev pub one_item : Feed
one_item = record {
  updated = none;
  published = none;
  items = seen_item ∷ [];
  extensions = λ ns element. [];
}

abbrev pub quiet : World
quiet = record {
  Store = List Event;
  unicode = ascii;
  rfc3339 = λ t. codes "date";
  now = λ s. nanos_of_ms 9000;
  new_uuid = λ s. (codes "id", s);
  recently_saved = λ key s. false;
  failures = λ key s. none;
  incr_failure = λ key s. counted_failure key ∷ s;
  set_cache = λ key url title content s. (true, cached key ∷ s);
  add_save_page = λ d s. (true, saved d ∷ s);
  add_fetch_jobs = λ jobs s. (true, fetching jobs ∷ s);
  hash = λ url users. url;
  fetch_feed = λ url s. (some (codes "body", codes "sum"), s);
  parse_feed = λ body. some one_item;
  mark_failed = λ t id s. marked id ∷ s;
  update_subscription = λ id u s. updated id u ∷ s;
}

abbrev pub subscribed : Subscription
subscribed = record {
  sub_id = codes "s";
  user_id = codes "ann";
  feed_url = codes "https://a.org/feed";
  most_recent = 5000;
  scheduled = 8000;
  last_checksum = codes "before";
  fetch_type = codes "ALWAYS";
  folder = codes "following";
}

abbrev pub from_xkcd : RefreshFeedRequest
from_xkcd = record {
  subscription_ids = codes "s" ∷ [];
  feed_url = codes "https://xkcd.com/rss.xml";
  most_recent_item_dates = [];
  scheduled_timestamps = [];
  last_fetched_checksums = [];
  user_ids = codes "ann" ∷ [];
  fetch_content_types = codes "ALWAYS" ∷ [];
  folders = [];
  priority = [];
}
