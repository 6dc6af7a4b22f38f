-- ===== src/Jobs/Feed/Subscription.antt =====
-- internal/jobs/refresh_feed.go: processSubscription.
use omnivore_go.Prelude.{
  ℕ, suc, ltb, leb, ◌==◌, Text, codes, text_eq, Bool, true, false, ◌&&◌, not, List, [], ◌∷◌, ◌++◌,
  Option, none, some, if◌then◌else◌,
}
use omnivore_go.Jobs.Feed.Items.{
  FeedItem, Feed, max_items_per_feed, nanos_of_ms, first_of, published_at, is_old_item,
  link_or_guid, item_iso_date, feed_content, saves_feed_content, next_scheduled, text_or_empty,
  or_now,
}
use omnivore_go.Jobs.Feed.Tasks.{Tasks, accumulate}
use omnivore_go.Jobs.Feed.World.{World, SaveFromFeed, SubscriptionUpdate}

-- The arguments of processSubscription that the loop reads.
pub record Subscription : Type 0 where
  pub sub_id : Text
  pub user_id : Text
  pub feed_url : Text
  pub most_recent : ℕ
  pub scheduled : ℕ
  pub last_checksum : Text
  pub fetch_type : Text
  pub folder : Text

unfoldable pub recent_key : Text → Text → Text
recent_key user link = codes "recent-saved-item:" ++ (user ++ (codes ":" ++ link))

module _ (w : World) where
  open w use {Store, now, new_uuid, recently_saved, set_cache, add_save_page, update_subscription}

  -- The variables of the loop over the items.
  pub record Progress : Type 0 where
    pub last_fetched : Option ℕ
    pub last_valid : Option FeedItem
    pub failed_at : Option ℕ
    pub count : ℕ
    pub tasks : Tasks
    pub store : Store

  unfoldable pub add_saved : SaveFromFeed → Bool × Store → Bool × Store
  add_saved d (false, s) = (false, s)
  add_saved d (true, s) = add_save_page d s

  -- enqueueSavePageFromFeed, behind the new id
  unfoldable pub enqueue_with_id : Subscription → Text → FeedItem → Text × Store → Bool × Store
  unfolding add_saved text_or_empty
  enqueue_with_id sub link item (id, s) =
      let cache_key = codes "save-page-feed-content:" ++ id in
      let date = item_iso_date w.rfc3339 item in
      add_saved
        (record {
          user_id = sub.user_id;
          url = link;
          article_saving_request_id = id;
          state = codes "CONTENT_NOT_FETCHED";
          labels = codes "RSS" ∷ [];
          source = codes "rss-feeder";
          folder = sub.folder;
          rss_feed_url = sub.feed_url;
          saved_at = date;
          published_at = date;
          title = item.title;
          author = text_or_empty item.author;
          cache_key = cache_key;
        })
        (set_cache cache_key link item.title (feed_content item) s)

  unfoldable pub enqueue_save_page_from_feed : Subscription → Text → FeedItem → Store → Bool × Store
  unfolding enqueue_with_id
  enqueue_save_page_from_feed sub link item s = enqueue_with_id sub link item (new_uuid s)

  unfoldable pub fetch_with_id :
      Subscription → Text → FeedItem → Tasks → Text × Store → Tasks × Store
  fetch_with_id sub link item tasks (id, s) = (
    accumulate (record { id = sub.user_id; folder = sub.folder; library_item_id = id }) link
        sub.feed_url (item_iso_date w.rfc3339 item) tasks,
    s,
  )

  -- What an item does: whether it went well, the tasks and the store behind it.
  pub record Done : Type 0 where
    pub ok : Bool
    pub tasks : Tasks
    pub store : Store

  unfoldable pub saved_as : Tasks → Bool × Store → Done
  saved_as tasks (ok, s) = record { ok = ok; tasks = tasks; store = s }

  unfoldable pub fetched_as : Tasks × Store → Done
  fetched_as (tasks, s) = record { ok = true; tasks = tasks; store = s }

  unfoldable pub take_item : Subscription → Text → FeedItem → Tasks → Store → Done
  unfolding saved_as fetched_as
  take_item sub link item tasks s =
      if saves_feed_content sub.fetch_type (feed_content item)
      then saved_as tasks (enqueue_save_page_from_feed sub link item s)
      else fetched_as (fetch_with_id sub link item tasks (new_uuid s))

  unfoldable pub later : ℕ → Option ℕ → Option ℕ
  later t none = some t
  later t (some u) = if ltb u t then some t else some u

  -- The valid item that is kept: the first, and then each that is dated later than the one kept.
  unfoldable pub keep_valid : FeedItem → ℕ → Option FeedItem → Option FeedItem
  keep_valid item date none = some item
  keep_valid item date (some kept) = elim kept.published [
    | none ↦ some kept
    | some t ↦ if ltb t date then some item else some kept
  ]

  unfoldable pub with_link : FeedItem → Text → FeedItem
  with_link item link = if text_eq item.link [] then record item { link = link } else item

  unfoldable pub after_item : ℕ → Progress → Done → Progress
  unfolding later
  after_item date p d =
      if d.ok
      then record p {
        last_fetched = later date p.last_fetched;
        count = suc p.count;
        tasks = d.tasks;
        store = d.store;
      }
      else record p { failed_at = some (now d.store); tasks = d.tasks; store = d.store }

  -- The item itself, behind the update of the valid item.
  unfoldable pub process_valid : Subscription → FeedItem → Text → Progress → Progress
  process_valid sub item link p =
      if leb max_items_per_feed p.count
      then record p { count = suc p.count }
      else if is_old_item (now p.store) item sub.most_recent
      then p
      else if recently_saved (recent_key sub.user_id link) p.store
      then p
      else after_item (published_at (now p.store) item) p (take_item sub link item p.tasks p.store)

  unfoldable pub process_item : Subscription → FeedItem → Progress → Progress
  unfolding keep_valid with_link
  process_item sub item p =
      let link = link_or_guid item in
      let date = published_at (now p.store) item in
      if text_eq link []
      then p
      else process_valid sub item link
          (record p { last_valid = keep_valid (with_link item link) date p.last_valid })

  unfoldable pub process_items : Subscription → List FeedItem → Progress → Progress
  process_items sub [] p = p
  process_items sub (item ∷ items) p = process_items sub items (process_item sub item p)

  unfoldable pub after_fallback : ℕ → FeedItem → Progress → Done → Progress
  unfolding or_now
  after_fallback refreshed item p d =
      if d.ok
      then record p {
        last_fetched = some (or_now refreshed item.published);
        tasks = d.tasks;
        store = d.store;
      }
      else record p { failed_at = some (now d.store); tasks = d.tasks; store = d.store }

  -- The last valid item is taken for a new subscription, when nothing was saved and nothing failed.
  unfoldable pub fall_back_to : Subscription → ℕ → Option FeedItem → Progress → Progress
  fall_back_to sub refreshed none p = p
  fall_back_to sub refreshed (some item) p =
      if text_eq (link_or_guid item) []
      then p
      else after_fallback refreshed item p (take_item sub (link_or_guid item) item p.tasks p.store)

  unfoldable pub is_none {ℓ} : {A : Type ℓ} → Option A → Bool
  is_none none = true
  is_none (some a) = false

  unfoldable pub fall_back : Subscription → ℕ → Progress → Progress
  unfolding is_none
  fall_back sub refreshed p =
      if is_none p.last_fetched && (is_none p.failed_at && sub.most_recent == 0)
      then fall_back_to sub refreshed p.last_valid p
      else p

  -- Whether the feed's own date is not later than the last item that was seen.
  unfoldable pub is_stale : Option ℕ → ℕ → Bool
  is_stale none most_recent = false
  is_stale (some t) most_recent = ltb 0 most_recent && not (ltb (nanos_of_ms most_recent) t)

  unfoldable pub written : Feed → Text → ℕ → Subscription → Progress → SubscriptionUpdate
  written feed checksum refreshed sub p = record {
    most_recent_item_date = p.last_fetched;
    last_fetched_checksum = checksum;
    scheduled_at = next_scheduled w.unicode feed sub.scheduled;
    refreshed_at = refreshed;
    failed_at = p.failed_at;
  }

  unfoldable pub start : Tasks → Store → Progress
  start tasks s = record {
    last_fetched = none;
    last_valid = none;
    failed_at = none;
    count = 0;
    tasks = tasks;
    store = s;
  }

  unfoldable pub run_items : Feed → Subscription → Tasks → Store → Progress
  unfolding start
  run_items feed sub tasks s = fall_back sub (now s) (process_items sub feed.items (start tasks s))

  unfoldable pub process_subscription : Feed → Text → Subscription → Tasks → Store → Tasks × Store
  process_subscription feed checksum sub tasks s =
      let p = run_items feed sub tasks s in
      if text_eq checksum sub.last_checksum
      then (tasks, s)
      else if is_stale (first_of feed.updated feed.published) sub.most_recent
      then (tasks, s)
      else (p.tasks, update_subscription sub.sub_id (written feed checksum (now s) sub p) p.store)
