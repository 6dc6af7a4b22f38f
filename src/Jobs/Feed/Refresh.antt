-- ===== src/Jobs/Feed/Refresh.antt =====
-- internal/jobs/refresh_feed.go: HandleRefreshFeed.
use omnivore_go.Prelude.{
  ℕ, suc, Text, codes, text_eq, Bool, true, false, not, List, [], ◌∷◌, ◌++◌, Option, none, some,
  if◌then◌else◌,
}
use omnivore_go.Prelude.Int.{ℤ, scan_int}
use omnivore_go.Jobs.Feed.Items.{Feed, is_content_fetch_blocked, safe_idx, safe_int64, is_above}
use omnivore_go.Jobs.Feed.Tasks.{Tasks, fetch_jobs}
use omnivore_go.Jobs.Feed.World.{World}
use omnivore_go.Jobs.Feed.Subscription.{Subscription, process_subscription}

pub record RefreshFeedRequest : Type 0 where
  pub subscription_ids : List Text
  pub feed_url : Text
  pub most_recent_item_dates : List ℕ
  pub scheduled_timestamps : List ℕ
  pub last_fetched_checksums : List Text
  pub user_ids : List Text
  pub fetch_content_types : List Text
  pub folders : List Text
  pub priority : Text

unfoldable pub fail_key : Text → Text
fail_key url = codes "feed-fetch-failure:" ++ url

-- The subscription at one position; a list that is too short has an empty entry there.
unfoldable pub subscription_at : RefreshFeedRequest → Bool → ℕ → Text → Subscription
subscription_at req allow i sub_id =
    let folder = safe_idx req.folders i in
    record {
      sub_id = sub_id;
      user_id = safe_idx req.user_ids i;
      feed_url = req.feed_url;
      most_recent = safe_int64 req.most_recent_item_dates i;
      scheduled = safe_int64 req.scheduled_timestamps i;
      last_checksum = safe_idx req.last_fetched_checksums i;
      fetch_type = if allow then safe_idx req.fetch_content_types i else codes "NEVER";
      folder = if text_eq folder [] then codes "following" else folder;
    }

module _ (w : World) where
  open w use {
    Store, now, failures, incr_failure, add_fetch_jobs, fetch_feed, parse_feed, mark_failed,
  }

  unfoldable pub is_feed_blocked : Option Text → ℤ → Bool
  is_feed_blocked none max = false
  is_feed_blocked (some value) max = is_above (scan_int value) max

  unfoldable pub mark_each : ℕ → List Text → Store → Store
  mark_each t [] s = s
  mark_each t (id ∷ ids) s = mark_each t ids (mark_failed t id s)

  -- markSubscriptionsFailed
  unfoldable pub mark_subscriptions_failed : List Text → Store → Store
  unfolding mark_each
  mark_subscriptions_failed ids s = mark_each (now s) ids s

  unfoldable pub process_each :
      RefreshFeedRequest → Feed → Text → Bool → ℕ → List Text → Tasks × Store → Tasks × Store
  process_each req feed checksum allow i [] r = r
  process_each req feed checksum allow i (id ∷ ids) (tasks, s) =
      process_each req feed checksum allow (suc i) ids
        (process_subscription w feed checksum (subscription_at req allow i id) tasks s)

  unfoldable pub enqueue_fetch_content_tasks : Text → Tasks × Store → Store
  enqueue_fetch_content_tasks priority ([], s) = s
  enqueue_fetch_content_tasks priority (t ∷ ts, s) =
      (add_fetch_jobs (fetch_jobs w.hash priority (t ∷ ts)) s).1

  -- `false` is an error.
  unfoldable pub give_up : RefreshFeedRequest → Store → Bool × Store
  give_up req s = (
    false,
    mark_subscriptions_failed req.subscription_ids (incr_failure (fail_key req.feed_url) s),
  )

  unfoldable pub process_parsed : RefreshFeedRequest → Text → Option Feed → Store → Bool × Store
  process_parsed req checksum none s = give_up req s
  process_parsed req checksum (some feed) s = (
    true,
    enqueue_fetch_content_tasks req.priority (
        process_each req feed checksum (not (is_content_fetch_blocked req.feed_url)) 0
          req.subscription_ids ([], s)),
  )

  unfoldable pub process_fetched : RefreshFeedRequest → Option (Text × Text) × Store → Bool × Store
  unfolding process_parsed
  process_fetched req (none, s) = give_up req s
  process_fetched req (some (body, checksum), s) = process_parsed req checksum (parse_feed body) s

  unfoldable pub handle_refresh_feed : ℤ → Option RefreshFeedRequest → Store → Bool × Store
  handle_refresh_feed max none s = (false, s)
  handle_refresh_feed max (some req) s =
      if is_feed_blocked (failures (fail_key req.feed_url) s) max
      then (false, s)
      else process_fetched req (fetch_feed req.feed_url s)
