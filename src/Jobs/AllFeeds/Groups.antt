-- ===== src/Jobs/AllFeeds/Groups.antt =====
-- internal/jobs/refresh_all_feeds.go: the rows of the grouped query, their decoding, and the
-- payload of a poll. Times are nanoseconds since 1970, before which no item is dated.
use omnivore_go.Prelude.{ℕ, ◌/◌, Text, codes, List, [], ◌∷◌, Option, none, some, map}
use omnivore_go.Jobs.Feed.Refresh.{RefreshFeedRequest}

-- The columns of omnivore.subscriptions that the query reads; `none` is NULL.
pub record SubscriptionRow : Type 0 where
  pub id : Text
  pub user_id : Text
  pub most_recent_item_date : Option ℕ
  pub scheduled_at : Option ℕ
  pub last_fetched_checksum : Option Text
  pub folder : Option Text
  pub fetch_content_type : Option Text

-- A row of the query's result.
pub record GroupRow : Type 0 where
  pub url : Text
  pub subscription_ids : List (Option Text)
  pub user_ids : List (Option Text)
  pub most_recent_item_dates : List (Option ℕ)
  pub scheduled_dates : List (Option ℕ)
  pub checksums : List (Option Text)
  pub folders : List (Option Text)
  pub fetch_content_types : List (Option Text)

pub record SubscriptionGroup : Type 0 where
  pub url : Text
  pub subscription_ids : List Text
  pub user_ids : List Text
  pub most_recent_item_dates : List ℕ
  pub scheduled_dates : List ℕ
  pub checksums : List Text
  pub folders : List Text
  pub fetch_content_types : List Text

pub record RefreshContext : Type 0 where
  pub type : Text
  pub refresh_id : Text
  pub started_at : Text

pub record RefreshFeedPayload : Type 0 where
  pub subscription_ids : List Text
  pub feed_url : Text
  pub most_recent_item_dates : List ℕ
  pub scheduled_timestamps : List ℕ
  pub last_fetched_checksums : List Text
  pub user_ids : List Text
  pub fetch_content_types : List Text
  pub folders : List Text
  pub refresh_context : RefreshContext

unfoldable pub value_or {ℓ} : {A : Type ℓ} → A → Option A → A
value_or a none = a
value_or a (some b) = b

-- The SELECT list for the rows of one group; `now` is NOW().
unfoldable pub aggregate : ℕ → Text → List SubscriptionRow → GroupRow
unfolding value_or
aggregate now url rows = record {
  url = url;
  subscription_ids = map (λ r. some r.id) rows;
  user_ids = map (λ r. some r.user_id) rows;
  most_recent_item_dates = map (λ r. r.most_recent_item_date) rows;
  scheduled_dates = map (λ r. some (value_or now r.scheduled_at)) rows;
  checksums = map (λ r. r.last_fetched_checksum) rows;
  folders = map (λ r. some (value_or (codes "following") r.folder)) rows;
  fetch_content_types = map (λ r. r.fetch_content_type) rows;
}

-- UnixMilli
unfoldable pub unix_milli : ℕ → ℕ
unix_milli t = t / 1000000

-- The elements that are not NULL.
unfoldable pub valid_elements : List (Option Text) → List Text
valid_elements [] = []
valid_elements (none ∷ es) = valid_elements es
valid_elements (some e ∷ es) = e ∷ valid_elements es

-- The times in milliseconds, with a default for NULL.
unfoldable pub millis_or : ℕ → List (Option ℕ) → List ℕ
unfolding unix_milli
millis_or d [] = []
millis_or d (none ∷ es) = d ∷ millis_or d es
millis_or d (some t ∷ es) = unix_milli t ∷ millis_or d es

-- The texts, with a default for NULL.
unfoldable pub texts_or : Text → List (Option Text) → List Text
texts_or d [] = []
texts_or d (none ∷ es) = d ∷ texts_or d es
texts_or d (some e ∷ es) = e ∷ texts_or d es

-- The body of the loop of querySubscriptionGroups; `now` is time.Now().
unfoldable pub decode_group : ℕ → GroupRow → SubscriptionGroup
unfolding valid_elements millis_or texts_or unix_milli
decode_group now row = record {
  url = row.url;
  subscription_ids = valid_elements row.subscription_ids;
  user_ids = valid_elements row.user_ids;
  most_recent_item_dates = millis_or 0 row.most_recent_item_dates;
  scheduled_dates = millis_or (unix_milli now) row.scheduled_dates;
  checksums = texts_or [] row.checksums;
  folders = texts_or (codes "following") row.folders;
  fetch_content_types = texts_or (codes "NEVER") row.fetch_content_types;
}

unfoldable pub payload_of : RefreshContext → SubscriptionGroup → RefreshFeedPayload
payload_of rc g = record {
  subscription_ids = g.subscription_ids;
  feed_url = g.url;
  most_recent_item_dates = g.most_recent_item_dates;
  scheduled_timestamps = g.scheduled_dates;
  last_fetched_checksums = g.checksums;
  user_ids = g.user_ids;
  fetch_content_types = g.fetch_content_types;
  folders = g.folders;
  refresh_context = rc;
}

-- What HandleRefreshFeed reads of a payload: the fields go by the same names in JSON, the context
-- is left out, and there is no priority.
unfoldable pub read_payload : RefreshFeedPayload → RefreshFeedRequest
read_payload p = record {
  subscription_ids = p.subscription_ids;
  feed_url = p.feed_url;
  most_recent_item_dates = p.most_recent_item_dates;
  scheduled_timestamps = p.scheduled_timestamps;
  last_fetched_checksums = p.last_fetched_checksums;
  user_ids = p.user_ids;
  fetch_content_types = p.fetch_content_types;
  folders = p.folders;
  priority = [];
}
