-- ===== src/Jobs/AllFeeds/Enqueue.antt =====
-- internal/jobs/refresh_all_feeds.go: the id of a poll's job and HandleRefreshAllFeeds.
use omnivore_go.Prelude.{
  ℕ, ◌+◌, ◌/◌, ◌%◌, ltb, Text, codes, text_eq, Bool, true, false, ◌||◌, List, [], ◌∷◌, ◌++◌, Option,
  none, some, ◌≡◌, take, length, map, if◌then◌else◌,
}
use omnivore_go.Prelude.Sort.{sort_texts}
use omnivore_go.Bullmq.Redis.{Redis}
use omnivore_go.Bullmq.Queue.{AddJobOpts, Json, add_bulk}
use omnivore_go.Jobs.AllFeeds.Groups.{
  GroupRow, SubscriptionGroup, RefreshContext, RefreshFeedPayload, decode_group, payload_of,
}

-- crypto/sha256, and encoding/json at a list of strings: what is written can be read back.
pub record Hashing : Type 0 where
  pub sha256 : Text → List ℕ
  pub marshal_strings : List Text → Text
  pub unmarshal_strings : Text → Option (List Text)
  pub length-sha256 : (s : Text) → length (sha256 s) ≡ 32
  pub unmarshal-marshal : (l : List Text) → unmarshal_strings (marshal_strings l) ≡ some l

unfoldable pub hex_digit : ℕ → ℕ
hex_digit n = if ltb n 10 then b'0' + n else 87 + n

-- %x of bytes
unfoldable pub hex : List ℕ → Text
unfolding hex_digit
hex [] = []
hex (b ∷ bs) = hex_digit (b / 16) ∷ hex_digit (b % 16) ∷ hex bs

module _ (h : Hashing) where
  open h use {sha256, marshal_strings}

  unfoldable pub sha256hex16 : Text → Text
  unfolding hex
  sha256hex16 s = hex (take 8 (sha256 s))

  unfoldable pub refresh_feed_job_id : Text → List Text → Text
  unfolding sha256hex16
  refresh_feed_job_id feed_url user_ids =
      codes "refresh-feed_"
      ++ (sha256hex16 feed_url
          ++ (codes "_" ++ sha256hex16 (marshal_strings (sort_texts user_ids))))

unfoldable pub is_empty {ℓ} : {A : Type ℓ} → List A → Bool
is_empty [] = true
is_empty (x ∷ xs) = false

-- What the handler calls beside the queue: the grouped query, the clock, the id and the time of
-- the refresh, and encoding/json at a payload.
pub record Feeds (redis : Redis) : Type 0 where
  pub query : redis.Store → Option (List GroupRow)
  pub clock : redis.Store → ℕ
  pub context : redis.Store → RefreshContext
  pub marshal_payload : RefreshFeedPayload → Option Text

module _ (redis : Redis) (json : Json) (h : Hashing) (feeds : Feeds redis) where
  open redis use {Store}
  open feeds use {query, clock, context, marshal_payload}

  unfoldable pub poll_job : RefreshContext → SubscriptionGroup → AddJobOpts
  poll_job rc g = record {
    name = codes "refresh-feed";
    payload = marshal_payload (payload_of rc g);
    opts = record {
      attempts = 3;
      priority = 0;
      backoff = record { type = codes "exponential"; delay = 1000 };
    };
    job_id = refresh_feed_job_id h g.url g.user_ids;
  }

  unfoldable pub is_skipped : SubscriptionGroup → Bool
  unfolding is_empty
  is_skipped g = text_eq g.url [] || is_empty g.user_ids

  unfoldable pub poll_jobs : RefreshContext → List SubscriptionGroup → List AddJobOpts
  unfolding is_skipped
  poll_jobs rc [] = []
  poll_jobs rc (g ∷ gs) =
      let rest = poll_jobs rc gs in if is_skipped g then rest else poll_job rc g ∷ rest

  unfoldable pub query_subscription_groups : Store → Option (List SubscriptionGroup)
  query_subscription_groups s = elim (query s) [
    | none ↦ none
    | some rows ↦ some (map (decode_group (clock s)) rows)
  ]

  unfoldable pub enqueue_polls : List AddJobOpts → Store → Bool × Store
  enqueue_polls [] s = (true, s)
  enqueue_polls (j ∷ js) s = add_bulk redis json (codes "omnivore-backend-queue") (j ∷ js) s

  unfoldable pub enqueue_groups : Option (List SubscriptionGroup) → Store → Bool × Store
  enqueue_groups none s = (false, s)
  enqueue_groups (some gs) s = enqueue_polls (poll_jobs (context s) gs) s

  -- HandleRefreshAllFeeds; `false` is an error.
  unfoldable pub handle_refresh_all_feeds : Store → Bool × Store
  handle_refresh_all_feeds s = enqueue_groups (query_subscription_groups s) s
