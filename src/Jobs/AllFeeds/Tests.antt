-- ===== src/Jobs/AllFeeds/Tests.antt =====
-- The theorems at concrete inputs.
use mathlib.Core.List.{Perm}
use mathlib.Core.List.Perm
use omnivore_go.Prelude.{Text, codes, true, List, [], ◌∷◌, some, ◌≡◌, ◌↔◌, refl, ap, arith}
use omnivore_go.Prelude.Sort.{sort_texts, insert_text, text_lt}
use omnivore_go.Bullmq.Redis.{View, hash_get}
use omnivore_go.Bullmq.Queue.{JobOpts, fail_job, fail_counted}
use omnivore_go.Bullmq.Queue.Sample.{server, encoding, nothing, number_in}
use omnivore_go.Bullmq.Queue.Finish.{failing_attempt}
use omnivore_go.Bullmq.Queue.Retry.{is_delayed}
use omnivore_go.Jobs.Feed.Refresh.{process_each}
use omnivore_go.Jobs.Feed.Sample.{quiet, one_item}
use omnivore_go.Jobs.AllFeeds.Groups.{SubscriptionGroup, aggregate, decode_group}
use omnivore_go.Jobs.AllFeeds.Enqueue.{
  refresh_feed_job_id, query_subscription_groups, handle_refresh_all_feeds,
}
use omnivore_go.Jobs.AllFeeds.JobId.{refresh_feed_job_id_iff}
use omnivore_go.Jobs.AllFeeds.Members.{process_each-rows, poll_rows, request_of}
use omnivore_go.Jobs.AllFeeds.Stuck.{handle_refresh_all_feeds-stuck}
use omnivore_go.Jobs.AllFeeds.Sample.{digest, of_ann, of_bob, feed_url, one_feed}

abbrev ann_bob : List Text
ann_bob = codes "ann" ∷ codes "bob" ∷ []

abbrev bob_ann : List Text
bob_ann = codes "bob" ∷ codes "ann" ∷ []

sorted_alike : sort_texts bob_ann ≡ sort_texts ann_bob
unfolding sort_texts insert_text text_lt
sorted_alike = refl

refresh_feed_job_id_iff_example :
    (refresh_feed_job_id digest feed_url bob_ann ≡ refresh_feed_job_id digest feed_url ann_bob)
    ↔ ((feed_url ≡ feed_url) × Perm bob_ann ann_bob)
refresh_feed_job_id_iff_example =
    refresh_feed_job_id_iff digest feed_url feed_url bob_ann ann_bob (λ e. refl)
      (λ e. ap digest.marshal_strings sorted_alike)

process_each-rows_example :
    process_each quiet
      (request_of 9000000 9000000 (one_feed.context nothing) feed_url (of_bob ∷ of_ann ∷ []))
      one_item
      (codes "sum")
      true
      0
      (request_of 9000000 9000000
        (one_feed.context nothing)
        feed_url
        (of_bob ∷ of_ann ∷ [])).subscription_ids
      ([], [])
    ≡ poll_rows quiet 9000000 feed_url one_item (codes "sum") true (of_bob ∷ of_ann ∷ []) ([], [])
process_each-rows_example =
    process_each-rows quiet 9000000 9000000 (one_feed.context nothing) feed_url
      (of_bob ∷ of_ann ∷ []) one_item (codes "sum") true ([], [])

abbrev backend : Text
backend = codes "omnivore-backend-queue"

abbrev three_attempts : JobOpts
three_attempts = record {
  attempts = 3;
  priority = 0;
  backoff = record { type = codes "exponential"; delay = 1000 };
}

abbrev group : SubscriptionGroup
group = decode_group 9000000 (aggregate 9000000 feed_url (of_bob ∷ of_ann ∷ []))

abbrev poll_id : Text
poll_id = refresh_feed_job_id digest feed_url ann_bob

abbrev failed_once : View
failed_once = (fail_job server encoding backend poll_id (codes "timeout") three_attempts nothing).1

fails_once :
    fail_job server encoding backend poll_id (codes "timeout") three_attempts nothing
    ≡ (true, failed_once)
unfolding fail_job fail_counted
fails_once = refl

first_attempt : failing_attempt server encoding backend poll_id nothing ≡ 1
unfolding hash_get number_in
first_attempt = refl

found : query_subscription_groups server encoding digest one_feed failed_once ≡ some (group ∷ [])
unfolding query_subscription_groups
found = refl

users_of-group : Perm group.user_ids ann_bob
unfolding decode_group aggregate
users_of-group = Perm.swap (codes "ann") (codes "bob") []

handle_refresh_all_feeds-stuck_example :
    ((handle_refresh_all_feeds server encoding digest one_feed failed_once).1 ≡ failed_once)
    × (is_delayed server encoding backend
          (refresh_feed_job_id digest group.url group.user_ids)
          ((handle_refresh_all_feeds server encoding digest one_feed failed_once).1)
        ≡ true)
handle_refresh_all_feeds-stuck_example =
    handle_refresh_all_feeds-stuck server encoding digest one_feed feed_url ann_bob
      (codes "timeout") three_attempts nothing failed_once group (omega (arith, first_attempt))
      fails_once found (unfold decode_group aggregate in refl) users_of-group
