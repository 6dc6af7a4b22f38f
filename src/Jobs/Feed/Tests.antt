-- ===== src/Jobs/Feed/Tests.antt =====
-- Polls in a small world, and the theorems at concrete inputs.
use omnivore_go.Prelude.{codes, text_eq, has_prefix, true, false, [], ◌∷◌, some, ◌≡◌, refl, arith}
use omnivore_go.Jobs.Feed.Items.{
  first_of, item_date, is_content_fetch_blocked, has_any_prefix, nanos_of_ms,
}
use omnivore_go.Jobs.Feed.Tasks.{ContentFetchUser}
use omnivore_go.Jobs.Feed.Subscription.{process_subscription, run_items, is_stale}
use omnivore_go.Jobs.Feed.Refresh.{process_parsed, process_each}
use omnivore_go.Jobs.Feed.Newer.{IsNewer, run_items-IsNewer}
use omnivore_go.Jobs.Feed.Forgets.{forgetting, process_subscription-forgets}
use omnivore_go.Jobs.Feed.Blocked.{process_parsed-blocked}
use omnivore_go.Jobs.Feed.Sample.{quiet, subscribed, one_item, two_items, from_xkcd}

abbrev reader : ContentFetchUser
reader = record { id = codes "ann"; folder = codes "inbox"; library_item_id = codes "1" }

run_items-IsNewer_example :
    IsNewer 5000
      (run_items quiet two_items subscribed [] []).count
      (run_items quiet two_items subscribed [] []).last_fetched
run_items-IsNewer_example =
    run_items-IsNewer quiet subscribed (omega arith) (λ s. omega arith) two_items [] []

process_subscription-forgets_example :
    process_subscription quiet one_item (codes "after") subscribed [] [] ≡ (
      [],
      quiet.update_subscription
          (codes "s")
          (forgetting quiet subscribed one_item (codes "after") (nanos_of_ms 9000))
          [],
    )
unfolding text_eq is_stale first_of item_date
process_subscription-forgets_example =
    process_subscription-forgets quiet subscribed (omega arith) one_item (codes "after") [] [] refl
      refl ((nanos_of_ms 4000, refl, omega arith), ground arith)

process_parsed-blocked_example : process_parsed quiet from_xkcd (codes "sum") (some one_item) [] ≡ (
  true,
  (process_each quiet from_xkcd one_item (codes "sum") false 0 (codes "s" ∷ []) ([], [])).1,
)
unfolding is_content_fetch_blocked has_any_prefix has_prefix
process_parsed-blocked_example =
    process_parsed-blocked quiet from_xkcd one_item (codes "sum") [] refl
