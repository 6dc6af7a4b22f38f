-- ===== src/Jobs/AllFeeds/Stuck.antt =====
-- The refresh of all feeds and the queue: what becomes of a feed whose poll failed.
use mathlib.Core.Bool.{true≢false}
use mathlib.Core.List.{Perm}
use omnivore_go.Prelude.{
  ◌<◌, Text, codes, text_eq, Bool, true, false, List, [], ◌∷◌, Option, none, some, ◌≡◌, refl, sym,
  ◌∙◌, All, inl, inr, Bool-cases, Option-cases,
}
use omnivore_go.Bullmq.Keys.{job_key}
use omnivore_go.Bullmq.Redis.{Redis, View, hash_get, fields_of, present}
use omnivore_go.Bullmq.Queue.{
  AddJobOpts, JobOpts, Json, choose_custom, choose_id, store_chosen, add_job, add_bulk, fail_job,
}
use omnivore_go.Bullmq.Queue.Finish.{fail_job-Fails, failing_attempt}
use omnivore_go.Bullmq.Queue.Retry.{is_delayed, fail_job-is_delayed, done}
use omnivore_go.Jobs.AllFeeds.Groups.{SubscriptionGroup, RefreshContext}
use omnivore_go.Jobs.AllFeeds.Enqueue.{
  Hashing, Feeds, refresh_feed_job_id, poll_job, is_skipped, poll_jobs, query_subscription_groups,
  enqueue_polls, enqueue_groups, handle_refresh_all_feeds,
}
use omnivore_go.Jobs.AllFeeds.JobId.{refresh_feed_job_id-Perm}

abbrev backend : Text
backend = codes "omnivore-backend-queue"

present-field :
    (k f w : Text) (v : View) → hash_get f (fields_of (v.hashes k)) ≡ some w → present v k ≡ true
unfolding present hash_get
present-field k f w v e = elim (Option-cases (v.hashes k)) [
  | inl n ↦ let no : ◌≡◌ {A = Option Text} none (some w) = rw n at e in absurd (cc)
  | inr (h, n) ↦ rw (n, present) refl
]

module _ (redis : Redis) (json : Json) (h : Hashing) (feeds : Feeds redis) where
  open redis use {Store, view, exists, exists_lem}

  -- Whether a job of this id is stored.
  abbrev pub stored : Text → Store → Bool
  stored id s = present (view s) (job_key backend id)

  choose-stored :
      (j : AddJobOpts) (s : Store) (r : Option Bool)
      → exists (job_key backend j.job_id) s ≡ r
      → stored j.job_id s ≡ true
      → (store_chosen redis json backend j (choose_custom redis json backend j.job_id r s)).1 ≡ s
  unfolding store_chosen choose_custom
  choose-stored j s none e there = refl
  choose-stored j s (some true) e there = refl
  choose-stored j s (some false) e there =
      absurd (true≢false (sym there ∙ sym (exists_lem (job_key backend j.job_id) s false e)))

  add-stored :
      (j : AddJobOpts) (s : Store)
      → text_eq j.job_id [] ≡ false
      → stored j.job_id s ≡ true
      → (add_job redis json backend j s).1 ≡ s
  unfolding add_job choose_id
  add-stored j s given there =
      rw given (choose-stored j s (exists (job_key backend j.job_id) s) refl there)

  add_bulk-stored :
      (js : List AddJobOpts) (s : Store)
      → All (λ j. (text_eq j.job_id [] ≡ false) × (stored j.job_id s ≡ true)) js
      → (add_bulk redis json backend js s).1 ≡ s
  unfolding add_bulk
  add_bulk-stored [] s a = refl
  add_bulk-stored (j ∷ js) s ((given, there), a) =
      let same = add-stored j s given there in
      let rest = add_bulk-stored js s a in
      elim (Bool-cases ((add_job redis json backend j s).0)) [
        | inl e ↦ rw e (rw same rest)
        | inr e ↦ rw e same
      ]

  group_id-given :
      (g : SubscriptionGroup) → text_eq (refresh_feed_job_id h g.url g.user_ids) [] ≡ false
  unfolding refresh_feed_job_id text_eq
  group_id-given g = refl

  poll_jobs-stored :
      (rc : RefreshContext) (gs : List SubscriptionGroup) (s : Store)
      → All (λ g. stored (refresh_feed_job_id h g.url g.user_ids) s ≡ true) gs
      → All
          (λ j. (text_eq j.job_id [] ≡ false) × (stored j.job_id s ≡ true))
          (poll_jobs redis json h feeds rc gs)
  unfolding poll_jobs poll_job
  poll_jobs-stored rc [] s a = tt
  poll_jobs-stored rc (g ∷ gs) s (there, a) = elim (Bool-cases (is_skipped redis json h feeds g)) [
    | inl e ↦ rw e (poll_jobs-stored rc gs s a)
    | inr e ↦ rw e ((group_id-given g, there), poll_jobs-stored rc gs s a)
  ]

  enqueue-stored :
      (js : List AddJobOpts) (s : Store)
      → All (λ j. (text_eq j.job_id [] ≡ false) × (stored j.job_id s ≡ true)) js
      → (enqueue_polls redis json h feeds js s).1 ≡ s
  unfolding enqueue_polls
  enqueue-stored [] s a = refl
  enqueue-stored (j ∷ js) s a = add_bulk-stored (j ∷ js) s a

  -- Of every group that is found a poll is stored already: the refresh of all feeds changes nothing.
  handle-stored :
      (gs : List SubscriptionGroup) (s : Store)
      → query_subscription_groups redis json h feeds s ≡ some gs
      → All (λ g. stored (refresh_feed_job_id h g.url g.user_ids) s ≡ true) gs
      → (handle_refresh_all_feeds redis json h feeds s).1 ≡ s
  unfolding handle_refresh_all_feeds enqueue_groups
  handle-stored gs s e a = rw e (enqueue-stored _ s (poll_jobs-stored (feeds.context s) gs s a))

  -- Let FailJob put off the poll of a feed and its users for another attempt, and let the refresh
  -- of all feeds find that feed alone, with its users in any order. Then the refresh changes
  -- nothing, whatever Redis answers, and the poll stays among the delayed jobs: no new poll of the
  -- feed is added.
  pub handle_refresh_all_feeds-stuck :
      (url : Text) (users : List Text) (reason : Text) (opts : JobOpts) (s s1 : Store)
      (g : SubscriptionGroup)
      → failing_attempt redis json backend (refresh_feed_job_id h url users) (view s)
        < opts.attempts
      → fail_job redis json backend (refresh_feed_job_id h url users) reason opts s ≡ (true, s1)
      → query_subscription_groups redis json h feeds s1 ≡ some (g ∷ [])
      → g.url ≡ url
      → Perm g.user_ids users
      → ((handle_refresh_all_feeds redis json h feeds s1).1 ≡ s1)
        × (is_delayed redis json backend
              (refresh_feed_job_id h g.url g.user_ids)
              (view ((handle_refresh_all_feeds redis json h feeds s1).1))
            ≡ true)
  handle_refresh_all_feeds-stuck url users reason opts s s1 g left failed found same order =
      let id_eq = refresh_feed_job_id-Perm h g.url url g.user_ids users same order in
      let on_record = (fail_job-Fails redis json backend _ reason opts s s1 failed).attempts in
      let there : stored (refresh_feed_job_id h g.url g.user_ids) s1 ≡ true =
        rw id_eq (present-field _ _ _ (view s1) on_record) in
      let still = handle-stored (g ∷ []) s1 found (there, tt) in
      (
        still,
        rw (still, id_eq)
            (fail_job-is_delayed redis json backend _ reason opts s s1 s1 left failed done),
      )
