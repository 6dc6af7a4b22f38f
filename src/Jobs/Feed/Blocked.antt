-- ===== src/Jobs/Feed/Blocked.antt =====
-- A feed from a source whose pages are not fetched never causes a content fetch.
use omnivore_go.Prelude.{
  ℕ, suc, Text, codes, text_eq, leb, Bool, true, false, List, [], ◌∷◌, Option, none, some, ◌≡◌,
  refl, ap, ◌∙◌, inl, inr, if◌then◌else◌, Bool-cases,
}
use omnivore_go.Jobs.Feed.Items.{
  FeedItem, Feed, max_items_per_feed, first_of, is_old_item, link_or_guid, saves_feed_content,
  is_content_fetch_blocked,
}
use omnivore_go.Jobs.Feed.Tasks.{Tasks}
use omnivore_go.Jobs.Feed.World.{World}
use omnivore_go.Jobs.Feed.Subscription.{
  Subscription, Progress, Done, saved_as, after_item, after_fallback, take_item,
  enqueue_save_page_from_feed, process_valid, process_item, process_items, recent_key, fall_back,
  fall_back_to, run_items, start, is_stale, process_subscription,
}
use omnivore_go.Jobs.Feed.Refresh.{
  RefreshFeedRequest, subscription_at, process_each, process_parsed, enqueue_fetch_content_tasks,
}

module _ (w : World) (sub : Subscription) (never : sub.fetch_type ≡ codes "NEVER") where
  saved_as-tasks : (tasks : Tasks) (r : Bool × w.Store) → (saved_as w tasks r).tasks ≡ tasks
  unfolding saved_as
  saved_as-tasks tasks (b, s) = refl

  take_item-tasks :
      (link : Text) (item : FeedItem) (tasks : Tasks) (s : w.Store)
      → (take_item w sub link item tasks s).tasks ≡ tasks
  unfolding take_item saves_feed_content text_eq
  take_item-tasks link item tasks s =
      rw never (saved_as-tasks tasks (enqueue_save_page_from_feed w sub link item s))

  after_item-tasks : (t : ℕ) (p : Progress w) (d : Done w) → (after_item w t p d).tasks ≡ d.tasks
  unfolding after_item
  after_item-tasks t p d = elim (Bool-cases d.ok) [ inl b ↦ rw b | inr b ↦ rw b ]

  after_fallback-tasks :
      (t : ℕ) (i : FeedItem) (p : Progress w) (d : Done w)
      → (after_fallback w t i p d).tasks ≡ d.tasks
  unfolding after_fallback
  after_fallback-tasks t i p d = elim (Bool-cases d.ok) [ inl b ↦ rw b | inr b ↦ rw b ]

  process_valid-tasks :
      (item : FeedItem) (link : Text) (p : Progress w)
      → (process_valid w sub item link p).tasks ≡ p.tasks
  unfolding process_valid
  process_valid-tasks item link p = elim (Bool-cases (leb max_items_per_feed p.count)) [
    | inl b ↦ rw b
    | inr b ↦ elim (Bool-cases (is_old_item (w.now p.store) item sub.most_recent)) [
      | inl c ↦ rw (b, c)
      | inr c ↦ elim (Bool-cases (w.recently_saved (recent_key sub.user_id link) p.store)) [
        | inl d ↦ rw (b, c, d)
        | inr d ↦
            rw (b, c, d)
              (after_item-tasks _ p (take_item w sub link item p.tasks p.store)
                ∙ take_item-tasks link item p.tasks p.store)
      ]
    ]
  ]

  process_item-tasks :
      (item : FeedItem) (p : Progress w) → (process_item w sub item p).tasks ≡ p.tasks
  unfolding process_item
  process_item-tasks item p = elim (Bool-cases (text_eq (link_or_guid item) [])) [
    | inl b ↦ rw b
    | inr b ↦ rw b (process_valid-tasks item (link_or_guid item) _)
  ]

  process_items-tasks :
      (items : List FeedItem) (p : Progress w) → (process_items w sub items p).tasks ≡ p.tasks
  unfolding process_items
  process_items-tasks [] p = refl
  process_items-tasks (i ∷ is) p =
      process_items-tasks is (process_item w sub i p) ∙ process_item-tasks i p

  fall_back_to-tasks :
      (t : ℕ) (o : Option FeedItem) (p : Progress w) → (fall_back_to w sub t o p).tasks ≡ p.tasks
  unfolding fall_back_to
  fall_back_to-tasks t none p = refl
  fall_back_to-tasks t (some i) p = elim (Bool-cases (text_eq (link_or_guid i) [])) [
    | inl b ↦ rw b
    | inr b ↦ rw b (
        after_fallback-tasks t i p (take_item w sub (link_or_guid i) i p.tasks p.store)
        ∙ take_item-tasks (link_or_guid i) i p.tasks p.store)
  ]

  either_tasks :
      (b : Bool) (p q r : Progress w)
      → p.tasks ≡ r.tasks
      → q.tasks ≡ r.tasks
      → (if b then p else q).tasks ≡ r.tasks
  either_tasks true p q r h k = h
  either_tasks false p q r h k = k

  run_items-tasks :
      (feed : Feed) (tasks : Tasks) (s : w.Store) → (run_items w feed sub tasks s).tasks ≡ tasks
  unfolding run_items fall_back start
  run_items-tasks feed tasks s =
      let p = process_items w sub feed.items (start w tasks s) in
      either_tasks _ (fall_back_to w sub (w.now s) p.last_valid p) p p
        (fall_back_to-tasks (w.now s) p.last_valid p) refl
      ∙ process_items-tasks feed.items (start w tasks s)

  process_subscription-tasks :
      (feed : Feed) (checksum : Text) (tasks : Tasks) (s : w.Store)
      → (process_subscription w feed checksum sub tasks s).0 ≡ tasks
  unfolding process_subscription
  process_subscription-tasks feed checksum tasks s =
      elim (Bool-cases (text_eq checksum sub.last_checksum)) [
        | inl b ↦ rw b
        | inr b ↦
            elim (Bool-cases (is_stale w (first_of feed.updated feed.published) sub.most_recent)) [
              | inl c ↦ rw (b, c)
              | inr c ↦ rw (b, c) (run_items-tasks feed tasks s)
            ]
      ]

module _ (w : World) (req : RefreshFeedRequest) (feed : Feed) (checksum : Text) where
  never_fetched : (i : ℕ) (id : Text) → (subscription_at req false i id).fetch_type ≡ codes "NEVER"
  unfolding subscription_at
  never_fetched i id = refl

  process_each-tasks :
      (i : ℕ) (ids : List Text) (r : Tasks × w.Store)
      → (process_each w req feed checksum false i ids r).0 ≡ r.0
  unfolding process_each
  process_each-tasks i [] r = refl
  process_each-tasks i (id ∷ ids) (tasks, s) =
      process_each-tasks (suc i) ids
        (process_subscription w feed checksum (subscription_at req false i id) tasks s)
      ∙ process_subscription-tasks w (subscription_at req false i id) (never_fetched i id) feed
          checksum tasks s

  no_tasks :
      (priority : Text) (r : Tasks × w.Store)
      → r.0 ≡ []
      → enqueue_fetch_content_tasks w priority r ≡ r.1
  unfolding enqueue_fetch_content_tasks
  no_tasks priority ([], s) e = refl
  no_tasks priority (t ∷ ts, s) e = absurd (cc)

  -- A feed whose URL is on the list of blocked sources is processed with no content-fetch job
  -- added: each item of it, the fallback included, is saved with the feed's own content or left
  -- out, whatever the subscriptions ask for.
  pub process_parsed-blocked :
      (s : w.Store)
      → is_content_fetch_blocked req.feed_url ≡ true
      → process_parsed w req checksum (some feed) s
        ≡ (true, (process_each w req feed checksum false 0 req.subscription_ids ([], s)).1)
  unfolding process_parsed
  process_parsed-blocked s h = rw h (
      ap (λ t. (true, t))
        (no_tasks req.priority
          (process_each w req feed checksum false 0 req.subscription_ids ([], s))
          (process_each-tasks 0 req.subscription_ids ([], s))))
