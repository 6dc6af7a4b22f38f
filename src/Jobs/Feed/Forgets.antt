-- ===== src/Jobs/Feed/Forgets.antt =====
-- What a poll without new items does to a subscription.
use mathlib.Core.Path.{subst}
use omnivore_go.Prelude.{
  ℕ, suc, zero, ◌<◌, ◌≤◌, leb, ◌==◌, Text, text_eq, Bool, true, false, ◌&&◌, List, [], ◌∷◌, All,
  none, some, ◌≡◌, refl, sym, arith, inl, inr, if◌then◌else◌, Bool-cases,
}
use omnivore_go.Jobs.Feed.Items.{
  FeedItem, Feed, nanos_of_ms, max_items_per_feed, published_at, item_date, first_of, is_old,
  is_old_item, link_or_guid, next_scheduled,
}
use omnivore_go.Jobs.Feed.Tasks.{Tasks}
use omnivore_go.Jobs.Feed.World.{World, SubscriptionUpdate}
use omnivore_go.Jobs.Feed.Subscription.{
  Subscription, Progress, process_valid, process_item, process_items, keep_valid, with_link,
  fall_back, run_items, start, is_none, is_stale, written, process_subscription,
}

-- An item that is dated no later than `m` milliseconds.
abbrev pub IsSeen : ℕ → FeedItem → Type 0
IsSeen m item = (t : ℕ) × (item_date item ≡ some t) × (t ≤ nanos_of_ms m)

seen-old : (now m : ℕ) (item : FeedItem) → 0 < m → IsSeen m item → is_old_item now item m ≡ true
unfolding is_old_item is_old item_date
seen-old now zero item h (t, e, le) = absurd (omega arith)
seen-old now (suc m) item h (t, e, le) = rw e (ground (arith, le))

-- The update that writes NULL as the date of the most recent item.
abbrev pub forgetting : World → Subscription → Feed → Text → ℕ → SubscriptionUpdate
forgetting w sub feed checksum refreshed = record {
  most_recent_item_date = none;
  last_fetched_checksum = checksum;
  scheduled_at = next_scheduled w.unicode feed sub.scheduled;
  refreshed_at = refreshed;
  failed_at = none;
}

module _ (w : World) (sub : Subscription) (some_m : 0 < sub.most_recent) where
  -- The loop has taken nothing yet.
  record Idle (tasks : Tasks) (s : w.Store) (p : Progress w) : Type 0 where
    no_date : p.last_fetched ≡ none
    no_failure : p.failed_at ≡ none
    no_items : p.count ≡ 0
    same_tasks : p.tasks ≡ tasks
    same_store : p.store ≡ s

  process_valid-idle :
      (item : FeedItem) (link : Text) (p : Progress w)
      → p.count ≡ 0
      → IsSeen sub.most_recent item
      → process_valid w sub item link p ≡ p
  unfolding process_valid
  process_valid-idle item link p e seen =
      let room : leb max_items_per_feed p.count ≡ false = ground (arith, e) in
      rw (room, seen-old (w.now p.store) sub.most_recent item some_m seen)

  process_item-Idle :
      (item : FeedItem) (tasks : Tasks) (s : w.Store) (p : Progress w)
      → IsSeen sub.most_recent item
      → Idle tasks s p
      → Idle tasks s (process_item w sub item p)
  unfolding process_item
  process_item-Idle item tasks s p seen i = elim (Bool-cases (text_eq (link_or_guid item) [])) [
    | inl b ↦ rw b i
    | inr b ↦
        let q : Progress w = record p {
          last_valid =
              keep_valid w (with_link w item (link_or_guid item))
                (published_at (w.now p.store) item) p.last_valid;
        } in
        let idle : Idle tasks s q = record {
          no_date = i.no_date;
          no_failure = i.no_failure;
          no_items = i.no_items;
          same_tasks = i.same_tasks;
          same_store = i.same_store;
        } in
        rw b (
          subst (Idle tasks s) (sym (process_valid-idle item (link_or_guid item) q i.no_items seen))
            idle)
  ]

  process_items-Idle :
      (items : List FeedItem) (tasks : Tasks) (s : w.Store) (p : Progress w)
      → All (IsSeen sub.most_recent) items
      → Idle tasks s p
      → Idle tasks s (process_items w sub items p)
  unfolding process_items
  process_items-Idle [] tasks s p seen i = i
  process_items-Idle (item ∷ items) tasks s p (first, rest) i =
      process_items-Idle items tasks s (process_item w sub item p) rest
        (process_item-Idle item tasks s p first i)

  and_false : (a b c : Bool) → c ≡ false → (a && (b && c)) ≡ false
  and_false a b c e = ground arith

  unchanged_if :
      (tasks : Tasks) (s : w.Store) (b : Bool) (p q : Progress w)
      → b ≡ false
      → Idle tasks s q
      → Idle tasks s (if b then p else q)
  unchanged_if tasks s true p q e i = absurd (cc)
  unchanged_if tasks s false p q e i = i

  fall_back-Idle :
      (t : ℕ) (tasks : Tasks) (s : w.Store) (p : Progress w)
      → Idle tasks s p
      → Idle tasks s (fall_back w sub t p)
  unfolding fall_back is_none
  fall_back-Idle t tasks s p i =
      let new : (sub.most_recent == 0) ≡ false = ground (arith, some_m) in
      unchanged_if tasks s _ _ p (and_false _ _ _ new) i

  written-Idle :
      (feed : Feed) (checksum : Text) (t : ℕ) (tasks : Tasks) (s : w.Store) (p : Progress w)
      → Idle tasks s p
      → ◌≡◌ {A = Tasks × w.Store}
          (p.tasks, w.update_subscription sub.sub_id (written w feed checksum t sub p) p.store)
          (tasks, w.update_subscription sub.sub_id (forgetting w sub feed checksum t) s)
  unfolding written
  written-Idle feed checksum t tasks s p i =
      rw (i.no_date, i.no_failure, i.same_tasks, i.same_store)

  -- Let a subscription have seen an item already, and let the feed have changed, with a date of
  -- its own that is missing or later. If each item of the feed is dated no later than the one that was
  -- seen, then the poll takes none of them, but it writes NULL as the date of the most recent
  -- item: the subscription counts as a new one at the next poll.
  pub process_subscription-forgets :
      (feed : Feed) (checksum : Text) (tasks : Tasks) (s : w.Store)
      → text_eq checksum sub.last_checksum ≡ false
      → is_stale w (first_of feed.updated feed.published) sub.most_recent ≡ false
      → All (IsSeen sub.most_recent) feed.items
      → process_subscription w feed checksum sub tasks s
        ≡ (tasks, w.update_subscription sub.sub_id (forgetting w sub feed checksum (w.now s)) s)
  unfolding process_subscription run_items start
  process_subscription-forgets feed checksum tasks s changed fresh seen =
      let i0 : Idle tasks s (start w tasks s) = record {
        no_date = refl;
        no_failure = refl;
        no_items = refl;
        same_tasks = refl;
        same_store = refl;
      } in
      let i =
        fall_back-Idle (w.now s) tasks s _
          (process_items-Idle feed.items tasks s (start w tasks s) seen i0) in
      rw (changed, fresh) (written-Idle feed checksum (w.now s) tasks s _ i)
