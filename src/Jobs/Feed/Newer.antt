-- ===== src/Jobs/Feed/Newer.antt =====
-- What a poll writes as the date of the most recent item.
use omnivore_go.Prelude.{
  ℕ, suc, zero, ◌<◌, ltb, leb, ◌==◌, Text, text_eq, Bool, true, false, ◌&&◌, List, [], ◌∷◌, Option,
  none, some, ◌≡◌, refl, arith, ◌⊎◌, inl, inr, if◌then◌else◌, Bool-cases,
}
use omnivore_go.Jobs.Feed.Items.{
  FeedItem, Feed, nanos_of_ms, max_items_per_feed, published_at, item_date, first_of, or_now,
  is_old, is_old_item, link_or_guid,
}
use omnivore_go.Jobs.Feed.Tasks.{Tasks}
use omnivore_go.Jobs.Feed.World.{World}
use omnivore_go.Jobs.Feed.Subscription.{
  Subscription, Progress, Done, later, after_item, take_item, process_valid, process_item,
  process_items, recent_key, fall_back, run_items, start,
}

-- A date that is later than `m` milliseconds, or is missing where no item was taken.
abbrev pub IsNewer : ℕ → ℕ → Option ℕ → Type 0
IsNewer m count o = ((o ≡ none) × (count ≡ 0)) ⊎ ((t : ℕ) × (o ≡ some t) × (nanos_of_ms m < t))

dated_newer :
    (now m t : ℕ) (o : Option ℕ)
    → nanos_of_ms m < now
    → is_old now m o ≡ false
    → 0 < m
    → nanos_of_ms m < or_now now o
unfolding is_old or_now
dated_newer now m t none late h some_m = late
dated_newer now zero t (some u) late h some_m = absurd (omega arith)
dated_newer now (suc m) t (some u) late h some_m = ground (arith, h)

not_old-newer :
    (now m : ℕ) (item : FeedItem)
    → nanos_of_ms m < now
    → is_old_item now item m ≡ false
    → 0 < m
    → nanos_of_ms m < published_at now item
unfolding is_old_item published_at item_date
not_old-newer now m item late h some_m =
    dated_newer now m 0 (first_of item.published item.updated) late h some_m

module _ (w : World) (sub : Subscription) (some_m : 0 < sub.most_recent)
    (late : (s : w.Store) → nanos_of_ms sub.most_recent < w.now s) where
  later-IsNewer :
      (c n t : ℕ) (o : Option ℕ)
      → nanos_of_ms sub.most_recent < t
      → IsNewer sub.most_recent c o
      → IsNewer sub.most_recent n (later w t o)
  unfolding later
  later-IsNewer c n t none h k = inr (t, refl, h)
  later-IsNewer c n t (some u) h (inl (e, z)) = absurd (cc)
  later-IsNewer c n t (some u) h (inr (v, e, k)) = elim (Bool-cases (ltb u t)) [
    | inl b ↦ rw b (inr (t, refl, h))
    | inr b ↦ rw b (inr (v, e, k))
  ]

  full-IsNewer :
      (c : ℕ) (o : Option ℕ)
      → leb max_items_per_feed c ≡ true
      → IsNewer sub.most_recent c o
      → IsNewer sub.most_recent (suc c) o
  full-IsNewer c o full (inl (e, z)) = absurd (ground (arith, full, z))
  full-IsNewer c o full (inr k) = inr k

  after_item-IsNewer :
      (t : ℕ) (p : Progress w) (d : Done w)
      → nanos_of_ms sub.most_recent < t
      → IsNewer sub.most_recent p.count p.last_fetched
      → IsNewer sub.most_recent (after_item w t p d).count (after_item w t p d).last_fetched
  unfolding after_item
  after_item-IsNewer t p d h n = elim (Bool-cases d.ok) [
    | inl b ↦ rw b (later-IsNewer p.count _ t p.last_fetched h n)
    | inr b ↦ rw b n
  ]

  process_valid-IsNewer :
      (item : FeedItem) (link : Text) (p : Progress w)
      → IsNewer sub.most_recent p.count p.last_fetched
      → IsNewer sub.most_recent
          (process_valid w sub item link p).count
          (process_valid w sub item link p).last_fetched
  unfolding process_valid
  process_valid-IsNewer item link p n = elim (Bool-cases (leb max_items_per_feed p.count)) [
    | inl b ↦ rw b (full-IsNewer p.count p.last_fetched b n)
    | inr b ↦ elim (Bool-cases (is_old_item (w.now p.store) item sub.most_recent)) [
      | inl c ↦ rw (b, c) n
      | inr c ↦ elim (Bool-cases (w.recently_saved (recent_key sub.user_id link) p.store)) [
        | inl d ↦ rw (b, c, d) n
        | inr d ↦
            rw (b, c, d)
              (after_item-IsNewer (published_at (w.now p.store) item) p
                (take_item w sub link item p.tasks p.store)
                (not_old-newer (w.now p.store) sub.most_recent item (late p.store) c some_m) n)
      ]
    ]
  ]

  process_item-IsNewer :
      (item : FeedItem) (p : Progress w)
      → IsNewer sub.most_recent p.count p.last_fetched
      → IsNewer sub.most_recent
          (process_item w sub item p).count
          (process_item w sub item p).last_fetched
  unfolding process_item
  process_item-IsNewer item p n = elim (Bool-cases (text_eq (link_or_guid item) [])) [
    | inl b ↦ rw b n
    | inr b ↦ rw b (process_valid-IsNewer item (link_or_guid item) _ n)
  ]

  process_items-IsNewer :
      (items : List FeedItem) (p : Progress w)
      → IsNewer sub.most_recent p.count p.last_fetched
      → IsNewer sub.most_recent
          (process_items w sub items p).count
          (process_items w sub items p).last_fetched
  unfolding process_items
  process_items-IsNewer [] p n = n
  process_items-IsNewer (i ∷ is) p n =
      process_items-IsNewer is (process_item w sub i p) (process_item-IsNewer i p n)

  kept :
      (b : Bool) (p q : Progress w)
      → b ≡ false
      → IsNewer sub.most_recent q.count q.last_fetched
      → IsNewer sub.most_recent (if b then p else q).count (if b then p else q).last_fetched
  kept true p q e n = absurd (cc)
  kept false p q e n = n

  and_false : (a b c : Bool) → c ≡ false → (a && (b && c)) ≡ false
  and_false a b c e = ground arith

  -- Let a subscription have seen an item already, and let the clock be past that item's date. Then
  -- the date that the poll takes as that of the most recent item is later than the one before, or
  -- the poll has taken no item and the date is missing.
  pub run_items-IsNewer :
      (feed : Feed) (tasks : Tasks) (s : w.Store)
      → IsNewer sub.most_recent
          (run_items w feed sub tasks s).count
          (run_items w feed sub tasks s).last_fetched
  unfolding run_items fall_back start
  run_items-IsNewer feed tasks s =
      let n = process_items-IsNewer feed.items (start w tasks s) (inl (refl, refl)) in
      let seen : (sub.most_recent == 0) ≡ false = ground (arith, some_m) in
      kept _ _ (process_items w sub feed.items (start w tasks s)) (and_false _ _ _ seen) n
