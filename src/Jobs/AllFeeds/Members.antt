-- ===== src/Jobs/AllFeeds/Members.antt =====
-- From the grouped query through the payload to the poll: every member of a group is polled with
-- its own columns.
use omnivore_go.Prelude.{
  ℕ, zero, suc, ◌+◌, Text, codes, text_eq, Bool, List, [], ◌∷◌, Option, none, some, map, ◌≡◌, refl,
  ap, ◌∙◌, arith, Option-cases, inl, inr, get_elem?, if◌then◌else◌,
}
use omnivore_go.Jobs.Feed.Items.{Feed, text_or_empty, number_or_zero, safe_idx, safe_int64}
use omnivore_go.Jobs.Feed.Tasks.{Tasks}
use omnivore_go.Jobs.Feed.World.{World}
use omnivore_go.Jobs.Feed.Subscription.{Subscription, process_subscription}
use omnivore_go.Jobs.Feed.Refresh.{RefreshFeedRequest, subscription_at, process_each}
use omnivore_go.Jobs.AllFeeds.Groups.{
  SubscriptionRow, RefreshContext, aggregate, value_or, unix_milli, valid_elements, millis_or,
  texts_or, decode_group, payload_of, read_payload,
}

unfoldable pub millis : ℕ → Option ℕ → ℕ
millis d none = d
millis d (some t) = unix_milli t

-- The subscription that a row of the database asks to poll: a time that is missing is 0, or the
-- clock of the query, and a folder that is missing or empty is the default one.
unfoldable pub subscription_of : ℕ → Text → Bool → SubscriptionRow → Subscription
unfolding value_or millis
subscription_of now url allow r =
    let folder = value_or (codes "following") r.folder in
    record {
      sub_id = r.id;
      user_id = r.user_id;
      feed_url = url;
      most_recent = millis 0 r.most_recent_item_date;
      scheduled = millis 0 (some (value_or now r.scheduled_at));
      last_checksum = value_or [] r.last_fetched_checksum;
      fetch_type = if allow then value_or (codes "NEVER") r.fetch_content_type else codes "NEVER";
      folder = if text_eq folder [] then codes "following" else folder;
    }

module _ (w : World) where
  open w use {Store}

  -- The poll, as a loop over the rows themselves.
  unfoldable pub poll_rows :
      ℕ → Text → Feed → Text → Bool → List SubscriptionRow → Tasks × Store → Tasks × Store
  poll_rows now url feed checksum allow [] r = r
  poll_rows now url feed checksum allow (row ∷ rows) (tasks, s) =
      poll_rows now url feed checksum allow rows
        (process_subscription w feed checksum (subscription_of now url allow row) tasks s)

-- The request that a group's rows become.
abbrev pub request_of : ℕ → ℕ → RefreshContext → Text → List SubscriptionRow → RefreshFeedRequest
request_of now clock rc url rows =
    read_payload (payload_of rc (decode_group clock (aggregate now url rows)))

valid-ids :
    (rows : List SubscriptionRow)
    → valid_elements (map (λ r. some r.id) rows) ≡ map (λ r. r.id) rows
unfolding valid_elements
valid-ids [] = refl
valid-ids (r ∷ rows) = rw (valid-ids rows)

valid-users :
    (rows : List SubscriptionRow)
    → valid_elements (map (λ r. some r.user_id) rows) ≡ map (λ r. r.user_id) rows
unfolding valid_elements
valid-users [] = refl
valid-users (r ∷ rows) = rw (valid-users rows)

millis_or-map {ℓ} :
    {A : Type ℓ} (d : ℕ) (f : A → Option ℕ) (xs : List A)
    → millis_or d (map f xs) ≡ map (λ x. millis d (f x)) xs
unfolding millis_or millis
millis_or-map d f [] = refl
millis_or-map d f (x ∷ xs) = elim (Option-cases (f x)) [
  | inl e ↦ rw e (ap (◌∷◌ d) (millis_or-map d f xs))
  | inr (t, e) ↦ rw e (ap (◌∷◌ (unix_milli t)) (millis_or-map d f xs))
]

texts_or-map {ℓ} :
    {A : Type ℓ} (d : Text) (f : A → Option Text) (xs : List A)
    → texts_or d (map f xs) ≡ map (λ x. value_or d (f x)) xs
unfolding texts_or value_or
texts_or-map d f [] = refl
texts_or-map d f (x ∷ xs) = elim (Option-cases (f x)) [
  | inl e ↦ rw e (ap (◌∷◌ d) (texts_or-map d f xs))
  | inr (t, e) ↦ rw e (ap (◌∷◌ t) (texts_or-map d f xs))
]

get_elem?-map {ℓ κ} :
    {A : Type ℓ} {B : Type κ} (f : A → B) (xs : List A) (i : ℕ) (x : A)
    → get_elem? xs i ≡ some x
    → get_elem? (map f xs) i ≡ some (f x)
get_elem?-map f [] i x e = absurd (cc)
get_elem?-map f (y ∷ xs) zero x e = let same : y ≡ x = cc e in rw same
get_elem?-map f (y ∷ xs) (suc i) x e = get_elem?-map f xs i x e

user_at :
    (rows : List SubscriptionRow) (i : ℕ) (row : SubscriptionRow)
    → get_elem? rows i ≡ some row
    → safe_idx (valid_elements (map (λ r. some r.user_id) rows)) i ≡ row.user_id
unfolding safe_idx text_or_empty
user_at rows i row e = rw (valid-users rows, get_elem?-map (λ r. r.user_id) rows i row e)

text_at :
    (d : Text) (f : SubscriptionRow → Option Text) (rows : List SubscriptionRow) (i : ℕ)
    (row : SubscriptionRow)
    → get_elem? rows i ≡ some row
    → safe_idx (texts_or d (map f rows)) i ≡ value_or d (f row)
unfolding safe_idx text_or_empty
text_at d f rows i row e =
    rw (texts_or-map d f rows, get_elem?-map (λ r. value_or d (f r)) rows i row e)

time_at :
    (d : ℕ) (f : SubscriptionRow → Option ℕ) (rows : List SubscriptionRow) (i : ℕ)
    (row : SubscriptionRow)
    → get_elem? rows i ≡ some row
    → safe_int64 (millis_or d (map f rows)) i ≡ millis d (f row)
unfolding safe_int64 number_or_zero
time_at d f rows i row e =
    rw (millis_or-map d f rows, get_elem?-map (λ r. millis d (f r)) rows i row e)

subscription_at-row :
    (now clock : ℕ) (rc : RefreshContext) (url : Text) (rows : List SubscriptionRow) (allow : Bool)
    (i : ℕ) (row : SubscriptionRow)
    → get_elem? rows i ≡ some row
    → subscription_at (request_of now clock rc url rows) allow i row.id
      ≡ subscription_of now url allow row
unfolding subscription_at subscription_of decode_group aggregate payload_of read_payload
subscription_at-row now clock rc url rows allow i row e =
    rw
      (
        user_at rows i row e,
        time_at 0 (λ r. r.most_recent_item_date) rows i row e,
        time_at (unix_milli clock) (λ r. some (value_or now r.scheduled_at)) rows i row e,
        text_at [] (λ r. r.last_fetched_checksum) rows i row e,
        text_at (codes "NEVER") (λ r. r.fetch_content_type) rows i row e,
        text_at (codes "following") (λ r. some (value_or (codes "following") r.folder)) rows i row
            e,
      )
      (unfold value_or millis in refl)

ids_of-request :
    (now clock : ℕ) (rc : RefreshContext) (url : Text) (rows : List SubscriptionRow)
    → (request_of now clock rc url rows).subscription_ids ≡ map (λ r. r.id) rows
unfolding read_payload payload_of decode_group aggregate
ids_of-request now clock rc url rows = valid-ids rows

module _ (w : World) where
  open w use {Store}

  process_rows :
      (now clock : ℕ) (rc : RefreshContext) (url : Text) (rows : List SubscriptionRow) (feed : Feed)
      (checksum : Text) (allow : Bool) (i : ℕ) (rest : List SubscriptionRow) (r : Tasks × Store)
      → ((k : ℕ) → get_elem? rows (i + k) ≡ get_elem? rest k)
      → process_each w
          (request_of now clock rc url rows)
          feed
          checksum
          allow
          i
          (map (λ x. x.id) rest)
          r
        ≡ poll_rows w now url feed checksum allow rest r
  unfolding process_each poll_rows
  process_rows now clock rc url rows feed checksum allow i [] r at = refl
  process_rows now clock rc url rows feed checksum allow i (row ∷ rest) (tasks, s) at =
      let here : get_elem? rows i ≡ some row = let z : i + 0 ≡ i = omega arith in rw z at (at 0) in
      let sub = subscription_at-row now clock rc url rows allow i row here in
      ap
        (λ x.
          process_each w (request_of now clock rc url rows) feed checksum allow (suc i)
            (map (λ y. y.id) rest) (process_subscription w feed checksum x tasks s))
        sub
      ∙ (process_rows now clock rc url rows feed checksum allow (suc i) rest _
          (λ k. let z : suc i + k ≡ i + suc k = omega arith in rw z (at (suc k))))

  -- The poll of a group goes through the rows of the group, one by one, each with its own user,
  -- dates, checksum, folder and fetch type: no column of one row meets that of another, whichever
  -- of them are NULL.
  pub process_each-rows :
      (now clock : ℕ) (rc : RefreshContext) (url : Text) (rows : List SubscriptionRow) (feed : Feed)
      (checksum : Text) (allow : Bool) (r : Tasks × Store)
      → process_each w
          (request_of now clock rc url rows)
          feed
          checksum
          allow
          0
          (request_of now clock rc url rows).subscription_ids
          r
        ≡ poll_rows w now url feed checksum allow rows r
  process_each-rows now clock rc url rows feed checksum allow r =
      ap (λ ids. process_each w (request_of now clock rc url rows) feed checksum allow 0 ids r)
        (ids_of-request now clock rc url rows)
      ∙ process_rows now clock rc url rows feed checksum allow 0 rows r
          (λ k. let z : 0 + k ≡ k = omega arith in rw z)
