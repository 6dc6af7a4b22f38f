-- ===== src/Jobs/Feed/Items.antt =====
-- internal/jobs/refresh_feed.go: feeds and their items as gofeed parses them, and the decisions on
-- one item. Times are nanoseconds since 1970, before which no item is dated.
use omnivore_go.Prelude.{
  ℕ, suc, zero, ◌+◌, ◌-◌, ◌*◌, ◌%◌, ◌^◌, ltb, Text, codes, text_eq, has_prefix, Bool, true, false,
  ◌&&◌, ◌||◌, not, List, [], ◌∷◌, Option, none, some, get_elem?, if◌then◌else◌,
}
use omnivore_go.Prelude.Int.{ℤ, pos, negsuc, scan_int}
use omnivore_go.Prelude.Unicode.{Unicode, to_lower}

pub record FeedItem : Type 0 where
  pub title : Text
  pub link : Text
  pub links : List Text
  pub guid : Text
  pub content : Text
  pub description : Text
  pub published : Option ℕ
  pub updated : Option ℕ
  pub author : Option Text

-- `extensions ns element` are the values under these names; none where a map has no such entry.
pub record Feed : Type 0 where
  pub updated : Option ℕ
  pub published : Option ℕ
  pub items : List FeedItem
  pub extensions : Text → Text → List Text

abbrev pub max_items_per_feed : ℕ
max_items_per_feed = 100

abbrev pub nanos_of_ms : ℕ → ℕ
nanos_of_ms ms = ms * 1000000

abbrev pub day : ℕ
day = 24 * (3600 * 1000000000)

unfoldable pub first_of : Option ℕ → Option ℕ → Option ℕ
first_of none b = b
first_of (some a) b = some a

unfoldable pub item_date : FeedItem → Option ℕ
unfolding first_of
item_date item = first_of item.published item.updated

unfoldable pub or_now : ℕ → Option ℕ → ℕ
or_now now none = now
or_now now (some t) = t

-- The date of an item in the loop: what is parsed from its ISO date is overwritten by the date
-- that it was written from.
unfoldable pub published_at : ℕ → FeedItem → ℕ
unfolding or_now item_date
published_at now item = or_now now (item_date item)

unfoldable pub is_old : ℕ → ℕ → Option ℕ → Bool
is_old now most_recent none = false
is_old now zero (some t) = ltb t (now - day)
is_old now (suc m) (some t) = not (ltb (nanos_of_ms (suc m)) t)

-- IsOldItem
unfoldable pub is_old_item : ℕ → FeedItem → ℕ → Bool
unfolding is_old item_date
is_old_item now item most_recent = is_old now most_recent (item_date item)

unfoldable pub has_any_prefix : Text → List Text → Bool
has_any_prefix url [] = false
has_any_prefix url (p ∷ ps) = has_prefix url p || has_any_prefix url ps

unfoldable pub is_content_fetch_blocked : Text → Bool
unfolding has_any_prefix
is_content_fetch_blocked url = has_any_prefix url (
    codes "https://arxiv.org/"
    ∷ codes "https://rss.arxiv.org"
    ∷ codes "https://rsshub.app"
    ∷ codes "https://xkcd.com"
    ∷ codes "https://daringfireball.net/feeds/"
    ∷ codes "https://lwn.net/headlines/newrss"
    ∷ codes "https://medium.com"
    ∷ [])

unfoldable pub first_link : List Text → Text
first_link [] = []
first_link (l ∷ ls) = l

unfoldable pub extract_item_link : FeedItem → Text
unfolding first_link
extract_item_link item = if text_eq item.link [] then first_link item.links else item.link

-- The link, or else the GUID.
unfoldable pub link_or_guid : FeedItem → Text
unfolding extract_item_link
link_or_guid item = let link = extract_item_link item in if text_eq link [] then item.guid else link

unfoldable pub format_date : (ℕ → Text) → Option ℕ → Text
format_date rfc3339 none = []
format_date rfc3339 (some t) = rfc3339 t

unfoldable pub item_iso_date : (ℕ → Text) → FeedItem → Text
unfolding format_date item_date
item_iso_date rfc3339 item = format_date rfc3339 (item_date item)

unfoldable pub feed_content : FeedItem → Text
feed_content item = if text_eq item.content [] then item.description else item.content

-- Whether an item is saved with the feed's own content instead of being fetched.
unfoldable pub saves_feed_content : Text → Text → Bool
saves_feed_content fetch_type content =
    text_eq fetch_type (codes "NEVER")
    || (text_eq fetch_type (codes "WHEN_EMPTY") && not (text_eq content []))

unfoldable pub extension_value : Feed → Text → Text → Text
unfolding first_link
extension_value feed ns element = first_link (feed.extensions ns element)

unfoldable pub get_update_period_in_hours : Unicode → Feed → ℕ
get_update_period_in_hours u feed =
    let period = to_lower u (extension_value feed (codes "sy") (codes "updatePeriod")) in
    if text_eq period (codes "daily")
    then 24
    else if text_eq period (codes "weekly")
    then 7 * 24
    else if text_eq period (codes "monthly")
    then 30 * 24
    else if text_eq period (codes "yearly")
    then 365 * 24
    else 1

unfoldable pub frequency_of : Option ℤ → ℕ
frequency_of (some (pos (suc n))) = suc n
frequency_of other = 1

unfoldable pub get_update_frequency : Feed → ℕ
unfolding frequency_of
get_update_frequency feed =
    let v = extension_value feed (codes "sy") (codes "updateFrequency") in
    if text_eq v [] then 1 else frequency_of (scan_int v)

-- The word of the int64 in milliseconds
unfoldable pub next_scheduled : Unicode → Feed → ℕ → ℕ
next_scheduled u feed scheduled =
    (scheduled + (get_update_period_in_hours u feed * 60 * 60 * 1000) * get_update_frequency feed)
    % 2 ^ 64

unfoldable pub text_or_empty : Option Text → Text
text_or_empty none = []
text_or_empty (some t) = t

unfoldable pub safe_idx : List Text → ℕ → Text
unfolding text_or_empty
safe_idx ss i = text_or_empty (get_elem? ss i)

unfoldable pub number_or_zero : Option ℕ → ℕ
number_or_zero none = 0
number_or_zero (some n) = n

unfoldable pub safe_int64 : List ℕ → ℕ → ℕ
unfolding number_or_zero
safe_int64 ns i = number_or_zero (get_elem? ns i)

-- Whether an int, read from the front of a text, is above `max`; a text without one counts as 0.
unfoldable pub is_above : Option ℤ → ℤ → Bool
is_above none (pos m) = false
is_above none (negsuc m) = true
is_above (some (pos n)) (pos m) = ltb m n
is_above (some (pos n)) (negsuc m) = true
is_above (some (negsuc n)) (pos m) = false
is_above (some (negsuc n)) (negsuc m) = ltb n m
