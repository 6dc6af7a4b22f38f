-- ===== src/Jobs/AllFeeds/Sample.antt =====
-- A digest that keeps the first 32 code points, an encoding of lists of texts, and a database
-- with one feed of two users, for the tests.
use omnivore_go.Prelude.{
  ℕ, zero, suc, Text, codes, List, [], ◌∷◌, none, some, ◌≡◌, refl, ap, length,
}
use omnivore_go.Prelude.Encoding.{write_texts, read_texts, read-write}
use omnivore_go.Bullmq.Queue.Sample.{server}
use omnivore_go.Jobs.AllFeeds.Groups.{SubscriptionRow, aggregate}
use omnivore_go.Jobs.AllFeeds.Enqueue.{Hashing, Feeds}

-- `n` code points: those of a text, and zeros behind them.
abbrev pub padded : ℕ → Text → List ℕ
padded zero s = []
padded (suc n) [] = 0 ∷ padded n []
padded (suc n) (c ∷ s) = c ∷ padded n s

pub length-padded : (n : ℕ) (s : Text) → length (padded n s) ≡ n
length-padded zero s = refl
length-padded (suc n) [] = ap suc (length-padded n [])
length-padded (suc n) (c ∷ s) = ap suc (length-padded n s)

abbrev pub digest : Hashing
digest = record {
  sha256 = padded 32;
  marshal_strings = write_texts;
  unmarshal_strings = λ s. some (read_texts [] s);
  length-sha256 = length-padded 32;
  unmarshal-marshal = λ l. ap some (read-write l);
}

abbrev pub of_ann : SubscriptionRow
of_ann = record {
  id = codes "s1";
  user_id = codes "ann";
  most_recent_item_date = none;
  scheduled_at = none;
  last_fetched_checksum = none;
  folder = none;
  fetch_content_type = none;
}

abbrev pub of_bob : SubscriptionRow
of_bob = record {
  id = codes "s2";
  user_id = codes "bob";
  most_recent_item_date = some 5000000;
  scheduled_at = some 7000000;
  last_fetched_checksum = some (codes "c");
  folder = some (codes "inbox");
  fetch_content_type = some (codes "ALWAYS");
}

abbrev pub feed_url : Text
feed_url = codes "https://a.b/rss"

abbrev pub one_feed : Feeds server
one_feed = record {
  query = λ v. some (aggregate 9000000 feed_url (of_bob ∷ of_ann ∷ []) ∷ []);
  clock = λ v. 9000000;
  context = λ v. record { type = codes "all"; refresh_id = codes "r"; started_at = codes "t" };
  marshal_payload = λ p. some p.feed_url;
}
