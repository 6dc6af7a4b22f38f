-- ===== src/Fetch/Sample.antt =====
-- A cache in the hashes of a Redis server, a page that is fetched, and a save-fetched_page that reads both.
use omnivore_go.Prelude.{
  ℕ, ◌*◌, ◌/◌, Text, codes, text_eq, text_eq_refl, Bool, true, false, List, [], ◌∷◌, ◌++◌, Option,
  none, some, ◌≡◌, refl, sym, ap, ◌∙◌,
}
use omnivore_go.Prelude.Int.{format_nat, read_digits}
use omnivore_go.Prelude.Encoding.{write_texts, read_texts, read-write}
use omnivore_go.Bullmq.Redis.{View, hash_get, fields_of, put}
use omnivore_go.Bullmq.Queue.Sample.{server}
use omnivore_go.Jobs.SavePage.Page.{World, CachePayload}
use omnivore_go.Jobs.SavePage.Sample.{table}
use omnivore_go.Fetch.Job.{UserConfig, JobData, Result}
use omnivore_go.Fetch.Process.{Outside}

abbrev pub write_result : Result → Text
write_result r = write_texts (r.final_url ∷ r.title ∷ r.content ∷ r.content_type ∷ [])

abbrev pub result_in : List Text → Option Result
result_in (f ∷ t ∷ c ∷ k ∷ []) =
    some (record { final_url = f; title = t; content = c; content_type = k })
result_in other = none

abbrev pub read_result : Text → Option Result
read_result v = result_in (read_texts [] v)

pub read_result-write_result : (r : Result) → read_result (write_result r) ≡ some r
read_result-write_result r =
    ap result_in (read-write (r.final_url ∷ r.title ∷ r.content ∷ r.content_type ∷ []))

abbrev pub with_value : Text → Text → View → View
with_value k v s = record s { hashes = put s.hashes k (some ((codes "v", v) ∷ [])) }

abbrev pub value_at : Text → View → Option (Option Text)
value_at k s = some (hash_get (codes "v") (fields_of (s.hashes k)))

pub value_at-with_value :
    (k v : Text) (s s' : View)
    → ◌≡◌ {A = Bool × View} (true, with_value k v s) (true, s')
    → value_at k s' ≡ some (some v)
unfolding hash_get
value_at-with_value k v s s' e =
    let same : with_value k v s ≡ s' = ap (λ r. r.1) e in
    ap (value_at k) (sym same) ∙ (rw (text_eq_refl k) (rw (text_eq_refl (codes "v")) refl))

-- Seconds, behind a letter.
abbrev pub write_time : ℕ → Text
write_time t = codes "T" ++ format_nat (t / 1000000000)

abbrev pub read_seconds : Option ℕ → Option ℕ
read_seconds none = none
read_seconds (some n) = some (n * 1000000000)

abbrev pub read_time : Text → Option ℕ
read_time [] = none
read_time (c ∷ s) = read_seconds (read_digits 0 false s)

pub write_time_ne : (t : ℕ) → text_eq (write_time t) [] ≡ false
unfolding text_eq
write_time_ne t = refl

abbrev pub fetched_page : Result
fetched_page = record {
  final_url = codes "https://a.b/";
  title = codes "A";
  content = codes "two words";
  content_type = codes "text/html";
}

abbrev pub outside : Outside server
outside = record {
  clock = λ s. 5300000000;
  parse_hostname = λ url. some (codes "a.b");
  get = value_at;
  set_nx = λ k v s. (true, with_value k v s);
  incr_failure = λ k s. s;
  fetch = λ url locale timezone s. (some fetched_page, s);
  unmarshal_result = read_result;
  marshal_result = write_result;
  unmarshal_empty = refl;
  unmarshal-marshal = read_result-write_result;
  set_nx_lem = λ k v s s' absent e. value_at-with_value k v s s' e;
  parse_rfc3339 = read_time;
  format_rfc3339 = write_time;
  format_rfc3339_ne = write_time_ne;
  upload = λ path content s. s;
  send_import_status = λ user task s. s;
  marshal_job = λ j. some j.url;
}

abbrev pub payload_of : Option Result → Option CachePayload
payload_of none = none
payload_of (some r) =
    some (record { final_url = r.final_url; title = r.title; content = r.content })

abbrev pub reader : World
reader = record table {
  get_cache = λ k s. some (write_result fetched_page);
  read_payload = λ v. payload_of (read_result v);
  parse_rfc3339 = read_time;
}

abbrev pub ann : UserConfig
ann = record { id = codes "ann"; library_item_id = codes "i1"; folder = none }

abbrev pub for_ann : JobData
for_ann = record {
  url = codes "https://a.b";
  user_id = some (codes "ann");
  save_request_id = codes "i1";
  state = none;
  source = none;
  task_id = none;
  locale = none;
  timezone = none;
  rss_feed_url = none;
  saved_at = none;
  published_at = none;
  folder = none;
  users = [];
  priority = codes "high";
}
