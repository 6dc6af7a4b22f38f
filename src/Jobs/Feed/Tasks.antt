-- ===== src/Jobs/Feed/Tasks.antt =====
-- internal/jobs/refresh_feed.go: the content-fetch tasks, grouped by the item's URL.
use omnivore_go.Prelude.{
  ℕ, Text, codes, text_eq, text_eq→eq, text_eq_refl, List, [], ◌∷◌, ◌++◌, ◌≡◌, arith, if◌then◌else◌,
  map,
}
use omnivore_go.Prelude.Sort.{text_lt}

pub record ContentFetchUser : Type 0 where
  pub id : Text
  pub folder : Text
  pub library_item_id : Text

pub record ContentFetchJobData : Type 0 where
  pub url : Text
  pub users : List ContentFetchUser
  pub priority : Text
  pub source : Text
  pub labels : List Text
  pub rss_feed_url : Text
  pub saved_at : Text
  pub published_at : Text

abbrev pub Tasks : Type 0
Tasks = List (Text × ContentFetchJobData)

unfoldable pub new_task : Text → Text → Text → ContentFetchJobData
new_task url feed_url iso_date = record {
  url = url;
  users = [];
  priority = codes "low";
  source = codes "rss-feeder";
  labels = codes "RSS" ∷ [];
  rss_feed_url = feed_url;
  saved_at = iso_date;
  published_at = iso_date;
}

unfoldable pub add_user : ContentFetchUser → ContentFetchJobData → ContentFetchJobData
add_user u task = record task { users = task.users ++ u ∷ [] }

-- accumulateFetchContentTask
unfoldable pub accumulate : ContentFetchUser → Text → Text → Text → Tasks → Tasks
unfolding add_user new_task
accumulate u url feed_url iso_date [] = (url, add_user u (new_task url feed_url iso_date)) ∷ []
accumulate u url feed_url iso_date ((k, task) ∷ tasks) =
    if text_eq k url
    then (k, add_user u task) ∷ tasks
    else (k, task) ∷ accumulate u url feed_url iso_date tasks

unfoldable pub users_of : Text → Tasks → List ContentFetchUser
users_of url [] = []
users_of url ((k, task) ∷ tasks) = if text_eq k url then task.users else users_of url tasks

unfoldable pub insert_user : ContentFetchUser → List ContentFetchUser → List ContentFetchUser
insert_user u [] = u ∷ []
insert_user u (v ∷ vs) = if text_lt u.id v.id then u ∷ v ∷ vs else v ∷ insert_user u vs

-- sort.Slice by the ids of the users
unfoldable pub sort_users : List ContentFetchUser → List ContentFetchUser
sort_users [] = []
sort_users (u ∷ us) = insert_user u (sort_users us)

pub record FetchJob : Type 0 where
  pub name : Text
  pub payload : ContentFetchJobData
  pub job_id : Text
  pub attempts : ℕ
  pub backoff : ℕ

-- `hash` is sha256hex16 of the JSON of the URL and the users.
unfoldable pub fetch_job :
    (Text → List ContentFetchUser → Text) → Text → Text × ContentFetchJobData → FetchJob
fetch_job hash priority (url, task) = record {
  name = codes "fetch-content";
  payload = record task { priority = priority };
  job_id = codes "fetch-content_" ++ (hash url (sort_users task.users) ++ codes "_v1");
  attempts = 3;
  backoff = 1000;
}

unfoldable pub fetch_jobs : (Text → List ContentFetchUser → Text) → Text → Tasks → List FetchJob
fetch_jobs hash priority tasks =
    let p = if text_eq priority [] then codes "low" else priority in map (fetch_job hash p) tasks

-- A user who is added to a URL's task comes behind those that it has; the users of every other URL
-- stay.
pub users_of-accumulate :
    (u : ContentFetchUser) (url feed_url iso_date other : Text) (tasks : Tasks)
    → users_of other (accumulate u url feed_url iso_date tasks)
      ≡ (if text_eq url other then users_of url tasks ++ u ∷ [] else users_of other tasks)
unfolding users_of accumulate add_user new_task
users_of-accumulate u url feed_url iso_date other [] = ground arith
users_of-accumulate u url feed_url iso_date other ((k, task) ∷ tasks) = ground (
  arith,
  text_eq→eq k url,
  text_eq→eq url other,
  text_eq→eq k other,
  text_eq_refl url,
  text_eq_refl other,
  text_eq_refl k,
  users_of-accumulate u url feed_url iso_date other tasks,
)
