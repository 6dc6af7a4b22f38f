-- ===== src/Fetch/Process.antt =====
-- internal/handler/handler.go: ProcessFetchContentJob.
use omnivore_go.Prelude.{
  ℕ, ◌/◌, Text, codes, text_eq, Bool, true, false, ◌||◌, ◌&&◌, not, List, [], ◌∷◌, ◌++◌, map,
  Option, none, some, ◌≡◌, if◌then◌else◌,
}
use omnivore_go.Prelude.Int.{ℤ, format_nat}
use omnivore_go.Bullmq.Redis.{Redis}
use omnivore_go.Bullmq.Queue.{AddJobOpts, Json, add_bulk}
use omnivore_go.Fetch.Job.{
  UserConfig, JobData, Result, SavePageJobData, is_given, text_of, users_of_job, source_of,
  get_bullmq_priority, get_attempts, build_cache_key, failure_redis_key, is_listed, is_no_cache_url,
  counts_above,
}

-- What the job calls beside the queue. `get` is `none` on an error, and `some none` where Redis has
-- no such key. Errors of the cache, of the counts and of the upload are only logged. Times are
-- nanoseconds.
pub record Outside (redis : Redis) : Type 0 where
  pub clock : redis.Store → ℕ
  pub parse_hostname : Text → Option Text
  pub get : Text → redis.Store → Option (Option Text)
  pub set_nx : Text → Text → redis.Store → Bool × redis.Store
  pub incr_failure : Text → redis.Store → redis.Store
  pub fetch : Text → Text → Text → redis.Store → Option Result × redis.Store
  pub unmarshal_result : Text → Option Result
  pub marshal_result : Result → Text
  pub unmarshal_empty : unmarshal_result [] ≡ none
  pub unmarshal-marshal : (r : Result) → unmarshal_result (marshal_result r) ≡ some r
  pub set_nx_lem :
      (k v : Text) (s s' : redis.Store)
      → get k s ≡ some none
      → set_nx k v s ≡ (true, s')
      → get k s' ≡ some (some v)
  pub parse_rfc3339 : Text → Option ℕ
  pub format_rfc3339 : ℕ → Text
  pub format_rfc3339_ne : (t : ℕ) → text_eq (format_rfc3339 t) [] ≡ false
  pub upload : Text → Text → redis.Store → redis.Store
  pub send_import_status : Text → Text → redis.Store → redis.Store
  pub marshal_job : SavePageJobData → Option Text

-- What comes before the jobs are queued.
pub data Prepared : Type 0 where
  ready : Result → Prepared
  dropped : Prepared
  failed : Prepared

module _ (redis : Redis) (json : Json) (o : Outside redis) (max_failures : ℤ)
    (skip_upload : Bool) where
  open redis use {Store}
  open o use {
    clock, parse_hostname, get, set_nx, incr_failure, fetch, unmarshal_result, marshal_result,
    parse_rfc3339, format_rfc3339, upload, send_import_status, marshal_job,
  }

  unfoldable pub failure_count : Option (Option Text) → Option Text
  failure_count none = none
  failure_count (some v) = v

  -- isDomainBlocked; an error counts as no.
  unfoldable pub is_domain_blocked : Text → Store → Bool
  is_domain_blocked domain s =
      is_listed domain
      || counts_above max_failures (failure_count (get (failure_redis_key domain) s))

  unfoldable pub usable_result : Option Result → Option Result
  usable_result none = none
  usable_result (some r) = if text_eq r.final_url [] then none else some r

  unfoldable pub cached_result : Option (Option Text) → Option Result
  cached_result none = none
  cached_result (some none) = none
  cached_result (some (some v)) = usable_result (unmarshal_result v)

  -- getCachedResult; an error counts as a miss.
  unfoldable pub get_cached_result : Text → Store → Option Result
  get_cached_result key s = cached_result (get key s)

  unfoldable pub key_of : JobData → Text
  key_of d = build_cache_key d.url (text_of d.locale) (text_of d.timezone)

  unfoldable pub cache_result : Text → JobData → Result → Store → Store
  cache_result key d r s =
      if not (text_eq r.content []) && not (is_no_cache_url d.url)
      then (set_nx key (marshal_result r) s).1
      else s

  unfoldable pub after_fetch : Text → JobData → Option Result × Store → Prepared × Store
  after_fetch domain d (none, s) = (failed, incr_failure (failure_redis_key domain) s)
  after_fetch domain d (some r, s) = (ready r, cache_result (key_of d) d r s)

  unfoldable pub from_cache : Text → JobData → Option Result → Store → Prepared × Store
  from_cache domain d (some r) s = (ready r, s)
  from_cache domain d none s =
      after_fetch domain d (fetch d.url (text_of d.locale) (text_of d.timezone) s)

  unfoldable pub with_domain : JobData → Option Text → Store → Prepared × Store
  with_domain d none s = (failed, s)
  with_domain d (some domain) s =
      if is_domain_blocked domain s
      then (dropped, s)
      else from_cache domain d (get_cached_result (key_of d) s) s

  -- The domain, the cache and the fetch.
  unfoldable pub prepare : JobData → Store → Prepared × Store
  prepare d s = with_domain d (parse_hostname d.url) s

  unfoldable pub date_or : ℕ → Option ℕ → ℕ
  date_or now none = now
  date_or now (some t) = t

  unfoldable pub saved_date : JobData → Store → ℕ
  saved_date d s =
      if is_given d.saved_at
      then date_or (clock s) (parse_rfc3339 (text_of d.saved_at))
      else clock s

  -- The path of UploadOriginalContent for a user.
  unfoldable pub upload_path : ℕ → UserConfig → Text
  upload_path saved u =
      codes "content/"
      ++ (u.id
          ++ (codes "/"
              ++ (u.library_item_id
                  ++ (codes "." ++ (format_nat (saved / 1000000) ++ codes ".original")))))

  unfoldable pub upload_each : ℕ → Text → List UserConfig → Store → Store
  upload_each saved content [] s = s
  upload_each saved content (u ∷ us) s =
      upload_each saved content us (upload (upload_path saved u) content s)

  unfoldable pub upload_original : ℕ → Result → List UserConfig → Store → Store
  upload_original saved r us s =
      if not (text_eq r.content []) && not skip_upload then upload_each saved r.content us s else s

  unfoldable pub save_page_data : JobData → Result → ℕ → UserConfig → SavePageJobData
  save_page_data d r saved u = record {
    user_id = u.id;
    url = d.url;
    final_url = r.final_url;
    article_saving_request_id = u.library_item_id;
    state = d.state;
    source = source_of d.source;
    folder = u.folder;
    rss_feed_url = d.rss_feed_url;
    saved_at = some (format_rfc3339 saved);
    published_at = d.published_at;
    task_id = d.task_id;
    title = r.title;
    content_type = r.content_type;
    cache_key = key_of d;
  }

  unfoldable pub save_page_job : JobData → Result → ℕ → UserConfig → AddJobOpts
  save_page_job d r saved u = record {
    name = codes "save-page";
    payload = marshal_job (save_page_data d r saved u);
    opts = record {
      attempts = get_attempts (is_given d.rss_feed_url) (is_given d.task_id);
      priority = get_bullmq_priority (is_given d.rss_feed_url) (is_given d.task_id) d.priority;
      backoff = record { type = codes "exponential"; delay = 2000 };
    };
    job_id = [];
  }

  -- The deferred status of an import; every attempt is the last one of its single attempt.
  unfoldable pub report_failure : JobData → List UserConfig → Store → Store
  report_failure d [] s = s
  report_failure d (u ∷ us) s =
      if is_given d.task_id then send_import_status u.id (text_of d.task_id) s else s

  unfoldable pub queued : JobData → Bool × Store → Bool × Store
  queued d (true, s) = (true, s)
  queued d (false, s) = (false, report_failure d (users_of_job d) s)

  unfoldable pub queue_jobs : JobData → Prepared × Store → Bool × Store
  queue_jobs d (failed, s) = (false, report_failure d (users_of_job d) s)
  queue_jobs d (dropped, s) = (true, s)
  queue_jobs d (ready r, s) = queued d (
      add_bulk redis json (codes "omnivore-backend-queue")
        (map (save_page_job d r (saved_date d s)) (users_of_job d))
        (upload_original (saved_date d s) r (users_of_job d) s))

  -- ProcessFetchContentJob; `false` is an error.
  unfoldable pub process_fetch_content_job : JobData → Store → Bool × Store
  process_fetch_content_job d s = queue_jobs d (prepare d s)
