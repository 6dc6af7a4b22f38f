-- ===== src/Bullmq/Queue.antt =====
-- internal/bullmq/bullmq.go: adding, popping, completing and failing jobs.
pub mod Delay
pub mod Effects
pub mod Gains
pub mod Add
pub mod RoundTrip
pub mod Ids
pub mod Complete
pub mod Finish
pub mod Retry
pub mod Sample
pub mod Tests
use omnivore_go.Prelude.{
  ℕ, zero, suc, ◌+◌, ◌-◌, ◌*◌, ◌%◌, ◌^◌, Text, codes, text_eq, Bool, true, false, List, [], ◌∷◌,
  ◌++◌, Option, none, some, ltb, if◌then◌else◌, ◌≡◌,
}
use omnivore_go.Prelude.Int.{ℤ, pos, add64, format_nat, atoi}
use omnivore_go.Bullmq.Keys.{
  key, wait_key, active_key, completed_key, failed_key, delayed_key, id_key, prioritized_key,
  events_key, job_key, meta_key,
}
use omnivore_go.Bullmq.Redis.{
  Redis, Hash, hash_get, Command, hset, lpush, lrem_all, zadd, expire, xadd,
}

pub record BackoffOpt : Type 0 where
  pub type : Text
  pub delay : ℕ

pub record JobOpts : Type 0 where
  pub attempts : ℕ
  pub priority : ℕ
  pub backoff : BackoffOpt

-- Timestamp, which getJob leaves at 0, is left out.
pub record RawJob : Type 0 where
  pub id : Text
  pub name : Text
  pub payload : Text
  pub opts : JobOpts
  pub attempts_made : ℕ

-- `payload` is the result of json.Marshal on Data; `none` is its error.
pub record AddJobOpts : Type 0 where
  pub name : Text
  pub payload : Option Text
  pub opts : JobOpts
  pub job_id : Text

-- Package json at JobOpts: an object is written, and is read back.
pub record Json : Type 0 where
  pub marshal_opts : JobOpts → Text
  pub unmarshal_opts : Text → JobOpts
  pub marshal_event : Text → Text
  pub unmarshal_opts-marshal_opts : (o : JobOpts) → unmarshal_opts (marshal_opts o) ≡ o
  pub marshal_opts_ne : (o : JobOpts) → text_eq (marshal_opts o) [] ≡ false

abbrev pub zero_opts : JobOpts
zero_opts = record { attempts = 0; priority = 0; backoff = record { type = []; delay = 0 } }

pub data Pop : Type 0 where
  popped : RawJob → Pop
  empty : Pop
  error : Pop

-- How a job comes to its id.
pub data Chosen : Type 0 where
  fresh : Text → Chosen
  duplicate : Chosen
  refused : Chosen

unfoldable pub complete_age : ℕ
complete_age = 3600

unfoldable pub fail_age : ℕ
fail_age = 86400

-- A float64 in the source, exact below 2 ^ 53.
unfoldable pub score : ℕ → ℕ → ℕ
score priority now = priority * 10 ^ 12 + now

-- An int is doubled in 64 bits, so a large delay becomes a negative one, and then zero.
unfoldable pub exponential_delay : ℤ → ℕ → ℤ
unfolding add64
exponential_delay d zero = d
exponential_delay d (suc attempt) = exponential_delay (add64 d d) attempt

-- The time of the next attempt, as an int64
unfoldable pub retry_at : JobOpts → ℕ → ℕ → ℤ
unfolding exponential_delay add64
retry_at opts t n = add64 (pos t) (exponential_delay (pos opts.backoff.delay) (n - 1))

module _ (redis : Redis) (json : Json) (q : Text) where
  open redis use {Store, now, exists, incr, exec, run_move_to_active, hget_all, hincr}

  unfoldable pub choose_counted : Option ℕ × Store → Chosen × Store
  choose_counted (none, s) = (refused, s)
  choose_counted (some n, s) = (fresh (format_nat n), s)

  unfoldable pub choose_custom : Text → Option Bool → Store → Chosen × Store
  choose_custom id none s = (refused, s)
  choose_custom id (some true) s = (duplicate, s)
  choose_custom id (some false) s = (fresh id, s)

  unfoldable pub choose_id : AddJobOpts → Store → Chosen × Store
  choose_id j s =
      if text_eq j.job_id []
      then choose_counted (incr (id_key q) s)
      else choose_custom j.job_id (exists (job_key q j.job_id) s) s

  -- The fields of a new job's hash.
  unfoldable pub job_fields : AddJobOpts → Text → ℕ → Hash
  job_fields j payload t =
      (codes "name", j.name)
      ∷ (codes "data", payload)
      ∷ (codes "opts", json.marshal_opts j.opts)
      ∷ (codes "timestamp", format_nat t)
      ∷ (codes "attemptsMade", format_nat 0)
      ∷ (codes "attemptsStarted", format_nat 0)
      ∷ (codes "stalledCounter", format_nat 0)
      ∷ []

  -- A job with a priority goes to the sorted set, any other to the left of the wait list.
  unfoldable pub enqueue_command : AddJobOpts → Text → ℕ → Command
  enqueue_command j id t =
      if ltb 0 j.opts.priority
      then zadd (prioritized_key q) (pos (score j.opts.priority t)) id
      else lpush (wait_key q) id

  -- The pipeline that stores one job.
  unfoldable pub job_commands : AddJobOpts → Text → Text → ℕ → List Command
  job_commands j payload id t =
      hset (job_key q id) (job_fields j payload t)
      ∷ enqueue_command j id t
      ∷ xadd (events_key q)
          ((codes "event", codes "waiting") ∷ (codes "data", json.marshal_event id) ∷ [])
      ∷ []

  unfoldable pub store_payload : AddJobOpts → Text → Option Text → Store → Bool × Store
  store_payload j id none s = (false, s)
  store_payload j id (some payload) s = exec (job_commands j payload id (now s)) s

  unfoldable pub store_chosen : AddJobOpts → Chosen × Store → Bool × Store
  store_chosen j (refused, s) = (false, s)
  store_chosen j (duplicate, s) = (true, s)
  store_chosen j (fresh id, s) = store_payload j id j.payload s

  -- One round of AddBulk; `false` is an error.
  unfoldable pub add_job : AddJobOpts → Store → Bool × Store
  add_job j s = store_chosen j (choose_id j s)

  unfoldable pub add_bulk : List AddJobOpts → Store → Bool × Store
  add_bulk [] s = (true, s)
  add_bulk (j ∷ js) s =
      let (done, s') = add_job j s in
      let rest = add_bulk js s' in if done then rest else (false, s')

  unfoldable pub field_or : Option Text → Text
  field_or none = []
  field_or (some v) = v

  unfoldable pub opts_of : Text → JobOpts
  opts_of o = if text_eq o [] then zero_opts else json.unmarshal_opts o

  unfoldable pub attempts_of : Option ℕ → ℕ
  attempts_of none = 0
  attempts_of (some n) = n

  unfoldable pub job_of : Text → Option Hash → Pop
  unfolding field_or opts_of attempts_of
  job_of id none = error
  job_of id (some []) = error
  job_of id (some (f ∷ fs)) =
      let h = f ∷ fs in
      popped (record {
        id = id;
        name = field_or (hash_get (codes "name") h);
        payload = field_or (hash_get (codes "data") h);
        opts = opts_of (field_or (hash_get (codes "opts") h));
        attempts_made = attempts_of (atoi (field_or (hash_get (codes "attemptsMade") h)));
      })

  unfoldable pub get_job : Text → Store → Pop
  unfolding job_of
  get_job id s = job_of id (hget_all (job_key q id) s)

  unfoldable pub pop_reply : Option (Option Text) × Store → Pop × Store
  pop_reply (none, s) = (error, s)
  pop_reply (some none, s) = (empty, s)
  pop_reply (some (some id), s) = if text_eq id [] then (empty, s) else (get_job id s, s)

  unfoldable pub pop_job : Store → Pop × Store
  pop_job s = pop_reply (run_move_to_active (wait_key q) (prioritized_key q) (active_key q) s)

  unfoldable pub complete_job : Text → Store → Bool × Store
  complete_job id s =
      exec
        (lrem_all (active_key q) id
          ∷ zadd (completed_key q) (pos (now s)) id
          ∷ hset (job_key q id) ((codes "finishedOn", format_nat (now s)) ∷ [])
          ∷ expire (job_key q id) complete_age
          ∷ [])
        s

  -- The pipeline of FailJob; `t` is the time, and `n` the attempts made, this one included.
  unfoldable pub fail_commands : Text → Text → JobOpts → ℕ → ℕ → List Command
  fail_commands id reason opts t n =
      if ltb n opts.attempts
      then lrem_all (active_key q) id
        ∷ zadd (delayed_key q) (retry_at opts t n) id
        ∷ hset (job_key q id) ((codes "failedReason", reason) ∷ [])
        ∷ []
      else lrem_all (active_key q) id
        ∷ zadd (failed_key q) (pos t) id
        ∷ hset (job_key q id)
            ((codes "failedReason", reason) ∷ (codes "finishedOn", format_nat t) ∷ [])
        ∷ expire (job_key q id) fail_age
        ∷ []

  unfoldable pub fail_counted : Text → Text → JobOpts → ℕ → Option ℕ × Store → Bool × Store
  fail_counted id reason opts t (none, s) = (false, s)
  fail_counted id reason opts t (some n, s) = exec (fail_commands id reason opts t n) s

  unfoldable pub fail_job : Text → Text → JobOpts → Store → Bool × Store
  fail_job id reason opts s =
      fail_counted id reason opts (now s) (hincr (job_key q id) (codes "attemptsMade") s)
