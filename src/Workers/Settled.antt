-- ===== src/Workers/Settled.antt =====
-- A job that a worker took is settled.
use mathlib.Core.Path.{subst}
use omnivore_go.Prelude.{
  ℕ, Text, text_eq_refl, Bool, true, false, ◌||◌, Option, none, some, ◌≡◌, ap, ◌∙◌, arith,
}
use omnivore_go.Prelude.Int.{ℤ, pos}
use omnivore_go.Bullmq.Keys.{active_key, completed_key, delayed_key, failed_key}
use omnivore_go.Bullmq.Redis.{Redis, View, ZSet}
use omnivore_go.Bullmq.Queue.{Pop, popped, empty, error, pop_job, Json, RawJob, JobOpts}
use omnivore_go.Bullmq.Queue.Effects.{ids}
use omnivore_go.Bullmq.Queue.Ids.{has_id, has_id-list_remove, has_id-zset_put, zset_put}
use omnivore_go.Bullmq.Queue.Complete.{Completes, complete_job-Completes}
use omnivore_go.Bullmq.Queue.Finish.{Fails, fail_job-Fails}
use omnivore_go.Workers.Process.{
  Handler, settle, run_handler, handler_of, process_job, round, round_of, run_fetch,
  process_fetch_job,
}

module _ (redis : Redis) (json : Json) (q : Text) where
  open redis use {Store, view, now}

  -- A job that is active no more, and is completed, put off or failed.
  pub record IsSettled (id : Text) (v : View) : Type 0 where
    pub not_active : has_id id (v.lists (active_key q)) ≡ false
    pub ended :
        (has_id id (ids (v.zsets (completed_key q)))
          || has_id id (ids (v.zsets (delayed_key q)))
          || has_id id (ids (v.zsets (failed_key q))))
        ≡ true

  put-has_id : (id : Text) (n : ℤ) (z : ZSet) → has_id id (ids (zset_put n id z)) ≡ true
  put-has_id id n z = rw (has_id-zset_put id id n z, text_eq_refl id)

  any_first : (a b c : Bool) → a ≡ true → (a || b || c) ≡ true
  any_first a b c e = ground arith

  any_second : (a b c : Bool) → b ≡ true → (a || b || c) ≡ true
  any_second a b c e = ground arith

  any_third : (a b c : Bool) → c ≡ true → (a || b || c) ≡ true
  any_third a b c e = ground arith

  Completes-IsSettled :
      (id : Text) (t : ℕ) (v v' : View) → Completes redis json q id t v v' → IsSettled id v'
  Completes-IsSettled id t v v' c = record {
    not_active = ap (has_id id) c.active ∙ has_id-list_remove id (v.lists (active_key q));
    ended =
        any_first _ (has_id id (ids (v'.zsets (delayed_key q))))
          (has_id id (ids (v'.zsets (failed_key q))))
          (ap (λ z. has_id id (ids z)) c.completed
            ∙ put-has_id id (pos t) (v.zsets (completed_key q)));
  }

  Fails-IsSettled :
      (retried : Bool) (id : Text) (opts : JobOpts) (n t : ℕ) (v v' : View)
      → Fails redis json q retried id opts n t v v'
      → IsSettled id v'
  Fails-IsSettled true id opts n t v v' f = record {
    not_active = ap (has_id id) f.active ∙ has_id-list_remove id (v.lists (active_key q));
    ended =
        any_second (has_id id (ids (v'.zsets (completed_key q)))) _
          (has_id id (ids (v'.zsets (failed_key q))))
          (ap (λ z. has_id id (ids z)) f.delayed ∙ put-has_id id _ (v.zsets (delayed_key q)));
  }
  Fails-IsSettled false id opts n t v v' f = record {
    not_active = ap (has_id id) f.active ∙ has_id-list_remove id (v.lists (active_key q));
    ended =
        any_third (has_id id (ids (v'.zsets (completed_key q))))
          (has_id id (ids (v'.zsets (delayed_key q)))) _
          (ap (λ z. has_id id (ids z)) f.failed ∙ put-has_id id (pos t) (v.zsets (failed_key q)));
  }

  settle-IsSettled :
      (job : RawJob) (r : Option Text × Store) (s' : Store)
      → settle redis json q job r ≡ (true, s')
      → IsSettled job.id (view s')
  unfolding settle
  settle-IsSettled job (none, s) s' h =
      Completes-IsSettled job.id (now s) (view s) (view s')
        (complete_job-Completes redis json q job.id s s' h)
  settle-IsSettled job (some reason, s) s' h =
      Fails-IsSettled _ job.id job.opts _ (now s) (view s) (view s')
        (fail_job-Fails redis json q job.id reason job.opts s s' h)

  -- A job that the backend worker processed, whatever its name and whatever its handler did to the
  -- store and returned, is active no more, and is among the completed, the delayed or the failed
  -- jobs, if the queue took its end without an error.
  pub process_job-IsSettled :
      (handle : Handler → Text → Store → Option Text × Store) (job : RawJob) (s s' : Store)
      → process_job redis json q handle job s ≡ (true, s')
      → IsSettled job.id (view s')
  unfolding process_job
  process_job-IsSettled handle job s s' h =
      settle-IsSettled job (run_handler redis json q handle (handler_of job.name) job s) s' h

  -- The same of the content worker, whose job fails if its data does not parse.
  pub process_fetch_job-IsSettled :
      {D : Type 0} (unmarshal : Text → Option D) (fetch : D → Store → Option Text × Store)
      (job : RawJob) (s s' : Store)
      → process_fetch_job redis json q unmarshal fetch job s ≡ (true, s')
      → IsSettled job.id (view s')
  unfolding process_fetch_job
  process_fetch_job-IsSettled unmarshal fetch job s s' h =
      settle-IsSettled job (run_fetch redis json q fetch (unmarshal job.payload) s) s' h

  took :
      (j k : RawJob) (b : Bool)
      → ◌≡◌ {A = Option (RawJob × Bool)} (some (j, b)) (some (k, true))
      → (j ≡ k) × (b ≡ true)
  took j k b e = (cc, cc)

  round_of-IsSettled :
      (process : RawJob → Store → Bool × Store) (r : Pop × Store) (job : RawJob) (s' : Store)
      → ((j : RawJob) (s t : Store) → process j s ≡ (true, t) → IsSettled j.id (view t))
      → round_of redis json q process r ≡ (some (job, true), s')
      → IsSettled job.id (view s')
  unfolding round_of
  round_of-IsSettled process (popped j, s) job s' settles h =
      let (same, fine) = took j job ((process j s).0) (ap (λ r. r.0) h) in
      let there = ap (λ r. r.1) h in
      let whole : process j s ≡ (true, s') = λ i. (fine i, there i) in
      subst (λ k. IsSettled k.id (view s')) same (settles j s s' whole)
  round_of-IsSettled process (empty, s) job s' settles h = let bad = ap (λ r. r.0) h in absurd (cc)
  round_of-IsSettled process (error, s) job s' settles h = let bad = ap (λ r. r.0) h in absurd (cc)

  -- A round of the backend worker that popped a job, and whose queue took the job's end without an
  -- error, leaves that job settled.
  pub round-IsSettled :
      (handle : Handler → Text → Store → Option Text × Store) (job : RawJob) (s s' : Store)
      → round redis json q (process_job redis json q handle) s ≡ (some (job, true), s')
      → IsSettled job.id (view s')
  unfolding round
  round-IsSettled handle job s s' h =
      round_of-IsSettled (process_job redis json q handle) (pop_job redis json q s) job s'
        (λ j t u e. process_job-IsSettled handle j t u e) h
