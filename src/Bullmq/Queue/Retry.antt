-- ===== src/Bullmq/Queue/Retry.antt =====
-- What becomes of a job that FailJob puts off: the requests of the queue, one after the other.
use omnivore_go.Prelude.{
  ℕ, Text, text_eq, false, ◌⊎◌, text_eq_refl, Bool, true, ◌<◌, ltb, ◌≡◌, ap, ◌∙◌, arith, inl, inr,
}
use omnivore_go.Prelude.Int.{ℤ}
use omnivore_go.Bullmq.Keys.{delayed_key}
use omnivore_go.Bullmq.Redis.{Redis, View}
use omnivore_go.Bullmq.Queue.{
  AddJobOpts, JobOpts, RawJob, Json, popped, add_job, pop_job, complete_job, fail_job,
}
use omnivore_go.Bullmq.Queue.Effects.{ids, pop_job-Moves}
use omnivore_go.Bullmq.Queue.Add.{Added, add_job-Added}
use omnivore_go.Bullmq.Queue.Ids.{has_id, has_id-zset_put, zset_put}
use omnivore_go.Bullmq.Queue.Complete.{complete_job-Completes}
use omnivore_go.Bullmq.Queue.Finish.{Fails, fail_job-Fails, failing_attempt}

module _ (redis : Redis) (json : Json) (q : Text) where
  open redis use {Store, view, now}

  -- The requests that Redis answers without an error, one after the other.
  pub data Requests : Store → Store → Type 0 where
    done : {s : Store} → Requests s s
    add :
        {s s' s2 : Store} (j : AddJobOpts)
        → add_job redis json q j s ≡ (true, s')
        → Requests s' s2
        → Requests s s2
    pop :
        {s s' s2 : Store} (j : RawJob)
        → pop_job redis json q s ≡ (popped j, s')
        → Requests s' s2
        → Requests s s2
    complete :
        {s s' s2 : Store} (id : Text)
        → complete_job redis json q id s ≡ (true, s')
        → Requests s' s2
        → Requests s s2
    fail :
        {s s' s2 : Store} (id reason : Text) (opts : JobOpts)
        → fail_job redis json q id reason opts s ≡ (true, s')
        → Requests s' s2
        → Requests s s2

  abbrev pub is_delayed : Text → View → Bool
  is_delayed id v = has_id id (ids (v.zsets (delayed_key q)))

  Added-is_delayed :
      (id : Text) (j : AddJobOpts) (v v' : View)
      → Added redis json q j v v'
      → is_delayed id v' ≡ is_delayed id v
  Added-is_delayed id j v v' (inl (there, given, same)) = ap (is_delayed id) same
  Added-is_delayed id j v v' (inr (i, p, t, has, which, g)) =
      ap (λ z. has_id id (ids z)) g.delayed_stays

  put-is_delayed :
      (id i : Text) (n : ℤ) (v : View)
      → (text_eq i id ≡ true) ⊎ (is_delayed id v ≡ true)
      → has_id id (ids (zset_put n i (v.zsets (delayed_key q)))) ≡ true
  put-is_delayed id i n v h =
      rw (has_id-zset_put id i n (v.zsets (delayed_key q))) (ground (arith, h))

  Fails-is_delayed :
      (id i : Text) (retried : Bool) (opts : JobOpts) (n t : ℕ) (v v' : View)
      → Fails redis json q retried i opts n t v v'
      → is_delayed id v ≡ true
      → is_delayed id v' ≡ true
  Fails-is_delayed id i true opts n t v v' f h =
      ap (λ z. has_id id (ids z)) f.delayed ∙ put-is_delayed id i _ v (inr h)
  Fails-is_delayed id i false opts n t v v' f h = ap (λ z. has_id id (ids z)) f.delayed ∙ h

  retried-is_delayed :
      (id : Text) (retried : Bool) (opts : JobOpts) (n t : ℕ) (v v' : View)
      → retried ≡ true
      → Fails redis json q retried id opts n t v v'
      → is_delayed id v' ≡ true
  retried-is_delayed id true opts n t v v' e f =
      ap (λ z. has_id id (ids z)) f.delayed ∙ put-is_delayed id id _ v (inl (text_eq_refl id))
  retried-is_delayed id false opts n t v v' e f = absurd (cc)

  Requests-is_delayed :
      (id : Text) {s s' : Store}
      → Requests s s'
      → is_delayed id (view s) ≡ true
      → is_delayed id (view s') ≡ true
  Requests-is_delayed id done h = h
  Requests-is_delayed id (add {s} {s'} j e rest) h =
      Requests-is_delayed id rest
        (Added-is_delayed id j (view s) (view s') (add_job-Added redis json q j s s' e) ∙ h)
  Requests-is_delayed id (pop {s} {s'} j e rest) h =
      Requests-is_delayed id rest
        (ap (λ z. has_id id (ids z)) (pop_job-Moves redis json q s s' j e).delayed_stays ∙ h)
  Requests-is_delayed id (complete {s} {s'} i e rest) h =
      Requests-is_delayed id rest
        (ap (λ z. has_id id (ids z)) (complete_job-Completes redis json q i s s' e).delayed ∙ h)
  Requests-is_delayed id (fail {s} {s'} i reason opts e rest) h = Requests-is_delayed id rest (
      Fails-is_delayed id i _ opts _ _ (view s) (view s')
        (fail_job-Fails redis json q i reason opts s s' e) h)

  -- A job that FailJob puts off for another attempt stays among the delayed jobs, whatever jobs
  -- are added, popped, completed and failed from then on.
  pub fail_job-is_delayed :
      (id reason : Text) (opts : JobOpts) (s s1 s2 : Store)
      → failing_attempt redis json q id (view s) < opts.attempts
      → fail_job redis json q id reason opts s ≡ (true, s1)
      → Requests s1 s2
      → is_delayed id (view s2) ≡ true
  fail_job-is_delayed id reason opts s s1 s2 left e rest = Requests-is_delayed id rest (
      retried-is_delayed id (ltb (failing_attempt redis json q id (view s)) opts.attempts) opts _ _
        (view s) (view s1) (ground (arith, left))
        (fail_job-Fails redis json q id reason opts s s1 e))
