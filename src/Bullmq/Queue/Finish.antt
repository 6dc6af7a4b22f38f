-- ===== src/Bullmq/Queue/Finish.antt =====
-- What failing a job does.
use mathlib.Core.Path.{subst}
use omnivore_go.Prelude.{
  ℕ, suc, ◌-◌, Text, codes, text_eq, text_eq_refl, Bool, true, false, [], ◌∷◌, Option, none, some,
  ◌≡◌, refl, sym, ap, ◌∙◌, inl, inr, if◌then◌else◌, Bool-cases, ltb,
}
use omnivore_go.Prelude.Int.{pos, add64, format_nat}
use omnivore_go.Bullmq.Keys.{active_key, failed_key, delayed_key, job_key}
use omnivore_go.Bullmq.Redis.{
  Redis, View, Hash, hash_get, fields_of, lrem_all, zadd, hset, expire, hash_set, hash_set_all,
  hash_get-hash_set, apply, apply_all, put, list_remove,
}
use omnivore_go.Bullmq.Queue.{
  JobOpts, Json, fail_age, fail_commands, fail_counted, fail_job, exponential_delay, retry_at,
}
use omnivore_go.Bullmq.Queue.Effects.{pending}
use omnivore_go.Bullmq.Queue.Ids.{zset_put, put_same, put_apart, pending_apart}

module _ (redis : Redis) (json : Json) (q : Text) where
  open redis use {Store, view, now, exec, exec_lem, hincr, hincr_lem, number_of}

  -- Where a job stands after its attempt number `n` failed at time `t`, if it is to be retried and
  -- if not.
  pub record Fails (retried : Bool) (id : Text) (opts : JobOpts) (n t : ℕ) (v v' : View)
      : Type 0 where
    pub active : v'.lists (active_key q) ≡ list_remove id (v.lists (active_key q))
    pub attempts :
        hash_get (codes "attemptsMade") (fields_of (v'.hashes (job_key q id))) ≡ some (format_nat n)
    pub delayed : v'.zsets (delayed_key q) ≡ (
        if retried
        then zset_put
            (add64 (pos t) (exponential_delay (pos opts.backoff.delay) (n - 1)))
            id
            (v.zsets (delayed_key q))
        else v.zsets (delayed_key q))
    pub failed :
        v'.zsets (failed_key q)
        ≡ (if retried then v.zsets (failed_key q) else zset_put (pos t) id (v.zsets (failed_key q)))
    pub pending_stays : pending q v' ≡ pending q v

  abbrev counted : Text → ℕ → View → View
  counted id n v = record v {
    hashes = put v.hashes (job_key q id) (
        some
          (hash_set (codes "attemptsMade") (format_nat n) (fields_of (v.hashes (job_key q id)))));
  }

  attempts_kept :
      (id : Text) (n : ℕ) (v : View) (fs : Hash)
      → hash_get (codes "attemptsMade") (
          hash_set_all fs
            (hash_set (codes "attemptsMade") (format_nat n) (fields_of (v.hashes (job_key q id)))))
        ≡ some (format_nat n)
      → hash_get
          (codes "attemptsMade")
          (fields_of ((apply (hset (job_key q id) fs) (counted id n v)).hashes (job_key q id)))
        ≡ some (format_nat n)
  unfolding apply
  attempts_kept id n v fs e =
      rw
        (
          put_same v.hashes (job_key q id) (
              some (
                hash_set (codes "attemptsMade") (format_nat n)
                  (fields_of (v.hashes (job_key q id))))),
          text_eq_refl (job_key q id),
        )
        e

  retry-Fails :
      (id reason : Text) (opts : JobOpts) (n t : ℕ) (v : View)
      → Fails true id opts n t v (
          apply_all
            (lrem_all (active_key q) id
              ∷ zadd
                  (delayed_key q)
                  (add64 (pos t) (exponential_delay (pos opts.backoff.delay) (n - 1)))
                  id
              ∷ hset (job_key q id) ((codes "failedReason", reason) ∷ [])
              ∷ [])
            (counted id n v))
  unfolding apply_all apply text_eq hash_set_all
  retry-Fails id reason opts n t v =
      let z =
        zset_put (add64 (pos t) (exponential_delay (pos opts.backoff.delay) (n - 1))) id
          (v.zsets (delayed_key q)) in
      record {
        active = put_same v.lists (active_key q) (list_remove id (v.lists (active_key q)));
        attempts = attempts_kept id n v ((codes "failedReason", reason) ∷ []) (
            hash_get-hash_set (codes "attemptsMade") (codes "failedReason") reason
              (hash_set (codes "attemptsMade") (format_nat n) (fields_of (v.hashes (job_key q id))))
            ∙ hash_get-hash_set (codes "attemptsMade") (codes "attemptsMade") (format_nat n)
                (fields_of (v.hashes (job_key q id))));
        delayed = put_same v.zsets (delayed_key q) z;
        failed = put_apart v.zsets q (codes "delayed") (codes "failed") z refl;
        pending_stays =
            pending_apart q v (codes "delayed") z (list_remove id (v.lists (active_key q))) refl;
      }

  bury-Fails :
      (id reason : Text) (opts : JobOpts) (n t : ℕ) (v : View)
      → Fails false id opts n t v (
          apply_all
            (lrem_all (active_key q) id
              ∷ zadd (failed_key q) (pos t) id
              ∷ hset
                  (job_key q id)
                  ((codes "failedReason", reason) ∷ (codes "finishedOn", format_nat t) ∷ [])
              ∷ expire (job_key q id) fail_age
              ∷ [])
            (counted id n v))
  unfolding apply_all apply text_eq hash_set_all
  bury-Fails id reason opts n t v =
      let z = zset_put (pos t) id (v.zsets (failed_key q)) in
      let h =
        hash_set (codes "attemptsMade") (format_nat n) (fields_of (v.hashes (job_key q id))) in
      record {
        active = put_same v.lists (active_key q) (list_remove id (v.lists (active_key q)));
        attempts =
            attempts_kept id n v
              ((codes "failedReason", reason) ∷ (codes "finishedOn", format_nat t) ∷ [])
              (hash_get-hash_set (codes "attemptsMade") (codes "finishedOn") (format_nat t)
                  (hash_set (codes "failedReason") reason h)
                ∙ hash_get-hash_set (codes "attemptsMade") (codes "failedReason") reason h
                ∙ hash_get-hash_set (codes "attemptsMade") (codes "attemptsMade") (format_nat n)
                    (fields_of (v.hashes (job_key q id))));
        delayed = put_apart v.zsets q (codes "failed") (codes "delayed") z refl;
        failed = put_same v.zsets (failed_key q) z;
        pending_stays =
            pending_apart q v (codes "failed") z (list_remove id (v.lists (active_key q))) refl;
      }

  apply_all-Fails :
      (id reason : Text) (opts : JobOpts) (n t : ℕ) (v : View)
      → Fails
          (ltb n opts.attempts)
          id
          opts
          n
          t
          v
          (apply_all (fail_commands redis json q id reason opts t n) (counted id n v))
  unfolding fail_commands retry_at
  apply_all-Fails id reason opts n t v = elim (Bool-cases (ltb n opts.attempts)) [
    | inl e ↦ rw e (retry-Fails id reason opts n t v)
    | inr e ↦ rw e (bury-Fails id reason opts n t v)
  ]

  -- The number of the attempt that fails: one more than the job's hash holds.
  abbrev pub failing_attempt : Text → View → ℕ
  failing_attempt id v =
      suc (number_of (hash_get (codes "attemptsMade") (fields_of (v.hashes (job_key q id)))))

  counted-Fails :
      (id reason : Text) (opts : JobOpts) (s s' : Store) (r : Option ℕ × Store)
      → hincr (job_key q id) (codes "attemptsMade") s ≡ r
      → fail_counted redis json q id reason opts (now s) r ≡ (true, s')
      → Fails
          (ltb (failing_attempt id (view s)) opts.attempts)
          id
          opts
          (failing_attempt id (view s))
          (now s)
          (view s)
          (view s')
  unfolding fail_counted
  counted-Fails id reason opts s s' (none, s1) e h = let gone = ap (λ r. r.0) h in absurd (cc)
  counted-Fails id reason opts s s' (some n, s1) e h =
      let (count, seen) = hincr_lem (job_key q id) (codes "attemptsMade") s s1 n e in
      let ran = exec_lem (fail_commands redis json q id reason opts (now s) n) s1 s' h in
      let new = apply_all (fail_commands redis json q id reason opts (now s) n) in
      let all = apply_all-Fails id reason opts n (now s) (view s) in
      let moved : view s' ≡ new (counted id n (view s)) = ran ∙ ap new seen in
      subst (λ k. Fails (ltb k opts.attempts) id opts k (now s) (view s) (view s')) count
        (subst (Fails (ltb n opts.attempts) id opts n (now s) (view s)) (sym moved) all)

  -- When FailJob returns no error, the job has one more attempt on record and is active no more.
  -- If that is less than its allowed attempts, it is in the delayed set, due after the backoff for
  -- this attempt; else it is in the failed set. The other of the two sets stays, and so do the
  -- pending jobs.
  pub fail_job-Fails :
      (id reason : Text) (opts : JobOpts) (s s' : Store)
      → fail_job redis json q id reason opts s ≡ (true, s')
      → Fails
          (ltb (failing_attempt id (view s)) opts.attempts)
          id
          opts
          (failing_attempt id (view s))
          (now s)
          (view s)
          (view s')
  unfolding fail_job
  fail_job-Fails id reason opts s s' h =
      counted-Fails id reason opts s s' (hincr (job_key q id) (codes "attemptsMade") s) refl h
