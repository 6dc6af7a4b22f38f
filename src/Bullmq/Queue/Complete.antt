-- ===== src/Bullmq/Queue/Complete.antt =====
-- What completing a job does.
use mathlib.Core.Path.{subst}
use omnivore_go.Prelude.{ℕ, Text, codes, text_eq, true, List, [], ◌∷◌, ◌≡◌, refl, sym}
use omnivore_go.Prelude.Int.{pos, format_nat}
use omnivore_go.Bullmq.Keys.{active_key, completed_key, delayed_key, job_key}
use omnivore_go.Bullmq.Redis.{
  Redis, View, Command, lrem_all, zadd, hset, expire, apply, apply_all, list_remove,
}
use omnivore_go.Bullmq.Queue.{Json, complete_job, complete_age}
use omnivore_go.Bullmq.Queue.Effects.{pending}
use omnivore_go.Bullmq.Queue.Ids.{zset_put, put_same, put_apart, pending_apart}

module _ (redis : Redis) (json : Json) (q : Text) where
  open redis use {Store, view, now, exec, exec_lem, hincr, hincr_lem, number_of}

  -- Where a job stands after it was completed at time `t`.
  pub record Completes (id : Text) (t : ℕ) (v v' : View) : Type 0 where
    pub active : v'.lists (active_key q) ≡ list_remove id (v.lists (active_key q))
    pub completed : v'.zsets (completed_key q) ≡ zset_put (pos t) id (v.zsets (completed_key q))
    pub delayed : v'.zsets (delayed_key q) ≡ v.zsets (delayed_key q)
    pub pending_stays : pending q v' ≡ pending q v

  abbrev completing : Text → ℕ → List Command
  completing id t =
      lrem_all (active_key q) id
      ∷ zadd (completed_key q) (pos t) id
      ∷ hset (job_key q id) ((codes "finishedOn", format_nat t) ∷ [])
      ∷ expire (job_key q id) complete_age
      ∷ []

  apply_all-Completes :
      (id : Text) (t : ℕ) (v : View) → Completes id t v (apply_all (completing id t) v)
  unfolding apply_all apply text_eq
  apply_all-Completes id t v = record {
    active = put_same v.lists (active_key q) (list_remove id (v.lists (active_key q)));
    completed =
        put_same v.zsets (completed_key q) (zset_put (pos t) id (v.zsets (completed_key q)));
    delayed =
        put_apart v.zsets q (codes "completed") (codes "delayed")
          (zset_put (pos t) id (v.zsets (completed_key q))) refl;
    pending_stays =
        pending_apart q v (codes "completed") (zset_put (pos t) id (v.zsets (completed_key q)))
          (list_remove id (v.lists (active_key q))) refl;
  }

  -- A job that is completed without an error is active no more, whatever the id; it is in the
  -- completed set, with the time as its score; the delayed and the pending jobs stay.
  pub complete_job-Completes :
      (id : Text) (s s' : Store)
      → complete_job redis json q id s ≡ (true, s')
      → Completes id (now s) (view s) (view s')
  unfolding complete_job
  complete_job-Completes id s s' h =
      subst (Completes id (now s) (view s)) (sym (exec_lem (completing id (now s)) s s' h))
        (apply_all-Completes id (now s) (view s))
