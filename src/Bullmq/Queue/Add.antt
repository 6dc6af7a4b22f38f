-- ===== src/Bullmq/Queue/Add.antt =====
-- What adding a job does.
use omnivore_go.Prelude.{
  ℕ, suc, Text, text_eq, text_eq→eq, Bool, true, false, [], Option, none, some, ◌≡◌, ◌≢◌, refl, sym,
  ap, ◌∙◌, ◌⊎◌, inl, inr, Bool-cases,
}
use mathlib.Core.Path.{subst}
use mathlib.Core.Bool.{false≢true}
use omnivore_go.Prelude.Int.{format_nat}
use omnivore_go.Bullmq.Keys.{id_key, job_key}
use omnivore_go.Bullmq.Redis.{Redis, View, put, present}
use omnivore_go.Bullmq.Queue.{
  AddJobOpts, Json, choose_counted, choose_custom, choose_id, job_commands, store_payload,
  store_chosen, add_job,
}
use omnivore_go.Bullmq.Queue.Gains.{Gains, job_commands-Gains, Gains-counted}

module _ (redis : Redis) (json : Json) (q : Text) where
  open redis use {Store, view, now, exists, incr, exec, exec_lem, exists_lem, incr_lem}

  -- Either the job is a duplicate, and nothing changes, or it is stored and enqueued.
  abbrev pub Added : AddJobOpts → View → View → Type 0
  Added j v v' =
      ((present v (job_key q j.job_id) ≡ true) × (j.job_id ≢ []) × (v' ≡ v))
      ⊎ ((id : Text) × (payload : Text) × (t : ℕ) × (j.payload ≡ some payload)
          × (((j.job_id ≡ []) × (id ≡ format_nat (suc (v.counters (id_key q)))))
              ⊎ ((id ≡ j.job_id) × (present v (job_key q id) ≡ false)))
          × Gains redis json q id payload t j v v')

  store_payload-Gains :
      (j : AddJobOpts) (id : Text) (o : Option Text) (s s' : Store)
      → store_payload redis json q j id o s ≡ (true, s')
      → (p : Text) × (o ≡ some p) × Gains redis json q id p (now s) j (view s) (view s')
  unfolding store_payload
  store_payload-Gains j id none s s' h = let no = ap (λ r. r.0) h in absurd (cc)
  store_payload-Gains j id (some p) s s' h = (
    p,
    refl,
    rw (exec_lem (job_commands redis json q j p id (now s)) s s' h)
        (job_commands-Gains redis json q j p id (now s) (view s)),
  )

  add_counted :
      (j : AddJobOpts) (s s' : Store) (r : Option ℕ × Store)
      → incr (id_key q) s ≡ r
      → j.job_id ≡ []
      → store_chosen redis json q j (choose_counted redis json q r) ≡ (true, s')
      → Added j (view s) (view s')
  unfolding store_chosen choose_counted
  add_counted j s s' (none, t) e no_id h = let no = ap (λ r. r.0) h in absurd (cc)
  add_counted j s s' (some n, t) e no_id h =
      let (p, has, gains) = store_payload-Gains j (format_nat n) j.payload t s' h in
      let (next, counted) = incr_lem (id_key q) s t n e in
      let from_s =
        subst (λ v. Gains redis json q (format_nat n) p (now t) j v (view s')) counted gains in
      inr (
        format_nat n,
        p,
        now t,
        has,
        inl (no_id, ap format_nat next),
        Gains-counted redis json q j (format_nat n) p (now t) (put (view s).counters (id_key q) n)
            (view s) (view s') from_s,
      )

  add_custom :
      (j : AddJobOpts) (s s' : Store) (r : Option Bool)
      → exists (job_key q j.job_id) s ≡ r
      → j.job_id ≢ []
      → store_chosen redis json q j (choose_custom redis json q j.job_id r s) ≡ (true, s')
      → Added j (view s) (view s')
  unfolding store_chosen choose_custom
  add_custom j s s' none e has_id h = let no = ap (λ r. r.0) h in absurd (cc)
  add_custom j s s' (some true) e has_id h =
      inl (sym (exists_lem (job_key q j.job_id) s true e), has_id, ap (λ r. view r.1) (sym h))
  add_custom j s s' (some false) e has_id h =
      let (p, has, gains) = store_payload-Gains j j.job_id j.payload s s' h in
      inr (
        j.job_id,
        p,
        now s,
        has,
        inr (refl, sym (exists_lem (job_key q j.job_id) s false e)),
        gains,
      )

  pub add_job-Added :
      (j : AddJobOpts) (s s' : Store)
      → add_job redis json q j s ≡ (true, s')
      → Added j (view s) (view s')
  unfolding add_job choose_id
  add_job-Added j s s' h = elim (Bool-cases (text_eq j.job_id [])) [
    | inl none_given ↦
        add_counted j s s' (incr (id_key q) s) refl (text_eq→eq j.job_id [] none_given)
          (rw none_given at h)
    | inr given ↦
        add_custom j s s' (exists (job_key q j.job_id) s) refl
          (λ e. false≢true (sym given ∙ (rw e (unfold text_eq in refl)))) (rw given at h)
  ]
