-- ===== src/Bullmq/Queue/Gains.antt =====
-- What the commands of a new job do to the keys of its queue.
use mathlib.Core.List.{reverse, reverse-cons, append_assoc}
use omnivore_go.Prelude.{
  ℕ, ◌<◌, Text, codes, text_eq, true, false, [], ◌∷◌, ◌++◌, some, ◌≡◌, refl, sym, text_eq_refl,
  arith, ltb, ◌⊎◌, inl, inr, Bool-cases,
}
use omnivore_go.Prelude.Int.{pos, format_nat}
use omnivore_go.Bullmq.Keys.{delayed_key, wait_key, active_key, prioritized_key, job_key}
use omnivore_go.Bullmq.Redis.{
  Redis, View, Hash, hash_get, hash_set_all, hash_get-hash_set, fields_of, apply, apply_all, hset,
  zset_insert, zset_remove,
}
use omnivore_go.Bullmq.Queue.{AddJobOpts, Json, job_fields, enqueue_command, job_commands, score}
use omnivore_go.Bullmq.Queue.Effects.{pending, ids, apart}

-- The fields of a stored job that a worker reads.
pub record IsStored (json : Json) (payload : Text) (j : AddJobOpts) (h : Hash) : Type 0 where
  pub name : hash_get (codes "name") h ≡ some j.name
  pub payload_field : hash_get (codes "data") h ≡ some payload
  pub opts : hash_get (codes "opts") h ≡ some (json.marshal_opts j.opts)
  pub attempts : hash_get (codes "attemptsMade") h ≡ some (format_nat 0)

module _ (redis : Redis) (json : Json) (q : Text) where
  job_fields-IsStored :
      (j : AddJobOpts) (payload : Text) (t : ℕ) (h : Hash)
      → IsStored json payload j (hash_set_all (job_fields redis json q j payload t) h)
  unfolding job_fields hash_set_all text_eq
  job_fields-IsStored j payload t h = record {
    name = simp hash_get-hash_set;
    payload_field = simp hash_get-hash_set;
    opts = simp hash_get-hash_set;
    attempts = simp hash_get-hash_set;
  }

  hashes-enqueue :
      (j : AddJobOpts) (id : Text) (t : ℕ) (v : View)
      → (apply (enqueue_command redis json q j id t) v).hashes ≡ v.hashes
  unfolding enqueue_command apply
  hashes-enqueue j id t v = elim (Bool-cases (ltb 0 j.opts.priority)) [
    | inl e ↦ rw e
    | inr e ↦ rw e
  ]

  -- What a fresh job does to the keys of its queue.
  pub record Gains (id payload : Text) (t : ℕ) (j : AddJobOpts) (v v' : View) : Type 0 where
    pub stored : IsStored json payload j (fields_of (v'.hashes (job_key q id)))
    pub waits :
        ((j.opts.priority ≡ 0) × (pending q v' ≡ pending q v ++ id ∷ []))
        ⊎ ((0 < j.opts.priority)
            × (v'.zsets (prioritized_key q)
                ≡ zset_insert
                    (pos (score j.opts.priority t))
                    id
                    (zset_remove id (v.zsets (prioritized_key q)))))
    pub active_stays : v'.lists (active_key q) ≡ v.lists (active_key q)
    pub delayed_stays : v'.zsets (delayed_key q) ≡ v.zsets (delayed_key q)

  -- The view behind the first command of the pipeline.
  with_hash : AddJobOpts → Text → Text → ℕ → View → View
  with_hash j payload id t v = apply (hset (job_key q id) (job_fields redis json q j payload t)) v

  job_commands-apply :
      (j : AddJobOpts) (payload id : Text) (t : ℕ) (v : View)
      → apply_all (job_commands redis json q j payload id t) v
        ≡ apply (enqueue_command redis json q j id t) (with_hash j payload id t v)
  unfolding job_commands apply_all apply with_hash
  job_commands-apply j payload id t v = refl

  with_hash-IsStored :
      (j : AddJobOpts) (payload id : Text) (t : ℕ) (v : View)
      → IsStored json payload j (fields_of ((with_hash j payload id t v).hashes (job_key q id)))
  unfolding with_hash apply
  with_hash-IsStored j payload id t v =
      rw (text_eq_refl (job_key q id))
        (job_fields-IsStored j payload t (fields_of (v.hashes (job_key q id))))

  enqueue-waits :
      (j : AddJobOpts) (payload id : Text) (t : ℕ) (v : View)
      → ltb 0 j.opts.priority ≡ false
      → pending q (apply (enqueue_command redis json q j id t) (with_hash j payload id t v))
        ≡ pending q v ++ id ∷ []
  unfolding with_hash apply enqueue_command
  enqueue-waits j payload id t v e = rw e (
      rw (text_eq_refl (wait_key q), reverse-cons id (v.lists (wait_key q)))
        (sym (
          append_assoc (ids (v.zsets (prioritized_key q))) (reverse (v.lists (wait_key q)))
            (id ∷ []))))

  enqueue-prioritized :
      (j : AddJobOpts) (payload id : Text) (t : ℕ) (v : View)
      → ltb 0 j.opts.priority ≡ true
      → (apply (enqueue_command redis json q j id t) (with_hash j payload id t v)).zsets
          (prioritized_key q)
        ≡ zset_insert
            (pos (score j.opts.priority t))
            id
            (zset_remove id (v.zsets (prioritized_key q)))
  unfolding with_hash apply enqueue_command
  enqueue-prioritized j payload id t v e = rw e (rw (text_eq_refl (prioritized_key q)))

  enqueue-active :
      (j : AddJobOpts) (payload id : Text) (t : ℕ) (v : View)
      → (apply (enqueue_command redis json q j id t) (with_hash j payload id t v)).lists
          (active_key q)
        ≡ v.lists (active_key q)
  unfolding with_hash apply enqueue_command
  enqueue-active j payload id t v =
      let different = apart q (codes "wait") (codes "active") (unfold text_eq in refl) in
      elim (Bool-cases (ltb 0 j.opts.priority)) [ inl e ↦ rw e | inr e ↦ rw (e, different) ]

  enqueue-delayed :
      (j : AddJobOpts) (payload id : Text) (t : ℕ) (v : View)
      → (apply (enqueue_command redis json q j id t) (with_hash j payload id t v)).zsets
          (delayed_key q)
        ≡ v.zsets (delayed_key q)
  unfolding with_hash apply enqueue_command
  enqueue-delayed j payload id t v =
      let different = apart q (codes "prioritized") (codes "delayed") (unfold text_eq in refl) in
      elim (Bool-cases (ltb 0 j.opts.priority)) [ inl e ↦ rw (e, different) | inr e ↦ rw e ]

  pub job_commands-Gains :
      (j : AddJobOpts) (payload id : Text) (t : ℕ) (v : View)
      → Gains id payload t j v (apply_all (job_commands redis json q j payload id t) v)
  job_commands-Gains j payload id t v = rw (job_commands-apply j payload id t v) (record {
    stored =
        rw (hashes-enqueue j id t (with_hash j payload id t v))
          (with_hash-IsStored j payload id t v);
    waits = elim (Bool-cases (ltb 0 j.opts.priority)) [
      | inl e ↦ inr (ground arith, enqueue-prioritized j payload id t v e)
      | inr e ↦ inl (ground arith, enqueue-waits j payload id t v e)
    ];
    active_stays = enqueue-active j payload id t v;
    delayed_stays = enqueue-delayed j payload id t v;
  })

  -- A view after some ids were counted is the same queue.
  pub Gains-counted :
      (j : AddJobOpts) (id payload : Text) (t : ℕ) (c : Text → ℕ) (v v' : View)
      → Gains id payload t j (record v { counters = c }) v'
      → Gains id payload t j v v'
  Gains-counted j id payload t c v v' g = record {
    stored = g.stored;
    waits = g.waits;
    active_stays = g.active_stays;
    delayed_stays = g.delayed_stays;
  }
