-- ===== src/Bullmq/Queue/RoundTrip.antt =====
-- A job that is added to a queue with nothing pending is the job that the next pop returns.
use mathlib.Core.Bool.{false≢true}
use omnivore_go.Prelude.{
  ℕ, Text, text_eq, true, false, List, [], ◌∷◌, ◌++◌, Option, none, some, ◌≡◌, ◌≢◌, refl, sym, ap,
  ◌∙◌, arith, inl, inr, Option-cases, Bool-cases,
}
use omnivore_go.Prelude.Int.{format_nat, atoi, all_digits, read_digits, digits}
use omnivore_go.Bullmq.Keys.{job_key}
use omnivore_go.Bullmq.Redis.{Redis, Hash, fields_of, present}
use omnivore_go.Bullmq.Queue.{
  AddJobOpts, JobOpts, RawJob, Json, popped, field_or, opts_of, attempts_of, job_of, get_job,
  pop_reply, pop_job, add_job,
}
use omnivore_go.Bullmq.Queue.Effects.{pending, get_job-id, pop_job-Moves}
use omnivore_go.Bullmq.Queue.Gains.{IsStored, Gains}
use omnivore_go.Bullmq.Queue.Add.{add_job-Added}

module _ (redis : Redis) (json : Json) (q : Text) where
  open redis use {Store, view, hget_all, hget_all_lem, run_move_to_active}

  -- The popped job carries what was added.
  abbrev pub Carries : RawJob → AddJobOpts → Type 0
  Carries r j =
      (r.name ≡ j.name) × (some r.payload ≡ j.payload) × (r.opts ≡ j.opts) × (r.attempts_made ≡ 0)

  no_attempts : attempts_of redis json q (atoi (field_or redis json q (some (format_nat 0)))) ≡ 0
  unfolding attempts_of field_or atoi format_nat digits read_digits all_digits
  no_attempts = refl

  opts_back : (o : JobOpts) → opts_of redis json q (json.marshal_opts o) ≡ o
  unfolding opts_of
  opts_back o = rw (json.marshal_opts_ne o, json.unmarshal_opts-marshal_opts o)

  popped_eq : (a b : RawJob) → popped a ≡ popped b → a ≡ b
  popped_eq a b e = cc

  job_of-Carries :
      (id p : Text) (h : Hash) (j : AddJobOpts) (r : RawJob)
      → j.payload ≡ some p
      → IsStored json p j h
      → job_of redis json q id (some h) ≡ popped r
      → Carries r j
  unfolding job_of field_or
  job_of-Carries id p [] j r e st h = cc
  job_of-Carries id p (f ∷ fs) j r e st h =
      let same = popped_eq _ r (rw (st.name, st.payload_field, st.opts, st.attempts) at h) in
      (
        sym (ap (λ x. x.name) same),
        ap (λ x. some x.payload) (sym same) ∙ sym e,
        ap (λ x. x.opts) (sym same) ∙ opts_back j.opts,
        ap (λ x. x.attempts_made) (sym same) ∙ no_attempts,
      )

  error_ne : (r : RawJob) → job_of redis json q [] none ≢ popped r
  unfolding job_of
  error_ne r e = cc

  get_job-Carries :
      (id p : Text) (s : Store) (j : AddJobOpts) (r : RawJob)
      → j.payload ≡ some p
      → IsStored json p j (fields_of ((view s).hashes (job_key q id)))
      → get_job redis json q id s ≡ popped r
      → Carries r j
  unfolding get_job
  get_job-Carries id p s j r e st h = elim (Option-cases (hget_all (job_key q id) s)) [
    | inl lost ↦ let h' = rw lost at h in absurd (error_ne r h')
    | inr (f, there) ↦
        job_of-Carries id p f j r e (rw (hget_all_lem (job_key q id) s f there) st) (rw there at h)
  ]

  pop_reply-get_job :
      (s : Store) (r : RawJob) (a : Option (Option Text) × Store)
      → pop_reply redis json q a ≡ (popped r, s)
      → get_job redis json q r.id s ≡ popped r
  unfolding pop_reply
  pop_reply-get_job s r (none, t) h = let gone = ap (λ x. x.0) h in absurd (cc)
  pop_reply-get_job s r (some none, t) h = let gone = ap (λ x. x.0) h in absurd (cc)
  pop_reply-get_job s r (some (some id), t) h = elim (Bool-cases (text_eq id [])) [
    | inl e ↦ let h' = rw e at h in let gone = ap (λ x. x.0) h' in absurd (cc)
    | inr e ↦
        let h' = rw e at h in
        let read = ap (λ x. x.0) h' in
        let same : r.id ≡ id = get_job-id redis json q id t r read in
        ap (λ x. get_job redis json q x s) same
        ∙ ap (λ x. get_job redis json q id x) (sym (ap (λ x. x.1) h'))
        ∙ read
  ]

  pop_job-get_job :
      (s s' : Store) (r : RawJob)
      → pop_job redis json q s ≡ (popped r, s')
      → get_job redis json q r.id s' ≡ popped r
  unfolding pop_job
  pop_job-get_job s s' r h = pop_reply-get_job s' r _ h

  fresh-Carries :
      (j : AddJobOpts) (s s1 s2 : Store) (r : RawJob) (id p : Text) (t : ℕ)
      → pending q (view s) ≡ []
      → j.opts.priority ≡ 0
      → j.payload ≡ some p
      → Gains redis json q id p t j (view s) (view s1)
      → pop_job redis json q s1 ≡ (popped r, s2)
      → Carries r j
  fresh-Carries j s s1 s2 r id p t nothing low has g popped_r =
      let moved = pop_job-Moves redis json q s1 s2 r popped_r in
      let last : pending q (view s1) ≡ id ∷ [] = elim g.waits [
        | inl (_, w) ↦ w ∙ ap (λ l. l ++ id ∷ []) nothing
        | inr (high, _) ↦ absurd (omega arith)
      ] in
      let same : r.id ≡ id = head_eq _ _ _ _ (sym moved.pending_next ∙ last) in
      get_job-Carries r.id p s2 j r has (rw (moved.hashes_stay, same) g.stored)
        (pop_job-get_job s1 s2 r popped_r)
    where
      head_eq : (a b : Text) (l m : List Text) → a ∷ l ≡ b ∷ m → a ≡ b
      head_eq a b l m e = cc

  -- Let nothing be pending. When a job without a priority, whose id is not that of a stored job, is
  -- added and the next pop returns a job, then it is that job: with its name, data and options, and
  -- with no attempt made.
  pub pop_job-add_job :
      (j : AddJobOpts) (s s1 s2 : Store) (r : RawJob)
      → pending q (view s) ≡ []
      → j.opts.priority ≡ 0
      → present (view s) (job_key q j.job_id) ≡ false
      → add_job redis json q j s ≡ (true, s1)
      → pop_job redis json q s1 ≡ (popped r, s2)
      → Carries r j
  pop_job-add_job j s s1 s2 r nothing low free added popped_r =
      elim (add_job-Added redis json q j s s1 added) [
        | inl (there, _, _) ↦ absurd (false≢true (sym free ∙ there))
        | inr (id, p, t, has, _, g) ↦ fresh-Carries j s s1 s2 r id p t nothing low has g popped_r
      ]
