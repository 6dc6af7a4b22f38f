-- ===== src/Bullmq/Queue/Effects.antt =====
-- What the requests of the queue do to the keys of a queue, when Redis answers.
use mathlib.Core.List.{reverse, reverse-append}
use omnivore_go.Prelude.{
  Text, codes, text_eq, false, List, [], ◌∷◌, ◌++◌, Option, none, some, ◌≡◌, refl, sym, ap, ◌∙◌,
  text_eq_refl, arith, inl, inr, Option-cases, Bool-cases,
}
use mathlib.Core.Path.{subst}
use omnivore_go.Prelude.Int.{ℤ}
use omnivore_go.Bullmq.Keys.{key, wait_key, active_key, delayed_key, prioritized_key, text_eq-key}
use omnivore_go.Bullmq.Redis.{
  Redis, View, Hash, ZSet, move_to_active, pop_prioritized, pop_wait, unsnoc, put,
}
use omnivore_go.Bullmq.Queue.{RawJob, Json, popped, get_job, pop_job, pop_reply, job_of}

-- The ids of a sorted set, lowest score first.
abbrev pub ids : ZSet → List Text
ids [] = []
ids ((n, id) ∷ z) = id ∷ ids z

-- The ids that wait to be popped, the next one first.
abbrev pub pending : Text → View → List Text
pending q v = ids (v.zsets (prioritized_key q)) ++ reverse (v.lists (wait_key q))

unsnoc-none : (l : List Text) → unsnoc l ≡ none → l ≡ []
unfolding unsnoc
unsnoc-none [] e = refl
unsnoc-none (t ∷ l) e = ground arith

unsnoc-some : (l r : List Text) (u : Text) → unsnoc l ≡ some (r, u) → l ≡ r ++ u ∷ []
unfolding unsnoc
unsnoc-some [] r u e = cc
unsnoc-some (t ∷ l) r u e = elim (Option-cases (unsnoc l)) [
  | inl h ↦ ground (arith, unsnoc-none l h)
  | inr ((s, w), h) ↦ ground (arith, unsnoc-some l s w h)
]

reverse-unsnoc : (l r : List Text) (u : Text) → unsnoc l ≡ some (r, u) → reverse l ≡ u ∷ reverse r
reverse-unsnoc l r u e = ap reverse (unsnoc-some l r u e) ∙ reverse-append r (u ∷ [])

module _ (q : Text) where
  pub apart : (s t : Text) → text_eq s t ≡ false → text_eq (key q s) (key q t) ≡ false
  apart s t e = text_eq-key q s t ∙ e

  active-wait : text_eq (active_key q) (wait_key q) ≡ false
  active-wait = apart (codes "active") (codes "wait") (unfold text_eq in refl)

  wait-active : text_eq (wait_key q) (active_key q) ≡ false
  wait-active = apart (codes "wait") (codes "active") (unfold text_eq in refl)

  prioritized-delayed : text_eq (prioritized_key q) (delayed_key q) ≡ false
  prioritized-delayed = apart (codes "prioritized") (codes "delayed") (unfold text_eq in refl)

  -- What a pop does to a queue: the next id moves from the pending ones to the active ones.
  pub record Moves (id : Text) (v v' : View) : Type 0 where
    pub pending_next : pending q v ≡ id ∷ pending q v'
    pub active_gains : v'.lists (active_key q) ≡ id ∷ v.lists (active_key q)
    pub delayed_stays : v'.zsets (delayed_key q) ≡ v.zsets (delayed_key q)
    pub hashes_stay : v'.hashes ≡ v.hashes

  prioritized-Moves :
      (v : View) (n : ℤ) (id : Text) (z : ZSet)
      → v.zsets (prioritized_key q) ≡ (n, id) ∷ z
      → Moves id v (record v {
        zsets = put v.zsets (prioritized_key q) z;
        lists = put v.lists (active_key q) (id ∷ v.lists (active_key q));
      })
  prioritized-Moves v n id z e = record {
    pending_next = rw (e, text_eq_refl (prioritized_key q), active-wait);
    active_gains = rw (text_eq_refl (active_key q));
    delayed_stays = rw prioritized-delayed;
    hashes_stay = refl;
  }

  wait-Moves :
      (v : View) (r : List Text) (id : Text)
      → v.zsets (prioritized_key q) ≡ []
      → unsnoc (v.lists (wait_key q)) ≡ some (r, id)
      → Moves id v (record v {
        lists =
            put
              (put v.lists (wait_key q) r)
              (active_key q)
              (id ∷ put v.lists (wait_key q) r (active_key q));
      })
  wait-Moves v r id e u = record {
    pending_next =
        rw (e, active-wait, text_eq_refl (wait_key q))
          (reverse-unsnoc (v.lists (wait_key q)) r id u);
    active_gains = rw (text_eq_refl (active_key q), wait-active);
    delayed_stays = refl;
    hashes_stay = refl;
  }

  Moves-of_eq :
      (v w v' : View) (d id : Text)
      → Moves d v w
      → ◌≡◌ {A = Option Text × View} (some d, w) (some id, v')
      → Moves id v v'
  Moves-of_eq v w v' d id m h =
      let first : some d ≡ some id = ap (λ r. r.0) h in
      let same : d ≡ id = cc in
      subst (λ x. Moves id v x) (ap (λ r. r.1) h) (subst (λ y. Moves y v w) same m)

  pop_prioritized-Moves :
      (v v' : View) (id : Text) (z : ZSet)
      → v.zsets (prioritized_key q) ≡ z
      → pop_prioritized (wait_key q) (prioritized_key q) (active_key q) v z ≡ (some id, v')
      → Moves id v v'
  unfolding pop_prioritized pop_wait
  pop_prioritized-Moves v v' id [] e h = elim (Option-cases (unsnoc (v.lists (wait_key q)))) [
    | inl u ↦ let h' = rw (u, pop_wait) at h in let gone = ap (λ r. r.0) h' in cc
    | inr ((r, d), u) ↦ Moves-of_eq v _ v' d id (wait-Moves v r d e u) (rw (u, pop_wait) at h)
  ]
  pop_prioritized-Moves v v' id ((n, d) ∷ z) e h =
      Moves-of_eq v _ v' d id (prioritized-Moves v n d z e) h

module _ (redis : Redis) (json : Json) (q : Text) where
  open redis use {Store, view, run_move_to_active, run_move_to_active_lem}

  job_of-id :
      (id : Text) (h : Option Hash) (j : RawJob) → job_of redis json q id h ≡ popped j → j.id ≡ id
  unfolding job_of
  job_of-id id none j e = cc
  job_of-id id (some []) j e = cc
  job_of-id id (some (f ∷ fs)) j e = ground arith

  pub get_job-id :
      (id : Text) (s : Store) (j : RawJob) → get_job redis json q id s ≡ popped j → j.id ≡ id
  unfolding get_job
  get_job-id id s j e = job_of-id id _ j e

  run_move_to_active-Moves :
      (s t : Store) (id : Text)
      → run_move_to_active (wait_key q) (prioritized_key q) (active_key q) s ≡ (some (some id), t)
      → Moves q id (view s) (view t)
  unfolding move_to_active
  run_move_to_active-Moves s t id e =
      pop_prioritized-Moves q (view s) (view t) id ((view s).zsets (prioritized_key q)) refl (
        sym
          (run_move_to_active_lem (wait_key q) (prioritized_key q) (active_key q) s t (some id) e))

  pop_reply-Moves :
      (s s' : Store) (j : RawJob) (r : Option (Option Text) × Store)
      → run_move_to_active (wait_key q) (prioritized_key q) (active_key q) s ≡ r
      → pop_reply redis json q r ≡ (popped j, s')
      → Moves q j.id (view s) (view s')
  unfolding pop_reply
  pop_reply-Moves s s' j (none, t) e h = let gone = ap (λ r. r.0) h in absurd (cc)
  pop_reply-Moves s s' j (some none, t) e h = let gone = ap (λ r. r.0) h in absurd (cc)
  pop_reply-Moves s s' j (some (some id), t) e h = elim (Bool-cases (text_eq id [])) [
    | inl none_left ↦ let h' = rw none_left at h in let gone = ap (λ r. r.0) h' in absurd (cc)
    | inr is_id ↦
        let h' = rw is_id at h in
        let same : j.id ≡ id = get_job-id id t j (ap (λ r. r.0) h') in
        subst (λ x. Moves q j.id (view s) (view x)) (ap (λ r. r.1) h')
          (rw same (run_move_to_active-Moves s t id e))
  ]

  -- A pop that returns a job took the next of the pending ids: those of the prioritized jobs by
  -- their scores, then those of the waiting jobs, the oldest first. The id is now an active one,
  -- and no stored job and no delayed one has changed.
  pub pop_job-Moves :
      (s s' : Store) (j : RawJob)
      → pop_job redis json q s ≡ (popped j, s')
      → Moves q j.id (view s) (view s')
  unfolding pop_job
  pop_job-Moves s s' j h =
      pop_reply-Moves s s' j (run_move_to_active (wait_key q) (prioritized_key q) (active_key q) s)
        refl h
