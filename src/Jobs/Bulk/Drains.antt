-- ===== src/Jobs/Bulk/Drains.antt =====
-- What the loop over the batches does, for an action after which an item is selected no more.
use mathlib.Core.Path.{subst}
use omnivore_go.Prelude.{
  ℕ, suc, zero, min, ◌+◌, ◌-◌, ◌^◌, ◌≤◌, ◌<◌, ltb, ltb→lt, ◌==◌, Text, Bool, false, List, Option,
  none, some, ◌≡◌, refl, sym, ap, ◌∙◌, arith, Bool-cases, inl, inr,
}
use omnivore_go.Jobs.Bulk.Filter.{Arg, int_arg}
use omnivore_go.Jobs.Bulk.Items.{
  Database, Item, Update, change_item, Picks, count, holds_all, arg_at,
}
use omnivore_go.Jobs.Bulk.Action.{
  Outcome, processed, next_limit, update_batch, after_batch, bulk_loop, no_rows,
}
use omnivore_go.Jobs.Bulk.Rounds.{
  next_limit-bounds, Picks-count, Picks-trans, Picks-imp, Picks-none, count-ext,
}

processed_inj : (m n : ℕ) → processed m ≡ processed n → m ≡ n
processed_inj m n e = cc

counted_min :
    (k total done n limit c d : ℕ)
    → n ≡ min limit c
    → d + n ≡ c
    → done + n ≤ total
    → k ≡ min total ((done + n) + d)
    → k ≡ min total (done + c)
counted_min k total done n limit c d e f h g = omega (arith, e, f, h, g)

-- An action that changes what it selects so that it is selected no more.
module _ (db : Database) (sql : ℕ → Update × List Arg) (user : Text) (R : Item → Item → Type 0)
    (p : Item → Bool)
    (selects : (limit : ℕ) (i : Item)
      → holds_all db.ilike ((sql limit).1) ((sql limit).0).conditions i ≡ p i)
    (limits : (limit : ℕ) → arg_at ((sql limit).0).limit ((sql limit).1) ≡ some (int_arg limit))
    (changed : (limit t : ℕ) (i j : Item)
      → j ≡ change_item ((sql limit).0).change ((sql limit).1) t i
      → R i j)
    (gone : (i j : Item) → R i j → p j ≡ false) (batch total : ℕ) (some_batch : 0 < batch)
    (small : total < 2 ^ 62) (small_batch : batch < 2 ^ 62) where
  open db use {Store, items}

  update_batch-Picks :
      (limit n : ℕ) (s s' : Store)
      → update_batch db sql user limit s ≡ (some n, s')
      → (n ≡ min limit (count p (items s))) × Picks R p n (items s) (items s')
  unfolding update_batch
  update_batch-Picks limit n s s' e =
      let (many, picks) =
        db.update_lem user ((sql limit).0) ((sql limit).1) limit n s s' e (limits limit) in
      (
        many ∙ ap (min limit) (count-ext _ p (selects limit) (items s)),
        Picks-imp _ R _ p (changed limit _) (selects limit) picks,
      )

  -- What the loop does from `done` on.
  abbrev Totals : ℕ → ℕ → Store → Store → Type 0
  Totals done k s s' =
      (n : ℕ) × (k ≡ done + n)
      × (k ≡ min total (done + count p (items s)))
      × Picks R p n (items s) (items s')

  after_batch-Totals :
      (again : ℕ → Store → Outcome × Store) (done limit k : ℕ) (s s' : Store) (r : Option ℕ × Store)
      → 0 < limit
      → limit ≤ total - done
      → done < total
      → update_batch db sql user limit s ≡ r
      → ((n : ℕ) (t : Store)
          → done + n ≤ total
          → again (done + n) t ≡ (processed k, s')
          → Totals (done + n) k t s')
      → after_batch db again (no_rows db limit) done r ≡ (processed k, s')
      → Totals done k s s'
  unfolding after_batch
  after_batch-Totals again done limit k s s' (none, t) some_limit fits more e next h =
      let bad = ap (λ r. r.0) h in absurd (cc)
  after_batch-Totals again done limit k s s' (some zero, t) some_limit fits more e next h =
      let (many, picks) = update_batch-Picks limit 0 s t e in
      let k_done = processed_inj (done + 0) k (ap (λ r. r.0) h) in
      let picks' = subst (λ u. Picks R p 0 (items s) (items u)) (ap (λ r. r.1) h) picks in
      (0, sym k_done, omega (arith, many, k_done), picks')
  after_batch-Totals again done limit k s s' (some (suc n), t) some_limit fits more e next h =
      let (many, picks) = update_batch-Picks limit (suc n) s t e in
      let not_last : (suc n == 0) ≡ false = ground arith in
      let room : done + suc n ≤ total = omega (arith, many) in
      let (m, k_is, k_min, rest) = next (suc n) t room (rw not_last at h) in
      let left = Picks-count R p picks gone in
      (
        suc n + m,
        omega (arith, k_is),
        counted_min k total done (suc n) limit (count p (items s)) (count p (items t)) many left
            room k_min,
        Picks-trans R p picks rest gone,
      )

  pub bulk_loop-Totals :
      (fuel done k : ℕ) (s s' : Store)
      → done ≤ total
      → bulk_loop db (update_batch db sql user) (no_rows db) batch total fuel done s
        ≡ (processed k, s')
      → Totals done k s s'
  unfolding bulk_loop
  bulk_loop-Totals zero done k s s' le h = let bad = ap (λ r. r.0) h in absurd (cc)
  bulk_loop-Totals (suc fuel) done k s s' le h = elim (Bool-cases (ltb done total)) [
    | inl e ↦
        let (some_limit, fits) =
          next_limit-bounds batch total done some_batch (ltb→lt done total e) small small_batch in
        after_batch-Totals (bulk_loop db (update_batch db sql user) (no_rows db) batch total fuel)
          done (next_limit batch total done) k s s'
          (update_batch db sql user (next_limit batch total done) s) some_limit fits
          (ltb→lt done total e) refl (λ n t le' h'. bulk_loop-Totals fuel (done + n) k t s' le' h')
          (rw e at h)
    | inr e ↦
        let h' = rw e at h in
        let k_done = processed_inj done k (ap (λ r. r.0) h') in
        let none_left : total ≤ done = ground (arith, e) in
        (
          0,
          omega (arith, k_done),
          omega (arith, k_done, none_left, le),
          subst (λ u. Picks R p 0 (items s) (items u)) (ap (λ r. r.1) h')
              (Picks-none R p (items s)),
        )
  ]
