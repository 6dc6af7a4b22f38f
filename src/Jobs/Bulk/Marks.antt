-- ===== src/Jobs/Bulk/Marks.antt =====
-- What marking all items that match a query as read counts.
use omnivore_go.Prelude.{
  ℕ, suc, zero, min, ◌+◌, ◌-◌, ◌^◌, ◌≤◌, ◌<◌, ltb, ltb→lt, ◌==◌, Text, Bool, false, ◌&&◌, not, List,
  [], Option, none, some, ◌≡◌, refl, ap, ◌∙◌, arith, Bool-cases, inl, inr, ◌⊎◌,
}
use omnivore_go.Jobs.Bulk.Filter.{BulkFilter, Arg, int_arg}
use omnivore_go.Jobs.Bulk.Items.{
  Database, Item, Update, set_read, change_item, Picks, end, stays, changes, count, holds_all,
  member, arg_at,
}
use omnivore_go.Jobs.Bulk.Matches.{matches}
use omnivore_go.Jobs.Bulk.Selects.{statement-selects, statement-limit}
use omnivore_go.Jobs.Bulk.Action.{
  Outcome, processed, next_limit, statement, update_batch, after_batch, bulk_loop, no_rows,
  bulk_mark_as_read,
}
use omnivore_go.Jobs.Bulk.Rounds.{next_limit-bounds, Picks-imp, count-ext}

zero_add : (n : ℕ) → 0 + n ≡ n
zero_add n = omega arith

processed_inj : (m n : ℕ) → processed m ≡ processed n → m ≡ n
processed_inj m n e = cc

Picks-kept :
    (R : Item → Item → Type 0) (p : Item → Bool) {n : ℕ} {is js : List Item}
    → Picks R p n is js
    → ((i j : Item) → R i j → p j ≡ p i)
    → count p js ≡ count p is
unfolding count
Picks-kept R p end kept = refl
Picks-kept R p (stays {n} {i} {is} {js} k) kept = ground (arith, Picks-kept R p k kept)
Picks-kept R p (changes {n} {i} {j} e r k) kept =
    ground (arith, e, kept i j r, Picks-kept R p k kept)

-- An action that leaves what it selects selected.
module _ (db : Database) (sql : ℕ → Update × List Arg) (user : Text) (R : Item → Item → Type 0)
    (p : Item → Bool)
    (selects : (limit : ℕ) (i : Item)
      → holds_all db.ilike ((sql limit).1) ((sql limit).0).conditions i ≡ p i)
    (limits : (limit : ℕ) → arg_at ((sql limit).0).limit ((sql limit).1) ≡ some (int_arg limit))
    (changed : (limit t : ℕ) (i j : Item)
      → j ≡ change_item ((sql limit).0).change ((sql limit).1) t i
      → R i j)
    (kept : (i j : Item) → R i j → p j ≡ p i) (batch total : ℕ) (some_batch : 0 < batch)
    (small : total < 2 ^ 62) (small_batch : batch < 2 ^ 62) where
  open db use {Store, items}

  update_batch-Picks :
      (limit n : ℕ) (s s' : Store)
      → update_batch db sql user limit s ≡ (some n, s')
      → (n ≡ min limit (count p (items s))) × Picks R p n (items s) (items s')
  unfolding update_batch
  update_batch-Picks limit n s s' e =
      let (many, picks) =
        db.update_lem user ((sql limit).0) ((sql limit).1) limit n s s' e (limits limit) in
      (
        many ∙ ap (min limit) (count-ext _ p (selects limit) (items s)),
        Picks-imp _ R _ p (changed limit _) (selects limit) picks,
      )

  -- The count is `total`, or what it was when there is nothing to select.
  abbrev Counts : ℕ → ℕ → Store → Type 0
  Counts done k s = ((count p (items s) ≡ 0) × (k ≡ done)) ⊎ ((0 < count p (items s)) × (k ≡ total))

  after_batch-Counts :
      (again : ℕ → Store → Outcome × Store) (done limit k : ℕ) (s s' : Store) (r : Option ℕ × Store)
      → 0 < limit
      → limit ≤ total - done
      → done < total
      → update_batch db sql user limit s ≡ r
      → ((n : ℕ) (t : Store)
          → done + n ≤ total
          → again (done + n) t ≡ (processed k, s')
          → (done + n ≡ total) × (k ≡ total) ⊎ Counts (done + n) k t)
      → after_batch db again (no_rows db limit) done r ≡ (processed k, s')
      → Counts done k s
  unfolding after_batch
  after_batch-Counts again done limit k s s' (none, t) some_limit fits more e next h =
      let bad = ap (λ r. r.0) h in absurd (cc)
  after_batch-Counts again done limit k s s' (some zero, t) some_limit fits more e next h =
      let (many, picks) = update_batch-Picks limit 0 s t e in
      let k_done = processed_inj (done + 0) k (ap (λ r. r.0) h) in
      inl (omega (arith, many), omega (arith, k_done))
  after_batch-Counts again done limit k s s' (some (suc n), t) some_limit fits more e next h =
      let (many, picks) = update_batch-Picks limit (suc n) s t e in
      let not_last : (suc n == 0) ≡ false = ground arith in
      let room : done + suc n ≤ total = omega (arith, many) in
      let same = Picks-kept R p picks kept in
      elim (next (suc n) t room (rw not_last at h)) [
        | inl (full, all) ↦ inr (omega (arith, many), all)
        | inr (inl (nothing, k_is)) ↦ absurd (omega (arith, many, same, nothing))
        | inr (inr (something, all)) ↦ inr (omega (arith, many), all)
      ]

  pub bulk_loop-Counts :
      (fuel done k : ℕ) (s s' : Store)
      → done ≤ total
      → bulk_loop db (update_batch db sql user) (no_rows db) batch total fuel done s
        ≡ (processed k, s')
      → (done ≡ total) × (k ≡ total) ⊎ Counts done k s
  unfolding bulk_loop
  bulk_loop-Counts zero done k s s' le h = let bad = ap (λ r. r.0) h in absurd (cc)
  bulk_loop-Counts (suc fuel) done k s s' le h = elim (Bool-cases (ltb done total)) [
    | inl e ↦
        let (some_limit, fits) =
          next_limit-bounds batch total done some_batch (ltb→lt done total e) small small_batch in
        inr (
          after_batch-Counts (bulk_loop db (update_batch db sql user) (no_rows db) batch total fuel)
            done (next_limit batch total done) k s s'
            (update_batch db sql user (next_limit batch total done) s) some_limit fits
            (ltb→lt done total e) refl
            (λ n t le' h'. bulk_loop-Counts fuel (done + n) k t s' le' h') (rw e at h))
    | inr e ↦
        let h' = rw e at h in
        let k_done = processed_inj done k (ap (λ r. r.0) h') in
        let none_left : total ≤ done = ground (arith, e) in
        inl (omega (arith, none_left, le), omega (arith, none_left, le, k_done))
  ]

module _ (db : Database) (user : Text) (f : BulkFilter) where
  open db use {Store, items, ilike}

  abbrev pub to_mark : Item → Bool
  to_mark i = matches ilike user f i && not (member i.state [])

  abbrev MarkedRead : Item → Item → Type 0
  MarkedRead i j =
      (t : ℕ) × (j ≡ record i { bottom_percent = 100; top_percent = 100; read_at = some t })

  marked-kept : (i j : Item) → MarkedRead i j → to_mark j ≡ to_mark i
  marked-kept i j (t, e) = rw e

  mark_change :
      (limit t : ℕ) (i j : Item)
      → j
        ≡ change_item
            ((statement set_read [] user f limit).0).change
            ((statement set_read [] user f limit).1)
            t
            i
      → MarkedRead i j
  unfolding statement change_item
  mark_change limit t i j e = (t, e)

  -- When bulkMarkAsRead ends without an error, with a count and a batch size above 0 and both
  -- below 2^62, it has counted `total` items if any matches, however few they are: an item that is
  -- marked still matches, and is marked and counted again.
  pub bulk_mark_as_read-counts :
      (batch total k : ℕ) (s s' : Store)
      → 0 < batch
      → 0 < total
      → total < 2 ^ 62
      → batch < 2 ^ 62
      → bulk_mark_as_read db user f batch total s ≡ (processed k, s')
      → ((count to_mark (items s) ≡ 0) × (k ≡ 0)) ⊎ ((0 < count to_mark (items s)) × (k ≡ total))
  unfolding bulk_mark_as_read
  bulk_mark_as_read-counts batch total k s s' some_batch some_total small small_batch h =
      elim (bulk_loop-Counts db (statement set_read [] user f) user MarkedRead to_mark
        (λ limit i. (statement-selects ilike set_read [] user f limit i).0)
        (statement-limit ilike set_read [] user f) mark_change marked-kept batch total some_batch
        small small_batch (suc total) 0 k s s' (omega arith) h) [
          | inl (full, all) ↦ absurd (omega (arith, full))
          | inr counts ↦ counts
        ]
