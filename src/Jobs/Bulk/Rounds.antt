-- ===== src/Jobs/Bulk/Rounds.antt =====
-- The batches of the bulk actions, all together.
use mathlib.Core.Path.{subst}
use omnivore_go.Prelude.{
  ℕ, suc, zero, ◌+◌, ◌-◌, ◌^◌, ◌≤◌, ◌<◌, ltb, Bool, true, false, List, [], ◌∷◌, Option, none, some,
  ◌≡◌, ◌≢◌, refl, sym, ◌∙◌, arith, Bool-cases, ltb→lt, inl, inr,
}
use omnivore_go.Jobs.Bulk.Items.{Database, Item, Picks, end, stays, changes, count}
use omnivore_go.Jobs.Bulk.Action.{Outcome, unfinished, next_limit, after_batch, bulk_loop}

-- Where the ints of the loop do not wrap.
pub next_limit-bounds :
    (batch total done : ℕ)
    → 0 < batch
    → done < total
    → total < 2 ^ 62
    → batch < 2 ^ 62
    → (0 < next_limit batch total done) × (next_limit batch total done ≤ total - done)
unfolding next_limit
next_limit-bounds batch total done some_batch more small small_batch =
    ground (arith, some_batch, more, small, small_batch)

add_suc : (m n : ℕ) → suc (m + n) ≡ m + suc n
add_suc m n = omega arith

suc_add : (m n : ℕ) → suc (m + n) ≡ suc m + n
suc_add m n = omega arith

pub recount :
    (R : Item → Item → Type 0) (p : Item → Bool) {m n : ℕ} {is js : List Item}
    → m ≡ n
    → Picks R p m is js
    → Picks R p n is js
recount R p {m} {n} {is} {js} e k = subst (λ x. Picks R p x is js) e k

module _ (R : Item → Item → Type 0) (p : Item → Bool) where
  pub Picks-count :
      {n : ℕ} {is js : List Item}
      → Picks R p n is js
      → ((i j : Item) → R i j → p j ≡ false)
      → count p js + n ≡ count p is
  unfolding count
  Picks-count end gone = refl
  Picks-count (stays {n} {i} {is} {js} k) gone = ground (arith, Picks-count k gone)
  Picks-count (changes {n} {i} {j} {is} {js} e r k) gone =
      ground (arith, e, gone i j r, Picks-count k gone)

  pub Picks-trans :
      {m n : ℕ} {is js ks : List Item}
      → Picks R p m is js
      → Picks R p n js ks
      → ((i j : Item) → R i j → p j ≡ false)
      → Picks R p (m + n) is ks
  Picks-trans end end gone = end
  Picks-trans (stays k) (stays l) gone = stays (Picks-trans k l gone)
  Picks-trans (stays {n} k) (changes e r l) gone =
      recount R p (add_suc n _) (changes e r (Picks-trans k l gone))
  Picks-trans (changes {n} e r k) (stays l) gone =
      recount R p (suc_add n _) (changes e r (Picks-trans k l gone))
  Picks-trans (changes {n} {i} {j} e r k) (changes f t l) gone = absurd (let g = gone i j r in cc)

pub count-ext :
    (p q : Item → Bool) → ((i : Item) → p i ≡ q i) → (is : List Item) → count p is ≡ count q is
unfolding count
count-ext p q e [] = refl
count-ext p q e (i ∷ is) = ground (arith, e i, count-ext p q e is)

pub Picks-imp :
    (R S : Item → Item → Type 0) (p q : Item → Bool)
    → ((i j : Item) → R i j → S i j)
    → ((i : Item) → p i ≡ q i)
    → {n : ℕ} {is js : List Item} → Picks R p n is js
    → Picks S q n is js
Picks-imp R S p q r e end = end
Picks-imp R S p q r e (stays k) = stays (Picks-imp R S p q r e k)
Picks-imp R S p q r e (changes {n} {i} {j} h t k) =
    changes (sym (e i) ∙ h) (r i j t) (Picks-imp R S p q r e k)

pub Picks-none : (R : Item → Item → Type 0) (p : Item → Bool) (is : List Item) → Picks R p 0 is is
Picks-none R p [] = end
Picks-none R p (i ∷ is) = stays (Picks-none R p is)

-- A loop whose batches count no more than their limit, and which ends with an empty batch.
module _ (db : Database) (step : ℕ → db.Store → Option ℕ × db.Store) (is_last : ℕ → ℕ → Bool)
    (bounded : (limit n : ℕ) (s s' : db.Store) → step limit s ≡ (some n, s') → n ≤ limit)
    (ends : (limit : ℕ) → 0 < limit → is_last limit 0 ≡ true) (batch total : ℕ)
    (some_batch : 0 < batch) (small : total < 2 ^ 62) (small_batch : batch < 2 ^ 62) where
  after_batch-finishes :
      (again : ℕ → db.Store → Outcome × db.Store) (limit done : ℕ) (s : db.Store)
      (r : Option ℕ × db.Store)
      → 0 < limit
      → step limit s ≡ r
      → ((n : ℕ) (s' : db.Store) → 0 < n → n ≤ limit → (again (done + n) s').0 ≢ unfinished)
      → (after_batch db again (is_last limit) done r).0 ≢ unfinished
  unfolding after_batch
  after_batch-finishes again limit done s (none, s') some_limit e more = λ h. cc
  after_batch-finishes again limit done s (some n, s') some_limit e more =
      elim (Bool-cases (is_last limit n)) [
        | inl h ↦ rw h (λ k. cc)
        | inr h ↦ rw h (more n s' (not_zero n (ends limit some_limit) h) (bounded limit n s s' e))
      ]
    where
      not_zero : (n : ℕ) → is_last limit 0 ≡ true → is_last limit n ≡ false → 0 < n
      not_zero zero h k = absurd (cc)
      not_zero (suc n) h k = omega arith

  pub bulk_loop-finishes :
      (fuel done : ℕ) (s : db.Store)
      → total - done < fuel
      → (bulk_loop db step is_last batch total fuel done s).0 ≢ unfinished
  unfolding bulk_loop
  bulk_loop-finishes zero done s enough = absurd (omega arith)
  bulk_loop-finishes (suc fuel) done s enough = elim (Bool-cases (ltb done total)) [
    | inl h ↦
        let (some_limit, fits) =
          next_limit-bounds batch total done some_batch (ltb→lt done total h) small small_batch in
        rw h (
          after_batch-finishes (bulk_loop db step is_last batch total fuel)
            (next_limit batch total done) done s (step (next_limit batch total done) s) some_limit
            refl
            (λ n s' some_rows few.
              bulk_loop-finishes fuel (done + n) s'
                (omega (arith, some_rows, ltb→lt done total h))))
    | inr h ↦ rw h (λ k. cc)
  ]
