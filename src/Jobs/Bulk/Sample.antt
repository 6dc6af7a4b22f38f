-- ===== src/Jobs/Bulk/Sample.antt =====
-- A database that keeps a list of items and answers every statement, for the tests.
use mathlib.Core.Path.{subst}
use omnivore_go.Prelude.{
  ℕ, suc, zero, min, Text, codes, Bool, true, false, List, [], ◌∷◌, map, take, length, length-take,
  select, Option, none, some, ◌≡◌, refl, sym, ap, ◌∙◌, arith, if◌then◌else◌, Bool-cases, inl, inr,
}
use omnivore_go.Jobs.Bulk.Filter.{Arg, int_arg, Clause}
use omnivore_go.Jobs.Bulk.Items.{
  Database, Item, Update, Picks, end, stays, changes, change_item, count, holds_all, arg_at,
}

abbrev pub never_like : Text → Text → Bool
never_like t u = false

-- The first items that pass are changed, `limit` at most.
abbrev pub change_first : (Item → Item) → (Item → Bool) → ℕ → List Item → List Item
change_first c p limit [] = []
change_first c p zero (i ∷ is) = i ∷ is
change_first c p (suc n) (i ∷ is) =
    if p i then c i ∷ change_first c p n is else i ∷ change_first c p (suc n) is

Picks-nothing : (R : Item → Item → Type 0) (p : Item → Bool) (is : List Item) → Picks R p 0 is is
Picks-nothing R p [] = end
Picks-nothing R p (i ∷ is) = stays (Picks-nothing R p is)

Picks-eq :
    (R : Item → Item → Type 0) (p : Item → Bool) (m n : ℕ) (is js : List Item)
    → m ≡ n
    → Picks R p m is js
    → Picks R p n is js
Picks-eq R p m n is js e k = subst (λ x. Picks R p x is js) e k

pub change_first-Picks :
    (c : Item → Item) (p : Item → Bool) (limit : ℕ) (is : List Item)
    → Picks (λ i j. j ≡ c i) p (min limit (count p is)) is (change_first c p limit is)
unfolding count
change_first-Picks c p limit [] = Picks-eq _ p 0 (min limit 0) [] [] (omega arith) end
change_first-Picks c p zero (i ∷ is) =
    Picks-eq _ p 0 (min 0 (count p (i ∷ is))) (i ∷ is) (i ∷ is) (omega arith)
      (Picks-nothing (λ i j. j ≡ c i) p (i ∷ is))
change_first-Picks c p (suc n) (i ∷ is) = elim (Bool-cases (p i)) [
  | inl e ↦ rw e (
      Picks-eq _ p (suc (min n (count p is))) (min (suc n) (suc (count p is))) (i ∷ is)
        (c i ∷ change_first c p n is) (omega arith) (changes e refl (change_first-Picks c p n is)))
  | inr e ↦ rw e (stays (change_first-Picks c p (suc n) is))
]

abbrev pub limited : Option Arg → (ℕ → Option ℕ × List Item) → List Item → Option ℕ × List Item
limited (some (int_arg n)) f s = f n
limited other f s = (none, s)

abbrev pub run_update : Text → Update → List Arg → List Item → Option ℕ × List Item
run_update user u args s =
    let p = holds_all never_like args u.conditions in
    limited (arg_at u.limit args)
      (λ n. (some (min n (count p s)), change_first (change_item u.change args 1000) p n s)) s

abbrev pub limited_ids : Option Arg → List Text → Option (List Text)
limited_ids (some (int_arg n)) ids = some (take n ids)
limited_ids other ids = none

abbrev pub run_select : Text → List Clause → ℕ → List Arg → List Item → Option (List Text)
run_select user cs k args s =
    limited_ids (arg_at k args) (map (λ i. i.id) (select (holds_all never_like args cs) s))

length-selected :
    (p : Item → Bool) (is : List Item) → length (map (λ i. i.id) (select p is)) ≡ count p is
unfolding count
length-selected p [] = refl
length-selected p (i ∷ is) = ground (arith, length-selected p is)

some_ids : (a b : List Text) → some a ≡ some b → b ≡ a
some_ids a b e = cc

some_count : (a b : ℕ) → some a ≡ some b → b ≡ a
some_count a b e = cc

pub run_select-length :
    (user : Text) (cs : List Clause) (k : ℕ) (args : List Arg) (limit : ℕ) (s : List Item)
    (ids : List Text)
    → run_select user cs k args s ≡ some ids
    → arg_at k args ≡ some (int_arg limit)
    → length ids ≡ min limit (count (holds_all never_like args cs) s)
run_select-length user cs k args limit s ids e h =
    let all = map (λ i. i.id) (select (holds_all never_like args cs) s) in
    let e' : some (take limit all) ≡ some ids = ap (λ o. limited_ids o all) (sym h) ∙ e in
    ap length (some_ids (take limit all) ids e')
    ∙ length-take limit all
    ∙ ap (min limit) (length-selected (holds_all never_like args cs) s)

pub run_update-Picks :
    (user : Text) (u : Update) (args : List Arg) (limit n : ℕ) (s s' : List Item)
    → run_update user u args s ≡ (some n, s')
    → arg_at u.limit args ≡ some (int_arg limit)
    → (n ≡ min limit (count (holds_all never_like args u.conditions) s))
      × Picks
          (λ i j. j ≡ change_item u.change args 1000 i)
          (holds_all never_like args u.conditions)
          n
          s
          s'
run_update-Picks user u args limit n s s' e h =
    let p = holds_all never_like args u.conditions in
    let c = change_item u.change args 1000 in
    let done : ℕ → Option ℕ × List Item = λ k. (some (min k (count p s)), change_first c p k s) in
    let e' : done limit ≡ (some n, s') = ap (λ o. limited o done s) (sym h) ∙ e in
    let many = some_count (min limit (count p s)) n (ap (λ r. r.0) e') in
    (
      many,
      Picks-eq _ p _ n s s' (sym many) (
          subst (Picks (λ i j. j ≡ c i) p (min limit (count p s)) s) (ap (λ r. r.1) e')
            (change_first-Picks c p limit s)),
    )

abbrev pub shelf : Database
shelf = record {
  Store = List Item;
  items = λ s. s;
  now = λ s. 1000;
  ilike = never_like;
  update = run_update;
  update_lem = run_update-Picks;
  select_ids = run_select;
  insert_label = λ item label s. (true, s);
  commit = λ s. (true, s);
  select_ids_lem = run_select-length;
}

abbrev saved : Text → Text → Text → Item
saved id user folder = record {
  id = id;
  user_id = user;
  state = codes "SUCCEEDED";
  folder = folder;
  label_names = [];
  title = codes "t";
  description = codes "d";
  bottom_percent = 0;
  top_percent = 0;
  read_at = none;
  seen_at = none;
  archived_at = none;
  deleted_at = none;
  updated_at = 0;
}

abbrev pub three_items : List Item
three_items =
    saved (codes "a") (codes "ann") (codes "inbox")
    ∷ saved (codes "b") (codes "bob") (codes "inbox")
    ∷ saved (codes "c") (codes "ann") (codes "inbox")
    ∷ []
