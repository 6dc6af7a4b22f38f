-- ===== src/Jobs/Bulk/Items.antt =====
-- The library items of PostgreSQL, as the bulk actions use them: what a condition tests, what an
-- UPDATE of some items that are selected does, and the database as a parameter.
use omnivore_go.Prelude.{
  ℕ, suc, zero, min, Text, text_eq, Bool, true, false, ◌&&◌, ◌||◌, not, List, [], ◌∷◌, Option, none,
  some, get_elem?, length, ◌≡◌, if◌then◌else◌,
}
use omnivore_go.Jobs.Bulk.Filter.{
  Arg, text_arg, int_arg, Clause, user_is, state_is, not_deleted, folder_is, has_label, text_like,
  state_not_in,
}
use omnivore_go.Prelude.{codes}

pub record Item : Type 0 where
  pub id : Text
  pub user_id : Text
  pub state : Text
  pub folder : Text
  pub label_names : List Text
  pub title : Text
  pub description : Text
  pub bottom_percent : ℕ
  pub top_percent : ℕ
  pub read_at : Option ℕ
  pub seen_at : Option ℕ
  pub archived_at : Option ℕ
  pub deleted_at : Option ℕ
  pub updated_at : ℕ

-- Placeholders count from one.
unfoldable pub arg_at : ℕ → List Arg → Option Arg
arg_at zero args = none
arg_at (suc n) args = get_elem? args n

unfoldable pub text_test : (Text → Bool) → Option Arg → Bool
text_test p none = false
text_test p (some (text_arg t)) = p t
text_test p (some (int_arg n)) = false

unfoldable pub member : Text → List Text → Bool
member t [] = false
member t (u ∷ us) = if text_eq u t then true else member t us

-- What the SET clause of a bulk action changes.
pub data Change : Type 0 where
  set_archived : Change
  set_deleted : Change
  set_read : Change
  set_seen : Change
  set_folder : ℕ → Change

unfoldable pub move_to : Option Arg → ℕ → Item → Item
move_to (some (text_arg t)) now i = record i { folder = t; updated_at = now }
move_to other now i = i

unfoldable pub change_item : Change → List Arg → ℕ → Item → Item
change_item set_archived args now i = record i {
  state = codes "ARCHIVED";
  archived_at = some now;
  updated_at = now;
}
change_item set_deleted args now i = record i {
  state = codes "DELETED";
  deleted_at = some now;
  updated_at = now;
}
change_item set_read args now i = record i {
  bottom_percent = 100;
  top_percent = 100;
  read_at = some now;
}
change_item set_seen args now i = record i { seen_at = some now }
change_item (set_folder n) args now i = move_to (arg_at n args) now i

-- UPDATE … SET change WHERE id IN (SELECT id … WHERE conditions LIMIT $limit)
pub record Update : Type 0 where
  pub change : Change
  pub conditions : List Clause
  pub limit : ℕ

-- Some `n` of the items that pass `selected` are related by `R` to what they become; all others
-- stay.
pub data Picks (R : Item → Item → Type 0) (selected : Item → Bool)
    : ℕ → List Item → List Item → Type 0 where
  end : Picks R selected 0 [] []
  stays :
      {n : ℕ} {i : Item} {is js : List Item}
      → Picks R selected n is js
      → Picks R selected n (i ∷ is) (i ∷ js)
  changes :
      {n : ℕ} {i j : Item} {is js : List Item}
      → selected i ≡ true
      → R i j
      → Picks R selected n is js
      → Picks R selected (suc n) (i ∷ is) (j ∷ js)

unfoldable pub count : (Item → Bool) → List Item → ℕ
count p [] = 0
count p (i ∷ is) = if p i then suc (count p is) else count p is

module _ (ilike : Text → Text → Bool) where
  -- A condition whose placeholder has no argument of its type holds for no item.
  unfoldable pub holds : List Arg → Clause → Item → Bool
  unfolding text_test arg_at member
  holds args (user_is n) i = text_test (λ t. text_eq i.user_id t) (arg_at n args)
  holds args (state_is n) i = text_test (λ t. text_eq i.state t) (arg_at n args)
  holds args not_deleted i = not (text_eq i.state (codes "DELETED"))
  holds args (folder_is n) i = text_test (λ t. text_eq i.folder t) (arg_at n args)
  holds args (has_label n) i = text_test (λ t. member t i.label_names) (arg_at n args)
  holds args (text_like m n) i =
      text_test (λ t. ilike i.title t) (arg_at m args)
      || text_test (λ t. ilike i.description t) (arg_at n args)
  holds args (state_not_in states) i = not (member i.state states)

  unfoldable pub holds_all : List Arg → List Clause → Item → Bool
  holds_all args [] i = true
  holds_all args (c ∷ cs) i = holds args c i && holds_all args cs i

-- A statement that fails returns `none`, and then nothing is assumed of the store behind it. Each
-- runs in a transaction of its own, with the claims of the user. LIMIT without ORDER BY picks any
-- of the items that pass.
pub record Database : Type 1 where
  pub Store : Type 0
  pub items : Store → List Item
  pub now : Store → ℕ
  pub ilike : Text → Text → Bool
  pub update : Text → Update → List Arg → Store → Option ℕ × Store
  pub update_lem :
      (user : Text) (u : Update) (args : List Arg) (limit n : ℕ) (s s' : Store)
      → update user u args s ≡ (some n, s')
      → arg_at u.limit args ≡ some (int_arg limit)
      → (n ≡ min limit (count (holds_all ilike args u.conditions) (items s)))
        × Picks
            (λ i j. j ≡ change_item u.change args (now s) i)
            (holds_all ilike args u.conditions)
            n
            (items s)
            (items s')
  -- SELECT id … WHERE conditions LIMIT $k, in the transaction that the labels are inserted in
  pub select_ids : Text → List Clause → ℕ → List Arg → Store → Option (List Text)
  pub insert_label : Text → Text → Store → Bool × Store
  pub commit : Store → Bool × Store
  pub select_ids_lem :
      (user : Text) (cs : List Clause) (k : ℕ) (args : List Arg) (limit : ℕ) (s : Store)
      (ids : List Text)
      → select_ids user cs k args s ≡ some ids
      → arg_at k args ≡ some (int_arg limit)
      → length ids ≡ min limit (count (holds_all ilike args cs) (items s))
