-- ===== src/SaveUrl/Items.antt =====
-- internal/repository/library_item.go: the rows that SaveURL reads and writes, with PostgreSQL
-- behind gorm as a parameter.
use omnivore_go.Prelude.{
  ℕ, suc, ◌<◌, Text, text_eq, Bool, true, false, ◌&&◌, ◌⊎◌, All, List, [], ◌∷◌, map, Option, none,
  some, ◌≡◌, if◌then◌else◌,
}

pub record LibraryItem : Type 0 where
  pub id : Text
  pub user_id : Text
  pub original_url : Text
  pub slug : Text
  pub title : Text
  pub state : Text
  pub item_type : Text
  pub readable_content : Text
  pub folder : Text
  pub saved_at : ℕ

unfoldable pub count {ℓ} : {A : Type ℓ} → (A → Bool) → List A → ℕ
count p [] = 0
count p (x ∷ xs) = if p x then suc (count p xs) else count p xs

-- The payload of the fetch-content job.
pub record FetchRequest : Type 0 where
  pub url : Text
  pub user_id : Text
  pub library_item_id : Text
  pub folder : Text
  pub priority : Text
  pub state : Text
  pub timezone : Option Text
  pub locale : Option Text
  pub labels : List Text

pub record QueuedFetch : Type 0 where
  pub name : Text
  pub request : FetchRequest
  pub job_id : Text
  pub attempts : ℕ
  pub priority : ℕ
  pub backoff : ℕ

-- Whether a row is that of a user and a URL; equal hashes are taken for equal URLs.
abbrev pub is_at : Text → Text → LibraryItem → Bool
is_at user url i = text_eq i.user_id user && text_eq i.original_url url

-- UPDATE of all columns of the row with the item's id
abbrev pub put_row : LibraryItem → List LibraryItem → List LibraryItem
put_row i rows = map (λ j. if text_eq j.id i.id then i else j) rows

-- A statement that fails returns `none` or `false`, and then nothing is assumed of the store behind it.
pub record Rows : Type 1 where
  pub Store : Type 0
  pub rows : Store → List LibraryItem
  pub now : Store → ℕ
  pub new_uuid : Store → Text × Store
  pub select_first : (LibraryItem → Bool) → Store → Option (Option LibraryItem)
  pub insert : LibraryItem → Store → Bool × Store
  pub save : LibraryItem → Store → Bool × Store
  pub add_job : QueuedFetch → Store → Bool × Store
  pub new_uuid_lem : (s : Store) → rows ((new_uuid s).1) ≡ rows s
  pub select_none :
      (p : LibraryItem → Bool) (s : Store) → select_first p s ≡ some none → count p (rows s) ≡ 0
  pub select_some :
      (p : LibraryItem → Bool) (s : Store) (i : LibraryItem)
      → select_first p s ≡ some (some i)
      → (0 < count p (rows s)) × (p i ≡ true)
  -- The id is the primary key, so a row that has the id of one that was selected is that row.
  pub select_key :
      (p : LibraryItem → Bool) (s : Store) (i : LibraryItem)
      → select_first p s ≡ some (some i)
      → All (λ k. (text_eq k.id i.id ≡ false) ⊎ (k ≡ i)) (rows s)
  pub insert_lem :
      (p : LibraryItem → Bool) (i : LibraryItem) (s s' : Store)
      → insert i s ≡ (true, s')
      → count p (rows s') ≡ count p (i ∷ rows s)
  pub save_lem :
      (i : LibraryItem) (s s' : Store) → save i s ≡ (true, s') → rows s' ≡ put_row i (rows s)
  pub add_job_lem : (q : QueuedFetch) (s s' : Store) → add_job q s ≡ (true, s') → rows s' ≡ rows s
