-- ===== src/Search/Library.antt =====
-- The database behind a search, as a parameter: the items of one snapshot, what PostgreSQL
-- documents of each condition, and of COUNT and of SELECT with OFFSET and LIMIT through gorm.
use omnivore_go.Prelude.{
  ℕ, Text, text_eq, Bool, true, false, not, ◌&&◌, List, [], ◌∷◌, ◌≡◌, Option, none, some, ltb, leb,
  ◌==◌, select, All, length, take, drop, ◌*◌, if◌then◌else◌,
}
use omnivore_go.Prelude.Int.{ℤ, pos}
use omnivore_go.Search.Conditions.{
  Condition, user_is, state_is, folder_is, label_any, content_reader_is, matches_text,
  progress_at_least, progress_below, progress_between, has_highlights, no_highlights, has_labels,
  no_labels,
}

-- `x = ANY(array)` at an array of texts
abbrev pub any_eq : Text → List Text → Bool
any_eq x [] = false
any_eq x (y ∷ ys) = if text_eq x y then true else any_eq x ys

-- array_length(array, 1), which is NULL at the empty array
abbrev pub array_length : List Text → Option ℕ
array_length [] = none
array_length (x ∷ xs) = some (length (x ∷ xs))

-- A comparison with NULL is not true.
abbrev pub sql_test : (ℕ → Bool) → Option ℕ → Bool
sql_test p none = false
sql_test p (some n) = p n

module _ {ℓ} {I : Type ℓ} (holds : Condition → I → Bool) where
  abbrev pub holds_all : List Condition → I → Bool
  holds_all [] i = true
  holds_all (c ∷ cs) i = holds c i && holds_all cs i

-- No two elements of a list are in a relation.
abbrev pub IsPairwiseNot {ℓ} : {I : Type ℓ} → (I → I → Bool) → List I → Type 0
IsPairwiseNot r [] = Unit
IsPairwiseNot r (i ∷ is) = All (λ j. r i j ≡ false) is × IsPairwiseNot r is

pub record Library : Type 1 where
  pub Item : Type 0
  pub user_id : Item → Text
  pub state : Item → Text
  pub folder : Item → Text
  pub content_reader : Item → Text
  -- reading_progress_bottom_percent, in hundredths of a percent
  pub progress : Item → ℕ
  -- the column is NOT NULL in the schema
  pub label_names : Item → List Text
  pub highlighted : Item → Bool
  pub tsv_matches : Item → Text → Bool
  pub holds : Condition → Item → Bool
  pub holds-user_is : (t : Text) (i : Item) → holds (user_is t) i ≡ text_eq (user_id i) t
  pub holds-state_is : (t : Text) (i : Item) → holds (state_is t) i ≡ text_eq (state i) t
  pub holds-folder_is : (t : Text) (i : Item) → holds (folder_is t) i ≡ text_eq (folder i) t
  pub holds-label_any : (t : Text) (i : Item) → holds (label_any t) i ≡ any_eq t (label_names i)
  pub holds-content_reader_is :
      (t : Text) (i : Item) → holds (content_reader_is t) i ≡ text_eq (content_reader i) t
  pub holds-matches_text : (t : Text) (i : Item) → holds (matches_text t) i ≡ tsv_matches i t
  pub holds-progress_at_least :
      (n : ℕ) (i : Item) → holds (progress_at_least n) i ≡ leb (100 * n) (progress i)
  pub holds-progress_below :
      (n : ℕ) (i : Item) → holds (progress_below n) i ≡ ltb (progress i) (100 * n)
  pub holds-progress_between :
      (m n : ℕ) (i : Item)
      → holds (progress_between m n) i ≡ (leb (100 * m) (progress i) && leb (progress i) (100 * n))
  pub holds-has_highlights : (i : Item) → holds has_highlights i ≡ highlighted i
  pub holds-no_highlights : (i : Item) → holds no_highlights i ≡ not (highlighted i)
  pub holds-has_labels :
      (i : Item) → holds has_labels i ≡ sql_test (λ n. ltb 0 n) (array_length (label_names i))
  pub holds-no_labels :
      (i : Item) → holds no_labels i ≡ sql_test (λ n. n == 0) (array_length (label_names i))
  -- the items of the table in one of the orders that some ORDER BY clauses allow
  pub sorted : List Text → List Item
  -- whether the clauses put neither of two items before the other
  pub ties : List Text → Item → Item → Bool
  -- `none` is an error of the query
  pub count : List Condition → Option ℕ
  pub find : List Condition → List Text → ℤ → ℤ → Option (List Item)
  pub count_rows :
      (cs : List Condition) (order : List Text) (n : ℕ)
      → count cs ≡ some n
      → n ≡ length (select (holds_all holds cs) (sorted order))
  -- A query finds rows that the conditions hold for, whatever their order.
  pub find_matches :
      (cs : List Condition) (order : List Text) (offset limit : ℕ) (is : List Item)
      → find cs order (pos offset) (pos limit) ≡ some is
      → All (λ i. holds_all holds cs i ≡ true) is
  -- Which rows an offset and a limit cut out is only determined where the clauses leave no choice.
  pub find_rows :
      (cs : List Condition) (order : List Text) (offset limit : ℕ) (is : List Item)
      → IsPairwiseNot (ties order) (select (holds_all holds cs) (sorted order))
      → find cs order (pos offset) (pos limit) ≡ some is
      → is ≡ take limit (drop offset (select (holds_all holds cs) (sorted order)))
