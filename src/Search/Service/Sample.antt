-- ===== src/Search/Service/Sample.antt =====
-- A small library that meets the assumptions on the database, for the tests.
use omnivore_go.Prelude.{
  ℕ, Text, codes, text_eq, Bool, true, false, ◌&&◌, List, [], ◌∷◌, some, refl, sym, ltb, leb, ◌==◌,
  ◌*◌, ◌≡◌, length, take, drop, select, All, All-take, All-drop, All-select,
}
use omnivore_go.Prelude.Int.{ℤ, pos, negsuc}
use omnivore_go.Search.Conditions.{
  Condition, user_is, state_is, folder_is, label_any, content_reader_is, matches_text,
  progress_at_least, progress_below, progress_between, has_highlights, no_highlights, has_labels,
  no_labels,
}
use omnivore_go.Search.Library.{Library, any_eq, array_length, sql_test, holds_all}
use omnivore_go.Search.Service.Pages.{IsAvailable}

pub record Row : Type 0 where
  pub user_id : Text
  pub state : Text
  pub folder : Text
  pub progress : ℕ
  pub label_names : List Text
  pub saved_at : ℕ

abbrev holds : Condition → Row → Bool
holds (user_is t) r = text_eq r.user_id t
holds (state_is t) r = text_eq r.state t
holds (folder_is t) r = text_eq r.folder t
holds (label_any t) r = any_eq t r.label_names
holds (content_reader_is t) r = text_eq (codes "WEB") t
holds (matches_text t) r = false
holds (progress_at_least n) r = leb (100 * n) r.progress
holds (progress_below n) r = ltb r.progress (100 * n)
holds (progress_between m n) r = leb (100 * m) r.progress && leb r.progress (100 * n)
holds has_highlights r = false
holds no_highlights r = true
holds has_labels r = sql_test (λ n. ltb 0 n) (array_length r.label_names)
holds no_labels r = sql_test (λ n. n == 0) (array_length r.label_names)

abbrev saved : Text → ℕ → ℕ → Row
saved user progress saved_at = record {
  user_id = user;
  state = codes "SUCCEEDED";
  folder = codes "inbox";
  progress = progress;
  label_names = [];
  saved_at = saved_at;
}

abbrev rows : List Row
rows =
    saved (codes "ann") 0 9
    ∷ saved (codes "bob") 0 8
    ∷ saved (codes "ann") 9800 7
    ∷ saved (codes "ann") 50 6
    ∷ []

-- A negative OFFSET is dropped, and so is a negative LIMIT.
abbrev window : List Row → ℤ → ℤ → List Row
window rs (pos o) (pos l) = take l (drop o rs)
window rs (pos o) (negsuc l) = drop o rs
window rs (negsuc o) (pos l) = take l rs
window rs (negsuc o) (negsuc l) = rs

pub some-eq : {A : Type 0} (a b : A) → some a ≡ some b → a ≡ b
some-eq a b e = cc

abbrev Kept : List Condition → Row → Type 0
Kept cs i = holds_all holds cs i ≡ true

pub found-hold :
    (cs : List Condition) (o l : ℕ) (is : List Row)
    → some (window (select (holds_all holds cs) rows) (pos o) (pos l)) ≡ some is
    → All (λ i. holds_all holds cs i ≡ true) is
found-hold cs o l is e = rw (sym (some-eq _ _ e)) (
    All-take (Kept cs) l (drop o (select (holds_all holds cs) rows)) (
      All-drop (Kept cs) o (select (holds_all holds cs) rows)
        (All-select (Kept cs) (holds_all holds cs) rows (λ i h. h))))

abbrev pub sample : Library
sample = record {
  Item = Row;
  user_id = λ r. r.user_id;
  state = λ r. r.state;
  folder = λ r. r.folder;
  content_reader = λ r. codes "WEB";
  progress = λ r. r.progress;
  label_names = λ r. r.label_names;
  highlighted = λ r. false;
  tsv_matches = λ r t. false;
  holds = holds;
  holds-user_is = λ t i. refl;
  holds-state_is = λ t i. refl;
  holds-folder_is = λ t i. refl;
  holds-label_any = λ t i. refl;
  holds-content_reader_is = λ t i. refl;
  holds-matches_text = λ t i. refl;
  holds-progress_at_least = λ n i. refl;
  holds-progress_below = λ n i. refl;
  holds-progress_between = λ m n i. refl;
  holds-has_highlights = λ i. refl;
  holds-no_highlights = λ i. refl;
  holds-has_labels = λ i. refl;
  holds-no_labels = λ i. refl;
  sorted = λ order. rows;
  ties = λ order i j. i.saved_at == j.saved_at;
  count = λ cs. some (length (select (holds_all holds cs) rows));
  find = λ cs order o l. some (window (select (holds_all holds cs) rows) o l);
  count_rows = λ cs order n e. some-eq _ _ (sym e);
  find_matches = λ cs order o l is e. found-hold cs o l is e;
  find_rows = λ cs order o l is ordered e. some-eq _ _ (sym e);
}

pub sample-IsAvailable : IsAvailable sample
sample-IsAvailable = record {
  counts = λ cs. (length (select (holds_all holds cs) rows), refl);
  finds = λ cs order o l. (window (select (holds_all holds cs) rows) o l, refl);
}
