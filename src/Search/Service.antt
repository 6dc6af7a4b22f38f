-- ===== src/Search/Service.antt =====
-- internal/service/search.go: SearchService.Search, one page of a search.
pub mod Pages
pub mod Rows
pub mod Scope
pub mod Faults
pub mod Sample
pub mod Tests
use omnivore_go.Prelude.{
  ℕ, suc, ◌+◌, ◌-◌, ◌%◌, ◌^◌, Text, codes, Bool, true, false, List, Option, none, some, ltb, leb,
  length, take, if◌then◌else◌, ◌++◌, [], ◌∷◌,
}
use omnivore_go.Prelude.Unicode.{Unicode}
use omnivore_go.Prelude.Int.{ℤ, pos, negsuc, scan_int, format_nat, max_int64}
use omnivore_go.Search.Conditions.{search_conditions, apply_sorting}
use omnivore_go.Search.Library.{Library}

pub record SearchParams : Type 0 where
  pub user_id : Text
  pub query : Text
  pub after : Option Text
  pub first : Option ℤ

pub record SearchResult {ℓ} (Item : Type ℓ) : Type ℓ where
  pub items : List Item
  pub has_next_page : Bool
  pub has_previous_page : Bool
  pub start_cursor : Text
  pub end_cursor : Text
  pub total_count : ℕ

-- `panicked` is a run-time panic: a slice expression with a negative bound.
pub data Outcome {ℓ} (A : Type ℓ) : Type ℓ where
  found : A → Outcome A
  failed : Outcome A
  panicked : Outcome A

-- A sum of an int and a length, in 64-bit two's complement.
unfoldable pub add_length : ℤ → ℕ → ℤ
add_length (pos m) n =
    let s = (m + n) % 2 ^ 64 in if leb s max_int64 then pos s else negsuc (2 ^ 64 - s - 1)
add_length (negsuc m) n = if ltb m n then pos (n - m - 1) else negsuc (m - n)

-- fmt.Sprintf("%d", n)
unfoldable pub format_int : ℤ → Text
format_int (pos n) = format_nat n
format_int (negsuc n) = codes "-" ++ format_nat (suc n)

offset_of_scan : Option ℤ → ℤ
offset_of_scan none = pos 0
offset_of_scan (some n) = n

unfoldable pub page_offset : Option Text → ℤ
unfolding offset_of_scan
page_offset none = pos 0
page_offset (some cursor) = offset_of_scan (scan_int cursor)

unfoldable pub page_size : Option ℤ → ℤ
page_size none = pos 10
page_size (some (negsuc n)) = negsuc n
page_size (some (pos n)) = if ltb 100 n then pos 100 else pos n

module _ {ℓ} {A : Type ℓ} where
  -- The part of Search behind the transaction.
  unfoldable pub page : ℤ → ℤ → ℕ → List A → Outcome (SearchResult A)
  page offset (negsuc n) total items = panicked
  page offset (pos size) total items =
      let has_next = ltb size (length items) in
      let shown = if has_next then take size items else items in
      found (record {
        items = shown;
        has_next_page = has_next;
        has_previous_page = false;
        start_cursor = format_int offset;
        end_cursor = format_int (add_length offset (length shown));
        total_count = total;
      })

  -- An error of the count, or of the query behind it, ends the search.
  unfoldable pub answer : ℤ → ℤ → Option ℕ → Option (List A) → Outcome (SearchResult A)
  answer offset size none listed = failed
  answer offset size (some total) none = failed
  answer offset size (some total) (some items) = page offset size total items

module _ (u : Unicode) (lib : Library) where
  open lib use {Item, count, find}

  unfoldable pub search : SearchParams → Outcome (SearchResult Item)
  search p =
      let offset = page_offset p.after in
      let size = page_size p.first in
      let cs = search_conditions u p.user_id p.query in
      answer offset size (count cs) (find cs (apply_sorting u p.query) offset (add_length size 1))
