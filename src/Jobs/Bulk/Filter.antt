-- ===== src/Jobs/Bulk/Filter.antt =====
-- internal/jobs/bulk_action.go: the query of a bulk action, and the SQL conditions made of it.
use omnivore_go.Prelude.{
  ℕ, suc, ◌+◌, Text, codes, text_eq, has_prefix, trim_prefix, fields, join, List, [], ◌∷◌, ◌++◌,
  length, if◌then◌else◌,
}

pub record BulkFilter : Type 0 where
  pub state_filter : Text
  pub folder_filter : Text
  pub text_search : Text
  pub label_name : Text

abbrev pub empty_filter : BulkFilter
empty_filter = record { state_filter = []; folder_filter = []; text_search = []; label_name = [] }

-- The words behind `in:`; any other word is no filter.
unfoldable pub in_filter : Text → BulkFilter → BulkFilter
in_filter word f =
    if text_eq word (codes "inbox")
    then record f { folder_filter = codes "inbox" }
    else if text_eq word (codes "archive")
    then record f { state_filter = codes "ARCHIVED" }
    else if text_eq word (codes "trash")
    then record f { state_filter = codes "DELETED" }
    else if text_eq word (codes "following")
    then record f { folder_filter = codes "following" }
    else f

-- The loop over the terms; `remaining` are those of the text search so far.
unfoldable pub parse_terms : List Text → BulkFilter → List Text → BulkFilter
unfolding in_filter
parse_terms [] f remaining = record f { text_search = join remaining (codes " ") }
parse_terms (t ∷ ts) f remaining =
    let for_in = parse_terms ts (in_filter (trim_prefix t (codes "in:")) f) remaining in
    let for_label =
      parse_terms ts (record f { label_name = trim_prefix t (codes "label:") }) remaining in
    let for_text = parse_terms ts f (remaining ++ t ∷ []) in
    if has_prefix t (codes "in:")
    then for_in
    else if has_prefix t (codes "label:")
    then for_label
    else for_text

unfoldable pub parse_bulk_filter : Text → BulkFilter
parse_bulk_filter query = parse_terms (fields query) empty_filter []

-- The arguments of a statement.
pub data Arg : Type 0 where
  text_arg : Text → Arg
  int_arg : ℕ → Arg

-- The conditions of the WHERE clause, each with the numbers of its placeholders.
pub data Clause : Type 0 where
  user_is : ℕ → Clause
  state_is : ℕ → Clause
  not_deleted : Clause
  folder_is : ℕ → Clause
  has_label : ℕ → Clause
  text_like : ℕ → ℕ → Clause
  state_not_in : List Text → Clause

-- `parts`, `args` and `n` of filterClause
pub record Parts : Type 0 where
  pub parts : List Clause
  pub args : List Arg
  pub next : ℕ

unfoldable pub add_part : (ℕ → Clause) → Arg → Parts → Parts
add_part clause arg p = record {
  parts = p.parts ++ clause p.next ∷ [];
  args = p.args ++ arg ∷ [];
  next = suc p.next;
}

unfoldable pub add_state : BulkFilter → Parts → Parts
add_state f p =
    if text_eq f.state_filter []
    then record p { parts = p.parts ++ not_deleted ∷ [] }
    else add_part state_is (text_arg f.state_filter) p

unfoldable pub add_folder : BulkFilter → Parts → Parts
add_folder f p =
    if text_eq f.folder_filter [] then p else add_part folder_is (text_arg f.folder_filter) p

unfoldable pub add_label : BulkFilter → Parts → Parts
add_label f p = if text_eq f.label_name [] then p else add_part has_label (text_arg f.label_name) p

unfoldable pub add_text : BulkFilter → Parts → Parts
add_text f p =
    if text_eq f.text_search []
    then p
    else add_part (λ n. text_like n n) (text_arg (codes "%" ++ (f.text_search ++ codes "%"))) p

unfoldable pub filter_clause : BulkFilter → List Arg → Parts
filter_clause f args = add_text f (
    add_label f
      (add_folder f (add_state f (record { parts = []; args = args; next = length args + 1 }))))
