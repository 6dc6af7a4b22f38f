-- ===== src/Jobs/Bulk/Tests.antt =====
-- Bulk actions over a small shelf, and the theorems at concrete inputs.
use omnivore_go.Prelude.{
  min, Text, codes, text_eq, fields, join, has_prefix, trim_prefix, is_space, not, ◌&&◌, List, [],
  ◌∷◌, none, some, ◌≡◌, ◌≢◌, refl, arith,
}
use omnivore_go.Prelude.Int.{pos, negsuc}
use omnivore_go.Jobs.Bulk.Filter.{
  BulkFilter, parse_bulk_filter, parse_terms, in_filter, filter_clause, add_state, add_folder,
  add_label, add_text, add_part, int_arg,
}
use omnivore_go.Jobs.Bulk.Items.{
  Item, Picks, count, holds_all, holds, text_test, arg_at, member, change_item, set_read,
}
use omnivore_go.Jobs.Bulk.Action.{
  BulkActionData, processed, unfinished, statement, guard_of, next_limit, update_batch, after_batch,
  bulk_loop, bulk_archive, bulk_delete, bulk_mark_as_read, handle_bulk_action, or_default,
  batch_size_of, total_of,
}
use omnivore_go.Jobs.Bulk.Matches.{matches}
use omnivore_go.Jobs.Bulk.Selects.{statement-selects}
use omnivore_go.Jobs.Bulk.Totals.{Archived, to_archive, bulk_archive-Picks}
use omnivore_go.Jobs.Bulk.Finishes.{handle_bulk_action-finishes}
use omnivore_go.Jobs.Bulk.Sample.{shelf, three_items, never_like}

abbrev in_inbox : BulkFilter
in_inbox = record {
  state_filter = [];
  folder_filter = codes "inbox";
  text_search = [];
  label_name = [];
}

parsed : parse_bulk_filter (codes "in:inbox") ≡ in_inbox
unfolding parse_bulk_filter parse_terms in_filter fields has_prefix trim_prefix text_eq join
    is_space
parsed = refl

abbrev ann : Text
ann = codes "ann"

abbrev after_archive : List Item
after_archive = (bulk_archive shelf ann in_inbox 1 10 three_items).1

archived : bulk_archive shelf ann in_inbox 1 10 three_items ≡ (processed 2, after_archive)
unfolding bulk_archive bulk_loop after_batch next_limit update_batch statement guard_of
    filter_clause add_state add_folder add_label add_text add_part holds_all holds text_test arg_at
    member count change_item text_eq
archived = refl

bulk_archive-Picks_example :
    (2 ≡ min 10 (count (to_archive shelf ann in_inbox) three_items))
    × Picks Archived (to_archive shelf ann in_inbox) 2 three_items after_archive
bulk_archive-Picks_example =
    bulk_archive-Picks shelf ann in_inbox 1 10 2 three_items after_archive (omega arith)
      (omega arith) (omega arith) archived

abbrev after_delete : List Item
after_delete = (bulk_delete shelf ann in_inbox 1 1 three_items).1

deleted : bulk_delete shelf ann in_inbox 1 1 three_items ≡ (processed 1, after_delete)
unfolding bulk_delete bulk_loop after_batch next_limit update_batch statement guard_of filter_clause
    add_state add_folder add_label add_text add_part holds_all holds text_test arg_at member count
    change_item text_eq
deleted = refl

abbrev after_marks : List Item
after_marks = (bulk_mark_as_read shelf ann in_inbox 1 5 three_items).1

marked : bulk_mark_as_read shelf ann in_inbox 1 5 three_items ≡ (processed 5, after_marks)
unfolding bulk_mark_as_read bulk_loop after_batch next_limit update_batch statement guard_of
    filter_clause add_state add_folder add_label add_text add_part holds_all holds text_test arg_at
    member count change_item text_eq
marked = refl

abbrev first_item : Item
first_item = record {
  id = codes "a";
  user_id = ann;
  state = codes "SUCCEEDED";
  folder = codes "inbox";
  label_names = [];
  title = codes "t";
  description = codes "d";
  bottom_percent = 0;
  top_percent = 0;
  read_at = none;
  seen_at = none;
  archived_at = none;
  deleted_at = none;
  updated_at = 0;
}

statement-selects_example :
    (holds_all never_like
        ((statement set_read (codes "DELETED" ∷ []) ann in_inbox 7).1)
        ((statement set_read (codes "DELETED" ∷ []) ann in_inbox 7).0).conditions
        first_item
      ≡ (matches never_like ann in_inbox first_item
          && not (member first_item.state (codes "DELETED" ∷ []))))
    × (arg_at
          ((statement set_read (codes "DELETED" ∷ []) ann in_inbox 7).0).limit
          ((statement set_read (codes "DELETED" ∷ []) ann in_inbox 7).1)
        ≡ some (int_arg 7))
statement-selects_example =
    statement-selects never_like set_read (codes "DELETED" ∷ []) ann in_inbox 7 first_item

abbrev move_all : BulkActionData
move_all = record {
  count = negsuc 0;
  user_id = ann;
  action = codes "MOVE_TO_FOLDER";
  query = codes "in:inbox";
  batch_size = pos 0;
  label_ids = [];
  args = some (codes "following");
}

handle_bulk_action-finishes_example :
    (handle_bulk_action shelf (some move_all) three_items).0 ≢ unfinished
unfolding total_of batch_size_of or_default
handle_bulk_action-finishes_example =
    handle_bulk_action-finishes shelf move_all three_items (omega arith) (omega arith)
