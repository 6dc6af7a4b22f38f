-- ===== src/Graphql/Tests.antt =====
-- The theorems at concrete inputs.
use omnivore_go.Prelude.{
  Text, codes, text_eq, true, false, List, [], ◌∷◌, Option, none, some, ◌≡◌, refl, sym,
}
use omnivore_go.Graphql.Tables.{
  stored, get_item, get_highlight, find_label_by_name, is_named, insert_label, is_same_label, has,
}
use omnivore_go.Graphql.Inputs.{
  Code, success, refused, CreateLabelInput, UpdatePageInput, given, refuse, written, or_else,
}
use omnivore_go.Graphql.Resolver.{
  Request, signed_in, unless_named, save_label, new_label, create_label, set_link_archived,
  remove_highlight, serve_all,
}
use omnivore_go.Graphql.Own.{Same}
use omnivore_go.Graphql.Isolated.{serve_all-Same}
use omnivore_go.Graphql.Unique.{IsDistinct, serve_all-IsDistinct}
use omnivore_go.Graphql.Reads.{set_link_archived-undo, remove_highlight-foreign}
use omnivore_go.Graphql.Sample.{outside, outside-IsUp, item_of_ann, highlight_of_ann, tables}

abbrev news : CreateLabelInput
news = record { name = codes "News"; color = none; description = none }

second_label_refused :
    (create_label outside
      (some (codes "bob"))
      news
      (create_label outside (some (codes "bob")) news tables).1).0
    ≡ refused Code.label_already_exists
unfolding create_label signed_in given find_label_by_name is_named unless_named save_label new_label
    insert_label is_same_label has written or_else refuse text_eq
second_label_refused = refl

abbrev of_bob : List (Option Text × Request)
of_bob =
    (some (codes "bob"), Request.create_label_request news)
    ∷ (some (codes "bob"), Request.delete_highlight_request (codes "h1"))
    ∷ (some (codes "bob"), Request.set_labels_request (codes "i1") [])
    ∷ (none, Request.archive_request (codes "i1") true)
    ∷ []

not_ann : (u : Text) → some (codes "bob") ≡ some u → text_eq u (codes "ann") ≡ false
unfolding text_eq
not_ann u e = let same : codes "bob" ≡ u = cc e in rw (sym same) refl

serve_all-Same_example : Same (codes "ann") tables (serve_all outside of_bob tables)
serve_all-Same_example =
    serve_all-Same (codes "ann") outside of_bob tables (tt, tt)
      (not_ann, (not_ann, (not_ann, (tt, tt))))

serve_all-IsDistinct_example : IsDistinct outside (serve_all outside of_bob tables).labels
serve_all-IsDistinct_example = serve_all-IsDistinct outside of_bob tables tt

found_item : get_item outside (codes "ann") (codes "i1") tables ≡ some item_of_ann
unfolding get_item text_eq
found_item = refl

set_link_archived-undo_example :
    get_item outside
      (codes "ann")
      (codes "i1")
      (set_link_archived outside
        (some (codes "ann"))
        (codes "i1")
        false
        (set_link_archived outside (some (codes "ann")) (codes "i1") true tables).1).1
    ≡ some (record item_of_ann { state = codes "SUCCEEDED"; archived_at = none; updated_at = 8 })
unfolding stored
set_link_archived-undo_example =
    set_link_archived-undo outside (codes "ann") (codes "i1") (codes "ann") (codes "i1") item_of_ann
      tables outside-IsUp refl refl found_item

abbrev new_title : UpdatePageInput
new_title = record {
  page_id = codes "i1";
  title = some (codes "New");
  description = none;
  saved_at = none;
  reading_progress_percent = none;
  state = some (codes "ARCHIVED");
}

found_highlight : get_highlight outside (codes "h1") tables ≡ some highlight_of_ann
unfolding get_highlight text_eq
found_highlight = refl

foreign : text_eq (codes "ann") (codes "bob") ≡ false
unfolding text_eq
foreign = refl

remove_highlight-foreign_example :
    ((remove_highlight outside (some (codes "bob")) (codes "h1") tables).0
      ≡ success highlight_of_ann)
    × (get_highlight outside
          (codes "h1")
          (remove_highlight outside (some (codes "bob")) (codes "h1") tables).1
        ≡ some highlight_of_ann)
remove_highlight-foreign_example =
    remove_highlight-foreign outside (codes "bob") (codes "bob") (codes "h1") (codes "h1")
      highlight_of_ann tables outside-IsUp refl refl found_highlight foreign
