-- ===== src/Graphql/Sample.antt =====
-- Tables of two users, and a database of which no call fails.
use omnivore_go.Prelude.{Text, codes, false, List, [], ◌∷◌, ◌++◌, none, some, refl}
use omnivore_go.Graphql.Tables.{Label, Highlight, LibraryItem, Store, Outside}
use omnivore_go.Graphql.Reads.{IsUp}

abbrev newest_id : List Label → Text
newest_id [] = codes "l"
newest_id (l ∷ ls) = l.id ++ codes "l"

abbrev pub outside : Outside
outside = record {
  parse_uuid = λ t. some t;
  new_uuid = λ s. newest_id s.labels;
  lower = λ t. t;
  array_agg_distinct = λ names. names;
  to_real = λ x. x;
  to_real-twice = λ x. refl;
  to_micros = λ t. t;
  to_micros-twice = λ t. refl;
  parse_time = λ t. none;
  now = λ s. 7;
  saved_now = λ s. 8;
  fails = λ c s. false;
}

pub outside-IsUp : IsUp outside
outside-IsUp c s = refl

abbrev pub item_of_ann : LibraryItem
item_of_ann = record {
  id = codes "i1";
  user_id = codes "ann";
  title = some (codes "Old");
  description = none;
  state = codes "DELETED";
  archived_at = none;
  reading_progress_percent = 40;
  saved_at = 1;
  updated_at = 2;
  label_names = [];
}

abbrev pub highlight_of_ann : Highlight
highlight_of_ann = record {
  id = codes "h1";
  user_id = codes "ann";
  library_item_id = codes "i1";
  short_id = codes "s1";
  highlight_type = codes "HIGHLIGHT";
  quote = some (codes "quoted");
  annotation = none;
  patch = none;
  color = none;
  created_at = 1;
  updated_at = 1;
}

abbrev pub tables : Store
tables = record {
  items = item_of_ann ∷ [];
  labels = [];
  assigned = [];
  highlights = highlight_of_ann ∷ [];
}
