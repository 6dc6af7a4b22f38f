-- ===== src/Jobs/Bulk/Action.antt =====
-- internal/jobs/bulk_action.go: the batches of each action, and HandleBulkAction.
use omnivore_go.Prelude.{
  ℕ, suc, zero, ◌+◌, ◌-◌, ◌^◌, ltb, Text, codes, text_eq, Bool, true, false, ◌&&◌, List, [], ◌∷◌,
  ◌++◌, Option, none, some, length, ◌==◌, if◌then◌else◌,
}
use omnivore_go.Prelude.Int.{ℤ, pos, negsuc}
use omnivore_go.Jobs.Bulk.Filter.{
  BulkFilter, Arg, text_arg, int_arg, Clause, user_is, state_not_in, filter_clause,
  parse_bulk_filter,
}
use omnivore_go.Jobs.Bulk.Items.{
  Database, Update, Change, set_archived, set_deleted, set_read, set_seen, set_folder,
}

-- A run ends with the number of items that it counted, which is logged, or with an error. `unfinished`: the
-- model's fuel was spent.
pub data Outcome : Type 0 where
  processed : ℕ → Outcome
  failed : Outcome
  unfinished : Outcome

-- `args` is the folder of the raw JSON: `none` where it is empty, or no object of strings, or has no folder.
pub record BulkActionData : Type 0 where
  pub count : ℤ
  pub user_id : Text
  pub action : Text
  pub query : Text
  pub batch_size : ℤ
  pub label_ids : List Text
  pub args : Option Text

-- The limit of the next batch; the sum is an int.
unfoldable pub next_limit : ℕ → ℕ → ℕ → ℕ
next_limit batch total done =
    if ltb (done + batch) (2 ^ 63) && ltb total (done + batch) then total - done else batch

-- A size that is not positive counts as `default`.
unfoldable pub or_default : ℤ → ℕ → ℕ
or_default (pos zero) default = default
or_default (pos (suc n)) default = suc n
or_default (negsuc n) default = default

unfoldable pub batch_size_of : BulkActionData → ℕ
batch_size_of d = or_default d.batch_size 100

unfoldable pub total_of : BulkActionData → ℕ
total_of d = or_default d.count (batch_size_of d)

unfoldable pub parse_folder_arg : Option Text → Option Text
parse_folder_arg none = none
parse_folder_arg (some folder) = if text_eq folder [] then none else some folder

-- The condition that an action adds behind those of the filter.
unfoldable pub guard_of : List Text → List Clause
guard_of [] = []
guard_of (state ∷ states) = state_not_in (state ∷ states) ∷ []

-- The statement of one batch, with its arguments: that of bulkArchive, bulkDelete, bulkMarkAsRead
-- and bulkMarkAsSeen, and that of bulkMoveToFolder.
unfoldable pub statement : Change → List Text → Text → BulkFilter → ℕ → Update × List Arg
unfolding guard_of
statement change excluded user f limit =
    let p = filter_clause f (text_arg user ∷ []) in
    (
      record {
        change = change;
        conditions = user_is 1 ∷ p.parts ++ guard_of excluded;
        limit = length p.args + 1;
      },
      p.args ++ int_arg limit ∷ [],
    )

unfoldable pub folder_statement : Text → Text → BulkFilter → ℕ → Update × List Arg
folder_statement folder user f limit =
    let p = filter_clause f (text_arg user ∷ []) in
    (
      record {
        change = set_folder (length p.args + 1);
        conditions = user_is 1 ∷ p.parts;
        limit = (length p.args + 1) + 1;
      },
      (p.args ++ text_arg folder ∷ []) ++ int_arg limit ∷ [],
    )

module _ (db : Database) where
  open db use {Store, update, select_ids, insert_label, commit}

  -- One batch: a statement with a limit, run in a transaction of its own.
  unfoldable pub update_batch : (ℕ → Update × List Arg) → Text → ℕ → Store → Option ℕ × Store
  update_batch sql user limit s = update user ((sql limit).0) ((sql limit).1) s

  unfoldable pub add_labels_to : Text → List Text → Store → Store
  add_labels_to item [] s = s
  add_labels_to item (l ∷ ls) s = add_labels_to item ls ((insert_label item l s).1)

  unfoldable pub add_labels_to_all : List Text → List Text → Store → Store
  add_labels_to_all [] labels s = s
  add_labels_to_all (i ∷ is) labels s = add_labels_to_all is labels (add_labels_to i labels s)

  unfoldable pub committed : ℕ → Bool × Store → Option ℕ × Store
  committed n (false, s) = (none, s)
  committed n (true, s) = (some n, s)

  unfoldable pub label_selected : List Text → Store → Option (List Text) → Option ℕ × Store
  unfolding committed
  label_selected labels s none = (none, s)
  label_selected labels s (some ids) =
      committed (length ids) (commit (add_labels_to_all ids labels s))

  -- One batch of bulkAddLabels
  unfoldable pub label_batch : List Text → BulkFilter → Text → ℕ → Store → Option ℕ × Store
  unfolding label_selected
  label_batch labels f user limit s =
      let p = filter_clause f (text_arg user ∷ []) in
      label_selected labels s
        (select_ids user (user_is 1 ∷ p.parts) (length p.args + 1) (p.args ++ int_arg limit ∷ []) s)

  -- What follows one batch: the number of its rows, and whether the loop ends with it.
  unfoldable pub after_batch :
      (ℕ → Store → Outcome × Store) → (ℕ → Bool) → ℕ → Option ℕ × Store → Outcome × Store
  after_batch again is_last done (none, s) = (failed, s)
  after_batch again is_last done (some rows, s) =
      if is_last rows then (processed (done + rows), s) else again (done + rows) s

  -- The loop of all actions: `is_last` tells from the limit and the rows of a batch whether it is the last.
  unfoldable pub bulk_loop :
      (ℕ → Store → Option ℕ × Store) → (ℕ → ℕ → Bool) → ℕ → ℕ → ℕ → ℕ → Store → Outcome × Store
  bulk_loop step is_last batch total zero done s = (unfinished, s)
  bulk_loop step is_last batch total (suc fuel) done s =
      let limit = next_limit batch total done in
      let rest =
        after_batch (bulk_loop step is_last batch total fuel) (is_last limit) done (step limit s) in
      if ltb done total then rest else (processed done, s)

  abbrev pub no_rows : ℕ → ℕ → Bool
  no_rows limit rows = rows == 0

  abbrev pub fewer_rows : ℕ → ℕ → Bool
  fewer_rows limit rows = ltb rows limit

  -- Every batch but the last counts an item, so `total` batches and the test behind them are enough.
  unfoldable pub bulk_archive : Text → BulkFilter → ℕ → ℕ → Store → Outcome × Store
  bulk_archive user f batch total s =
      bulk_loop
        (update_batch (statement set_archived (codes "ARCHIVED" ∷ codes "DELETED" ∷ []) user f)
          user)
        no_rows batch total (suc total) 0 s

  unfoldable pub bulk_delete : Text → BulkFilter → ℕ → ℕ → Store → Outcome × Store
  bulk_delete user f batch total s =
      bulk_loop (update_batch (statement set_deleted (codes "DELETED" ∷ []) user f) user) no_rows
        batch total (suc total) 0 s

  unfoldable pub bulk_mark_as_read : Text → BulkFilter → ℕ → ℕ → Store → Outcome × Store
  bulk_mark_as_read user f batch total s =
      bulk_loop (update_batch (statement set_read [] user f) user) no_rows batch total (suc total) 0
        s

  unfoldable pub bulk_mark_as_seen : Text → BulkFilter → ℕ → ℕ → Store → Outcome × Store
  bulk_mark_as_seen user f batch total s =
      bulk_loop (update_batch (statement set_seen [] user f) user) no_rows batch total (suc total) 0
        s

  unfoldable pub bulk_move_to_folder : Text → BulkFilter → ℕ → ℕ → Text → Store → Outcome × Store
  bulk_move_to_folder user f batch total folder s =
      bulk_loop (update_batch (folder_statement folder user f) user) no_rows batch total (suc total)
        0 s

  unfoldable pub bulk_add_labels : Text → BulkFilter → ℕ → ℕ → List Text → Store → Outcome × Store
  bulk_add_labels user f batch total [] s = (processed 0, s)
  bulk_add_labels user f batch total (l ∷ ls) s =
      bulk_loop (label_batch (l ∷ ls) f user) fewer_rows batch total (suc total) 0 s

  unfoldable pub move_to_parsed : Option Text → Text → BulkFilter → ℕ → ℕ → Store → Outcome × Store
  move_to_parsed none user f batch total s = (failed, s)
  move_to_parsed (some folder) user f batch total s =
      bulk_move_to_folder user f batch total folder s

  -- `none` is a payload that is no JSON of the type.
  unfoldable pub handle_bulk_action : Option BulkActionData → Store → Outcome × Store
  handle_bulk_action none s = (failed, s)
  handle_bulk_action (some d) s =
      let batch = batch_size_of d in
      let total = total_of d in
      let f = parse_bulk_filter d.query in
      if text_eq d.action (codes "ARCHIVE")
      then bulk_archive d.user_id f batch total s
      else if text_eq d.action (codes "DELETE")
      then bulk_delete d.user_id f batch total s
      else if text_eq d.action (codes "MARK_AS_READ")
      then bulk_mark_as_read d.user_id f batch total s
      else if text_eq d.action (codes "MARK_AS_SEEN")
      then bulk_mark_as_seen d.user_id f batch total s
      else if text_eq d.action (codes "ADD_LABELS")
      then bulk_add_labels d.user_id f batch total d.label_ids s
      else if text_eq d.action (codes "MOVE_TO_FOLDER")
      then move_to_parsed (parse_folder_arg d.args) d.user_id f batch total s
      else (processed 0, s)
