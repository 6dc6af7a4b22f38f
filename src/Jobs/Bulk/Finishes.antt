-- ===== src/Jobs/Bulk/Finishes.antt =====
-- Every bulk action ends.
use omnivore_go.Prelude.{
  ℕ, suc, zero, ◌+◌, ◌^◌, ◌≤◌, ◌<◌, Text, codes, Bool, true, false, List, [], ◌∷◌, ◌++◌, Option,
  none, some, length, ◌≡◌, ◌≢◌, refl, sym, ap, arith, if◌then◌else◌,
}
use omnivore_go.Prelude.Int.{ℤ, pos, negsuc}
use omnivore_go.Jobs.Bulk.Filter.{
  BulkFilter, Arg, text_arg, int_arg, filter_clause, parse_bulk_filter, user_is,
}
use omnivore_go.Jobs.Bulk.Items.{
  Database, Update, Change, set_archived, set_deleted, set_read, set_seen, arg_at,
}
use omnivore_go.Jobs.Bulk.Arguments.{arg_at-end}
use omnivore_go.Jobs.Bulk.Selects.{statement-limit, folder_statement-limit}
use omnivore_go.Jobs.Bulk.Action.{
  BulkActionData, Outcome, processed, unfinished, statement, folder_statement, update_batch,
  label_batch, label_selected, committed, add_labels_to_all, bulk_loop, no_rows, fewer_rows,
  bulk_archive, bulk_delete, bulk_mark_as_read, bulk_mark_as_seen, bulk_move_to_folder,
  bulk_add_labels, move_to_parsed, parse_folder_arg, or_default, batch_size_of, total_of,
  handle_bulk_action,
}
use omnivore_go.Jobs.Bulk.Rounds.{bulk_loop-finishes}

or_default-pos : (z : ℤ) (default : ℕ) → 0 < default → 0 < or_default z default
unfolding or_default
or_default-pos (pos zero) default h = h
or_default-pos (pos (suc n)) default h = omega arith
or_default-pos (negsuc n) default h = h

batch_size_of-pos : (d : BulkActionData) → 0 < batch_size_of d
unfolding batch_size_of
batch_size_of-pos d = or_default-pos d.batch_size 100 (omega arith)

processed_ne : (n : ℕ) → processed n ≢ unfinished
processed_ne n h = cc

some_inj : (m n : ℕ) → some m ≡ some n → m ≡ n
some_inj m n e = cc

module _ (db : Database) where
  open db use {Store, items, commit, select_ids}

  either-finishes :
      (b : Bool) (x y : Outcome × Store)
      → x.0 ≢ unfinished
      → y.0 ≢ unfinished
      → (if b then x else y).0 ≢ unfinished
  either-finishes true x y h k = h
  either-finishes false x y h k = k

  update_batch-bounded :
      (sql : ℕ → Update × List Arg) (user : Text) (limit n : ℕ) (s s' : Store)
      → arg_at ((sql limit).0).limit ((sql limit).1) ≡ some (int_arg limit)
      → update_batch db sql user limit s ≡ (some n, s')
      → n ≤ limit
  unfolding update_batch
  update_batch-bounded sql user limit n s s' e h =
      let (many, picks) = db.update_lem user ((sql limit).0) ((sql limit).1) limit n s s' h e in
      omega (arith, many)

  committed-count :
      (m n : ℕ) (r : Bool × Store) (s' : Store) → committed db m r ≡ (some n, s') → n ≡ m
  unfolding committed
  committed-count m n (false, s) s' h = let bad = ap (λ r. r.0) h in absurd (cc)
  committed-count m n (true, s) s' h = sym (some_inj m n (ap (λ r. r.0) h))

  label_selected-count :
      (labels : List Text) (s s' : Store) (o : Option (List Text)) (n limit : ℕ)
      → ((ids : List Text) → o ≡ some ids → length ids ≤ limit)
      → label_selected db labels s o ≡ (some n, s')
      → n ≤ limit
  unfolding label_selected
  label_selected-count labels s s' none n limit few h = let bad = ap (λ r. r.0) h in absurd (cc)
  label_selected-count labels s s' (some ids) n limit few h =
      let e = committed-count (length ids) n (commit (add_labels_to_all db ids labels s)) s' h in
      omega (arith, e, few ids refl)

  label_batch-bounded :
      (labels : List Text) (f : BulkFilter) (user : Text) (limit n : ℕ) (s s' : Store)
      → label_batch db labels f user limit s ≡ (some n, s')
      → n ≤ limit
  unfolding label_batch
  label_batch-bounded labels f user limit n s s' h =
      let p = filter_clause f (text_arg user ∷ []) in
      let args = p.args ++ int_arg limit ∷ [] in
      label_selected-count labels s s'
        (select_ids user (user_is 1 ∷ p.parts) (length p.args + 1) args s) n limit
        (λ ids e.
          let many =
            db.select_ids_lem user (user_is 1 ∷ p.parts) (length p.args + 1) args limit s ids e
              (arg_at-end p.args (int_arg limit)) in
          omega (arith, many))
        h

  module _ (batch total : ℕ) (some_batch : 0 < batch) (small : total < 2 ^ 62)
      (small_batch : batch < 2 ^ 62) where
    updates-finish :
        (sql : ℕ → Update × List Arg) (user : Text) (s : Store)
        → ((limit : ℕ) → arg_at ((sql limit).0).limit ((sql limit).1) ≡ some (int_arg limit))
        → (bulk_loop db (update_batch db sql user) (no_rows db) batch total (suc total) 0 s).0
          ≢ unfinished
    updates-finish sql user s e =
        bulk_loop-finishes db (update_batch db sql user) (no_rows db)
          (λ limit n t t' h. update_batch-bounded sql user limit n t t' (e limit) h)
          (λ limit h. refl) batch total some_batch small small_batch (suc total) 0 s (omega arith)

    labels-finish :
        (user : Text) (f : BulkFilter) (labels : List Text) (s : Store)
        → (bulk_add_labels db user f batch total labels s).0 ≢ unfinished
    unfolding bulk_add_labels
    labels-finish user f [] s = λ h. cc
    labels-finish user f (l ∷ ls) s =
        bulk_loop-finishes db (label_batch db (l ∷ ls) f user) (fewer_rows db)
          (λ limit n t t' h. label_batch-bounded (l ∷ ls) f user limit n t t' h)
          (λ limit h. ground (arith, h)) batch total some_batch small small_batch (suc total) 0 s
          (omega arith)

    move-finishes :
        (o : Option Text) (user : Text) (f : BulkFilter) (s : Store)
        → (move_to_parsed db o user f batch total s).0 ≢ unfinished
    unfolding move_to_parsed bulk_move_to_folder
    move-finishes none user f s = λ h. cc
    move-finishes (some folder) user f s =
        updates-finish (folder_statement folder user f) user s
          (folder_statement-limit db.ilike folder user f)

    changes-finish :
        (change : Change) (excluded : List Text) (user : Text) (f : BulkFilter) (s : Store)
        → (bulk_loop db
            (update_batch db (statement change excluded user f) user)
            (no_rows db)
            batch
            total
            (suc total)
            0
            s).0
          ≢ unfinished
    changes-finish change excluded user f s =
        updates-finish (statement change excluded user f) user s
          (statement-limit db.ilike change excluded user f)

  -- A bulk action whose count and batch size are below 2^62 ends, with the fuel that the model
  -- gives it, whatever the database answers: one that is unknown, or has no folder, as well.
  pub handle_bulk_action-finishes :
      (d : BulkActionData) (s : Store)
      → total_of d < 2 ^ 62
      → batch_size_of d < 2 ^ 62
      → (handle_bulk_action db (some d) s).0 ≢ unfinished
  unfolding handle_bulk_action bulk_archive bulk_delete bulk_mark_as_read bulk_mark_as_seen
  handle_bulk_action-finishes d s small small_batch =
      let b = batch_size_of d in
      let n = total_of d in
      let f = parse_bulk_filter d.query in
      let some_batch = batch_size_of-pos d in
      let c1 =
        changes-finish b n some_batch small small_batch set_archived
          (codes "ARCHIVED" ∷ codes "DELETED" ∷ []) d.user_id f s in
      let c2 =
        changes-finish b n some_batch small small_batch set_deleted (codes "DELETED" ∷ []) d.user_id
          f s in
      let c3 = changes-finish b n some_batch small small_batch set_read [] d.user_id f s in
      let c4 = changes-finish b n some_batch small small_batch set_seen [] d.user_id f s in
      let c5 = labels-finish b n some_batch small small_batch d.user_id f d.label_ids s in
      let c6 =
        move-finishes b n some_batch small small_batch (parse_folder_arg d.args) d.user_id f s in
      either-finishes _ _ _ c1 (
        either-finishes _ _ _ c2 (
          either-finishes _ _ _ c3 (
            either-finishes _ _ _ c4
              (either-finishes _ _ _ c5 (either-finishes _ _ _ c6 (processed_ne 0))))))
