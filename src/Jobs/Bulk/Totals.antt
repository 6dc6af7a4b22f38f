-- ===== src/Jobs/Bulk/Totals.antt =====
-- How many items an archive or a deletion of all items that match a query changes.
use omnivore_go.Prelude.{
  ℕ, suc, min, ◌+◌, ◌^◌, ◌<◌, Text, codes, text_eq, Bool, false, ◌&&◌, not, [], ◌∷◌, some, ◌≡◌, ap,
  ◌∙◌, arith,
}
use omnivore_go.Jobs.Bulk.Filter.{BulkFilter}
use omnivore_go.Jobs.Bulk.Items.{
  Database, Item, set_archived, set_deleted, change_item, Picks, count, member,
}
use omnivore_go.Jobs.Bulk.Matches.{matches}
use omnivore_go.Jobs.Bulk.Selects.{statement-selects, statement-limit}
use omnivore_go.Jobs.Bulk.Action.{processed, statement, bulk_archive, bulk_delete}
use omnivore_go.Jobs.Bulk.Rounds.{recount}
use omnivore_go.Jobs.Bulk.Drains.{bulk_loop-Totals}

zero_add : (n : ℕ) → 0 + n ≡ n
zero_add n = omega arith

-- An item that was archived, and one that was deleted.
abbrev pub Archived : Item → Item → Type 0
Archived i j =
    (t : ℕ) × (j ≡ record i { state = codes "ARCHIVED"; archived_at = some t; updated_at = t })

abbrev pub Deleted : Item → Item → Type 0
Deleted i j =
    (t : ℕ) × (j ≡ record i { state = codes "DELETED"; deleted_at = some t; updated_at = t })

module _ (db : Database) (user : Text) (f : BulkFilter) where
  open db use {Store, items, ilike}

  abbrev pub to_archive : Item → Bool
  to_archive i =
      matches ilike user f i && not (member i.state (codes "ARCHIVED" ∷ codes "DELETED" ∷ []))

  abbrev pub to_delete : Item → Bool
  to_delete i = matches ilike user f i && not (member i.state (codes "DELETED" ∷ []))

  Archived-gone : (i j : Item) → Archived i j → to_archive j ≡ false
  unfolding member text_eq
  Archived-gone i j (t, e) = rw e (ground arith)

  Deleted-gone : (i j : Item) → Deleted i j → to_delete j ≡ false
  unfolding member text_eq
  Deleted-gone i j (t, e) = rw e (ground arith)

  archive_change :
      (limit t : ℕ) (i j : Item)
      → j
        ≡ change_item
            ((statement set_archived (codes "ARCHIVED" ∷ codes "DELETED" ∷ []) user f limit).0
              ).change
            ((statement set_archived (codes "ARCHIVED" ∷ codes "DELETED" ∷ []) user f limit).1)
            t
            i
      → Archived i j
  unfolding statement change_item
  archive_change limit t i j e = (t, e)

  -- When bulkArchive ends without an error, with a batch size above 0 and a count and a batch size
  -- below 2^62, it has archived as many of the items of the user that match the filter and are
  -- neither archived nor deleted as there are, but no more than `total`; all other items stay, and
  -- the batch size makes no difference.
  pub bulk_archive-Picks :
      (batch total k : ℕ) (s s' : Store)
      → 0 < batch
      → total < 2 ^ 62
      → batch < 2 ^ 62
      → bulk_archive db user f batch total s ≡ (processed k, s')
      → (k ≡ min total (count to_archive (items s)))
        × Picks Archived to_archive k (items s) (items s')
  unfolding bulk_archive
  bulk_archive-Picks batch total k s s' some_batch small small_batch h =
      let (n, k_is, k_min, picks) =
        bulk_loop-Totals db
          (statement set_archived (codes "ARCHIVED" ∷ codes "DELETED" ∷ []) user f) user Archived
          to_archive
          (λ limit i.
            (statement-selects ilike set_archived (codes "ARCHIVED" ∷ codes "DELETED" ∷ []) user f
              limit i).0)
          (statement-limit ilike set_archived (codes "ARCHIVED" ∷ codes "DELETED" ∷ []) user f)
          archive_change Archived-gone batch total some_batch small small_batch (suc total) 0 k s s'
          (omega arith) h in
      let same : n ≡ k = omega (arith, k_is) in
      (
        k_min ∙ ap (min total) (zero_add (count to_archive (items s))),
        recount Archived to_archive same picks,
      )

  delete_change :
      (limit t : ℕ) (i j : Item)
      → j
        ≡ change_item
            ((statement set_deleted (codes "DELETED" ∷ []) user f limit).0).change
            ((statement set_deleted (codes "DELETED" ∷ []) user f limit).1)
            t
            i
      → Deleted i j
  unfolding statement change_item
  delete_change limit t i j e = (t, e)

  -- When bulkDelete ends without an error, with a batch size above 0 and a count and a batch size
  -- below 2^62, it has deleted as many of the items of the user that match the filter and are not
  -- deleted as there are, but no more than `total`; all other items stay, and the batch size makes
  -- no difference.
  pub bulk_delete-Picks :
      (batch total k : ℕ) (s s' : Store)
      → 0 < batch
      → total < 2 ^ 62
      → batch < 2 ^ 62
      → bulk_delete db user f batch total s ≡ (processed k, s')
      → (k ≡ min total (count to_delete (items s))) × Picks Deleted to_delete k (items s) (items s')
  unfolding bulk_delete
  bulk_delete-Picks batch total k s s' some_batch small small_batch h =
      let (n, k_is, k_min, picks) =
        bulk_loop-Totals db (statement set_deleted (codes "DELETED" ∷ []) user f) user Deleted
          to_delete
          (λ limit i. (statement-selects ilike set_deleted (codes "DELETED" ∷ []) user f limit i).0)
          (statement-limit ilike set_deleted (codes "DELETED" ∷ []) user f) delete_change
          Deleted-gone batch total some_batch small small_batch (suc total) 0 k s s' (omega arith)
          h in
      let same : n ≡ k = omega (arith, k_is) in
      (
        k_min ∙ ap (min total) (zero_add (count to_delete (items s))),
        recount Deleted to_delete same picks,
      )
