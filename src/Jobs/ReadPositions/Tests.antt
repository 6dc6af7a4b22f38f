-- ===== src/Jobs/ReadPositions/Tests.antt =====
-- The theorems at concrete inputs.
use mathlib.Core.List.{Permᴰ}
use omnivore_go.Prelude.{
  ℕ, Text, codes, true, List, [], ◌∷◌, Option, some, ◌≡◌, refl, split_two, contains_rune, before,
  after, text_eq,
}
use omnivore_go.Prelude.Int.{pos}
use omnivore_go.Prelude.Pairs.{Pairs}
use omnivore_go.Jobs.ReadPositions.Sets.{split_key, members_of, remove_members, without, contains}
use omnivore_go.Jobs.ReadPositions.Sync.{
  ProgressRow, Moment, anchor_case, sync_members, sync_read_key, decode, keep, to_write, is_fresh,
  most_recent, later, aggregate, widen, larger, larger_anchor, sync_ids, write, removed, update_row,
  is_target, has_progress, set_progress, raised, same,
}
use omnivore_go.Jobs.ReadPositions.Order.{sync_members-Perm}
use omnivore_go.Jobs.ReadPositions.Forward.{Moves, sync_read_key-Moves}
use omnivore_go.Jobs.ReadPositions.Twice.{buffered}
use omnivore_go.Jobs.ReadPositions.Sample.{
  whole, read_entry, item_row, key_of_item, first_read, second_read, two_reads, quiet_moment,
}

ids_of_key : split_key key_of_item ≡ some (codes "ann", codes "i1")
unfolding split_key split_two contains_rune before after
ids_of_key = refl

-- The anchor is not raised when the top percent is as high as its index.
anchor_stays : anchor_case whole item_row 10 ≡ pos 3
unfolding anchor_case
anchor_stays = refl

-- And an anchor falls that is above the one buffered, while the top percent is low.
anchor_falls :
    anchor_case whole
      (record item_row {
        reading_progress_top_percent = 5;
        reading_progress_highest_read_anchor = pos 40;
      })
      20
    ≡ pos 20
unfolding anchor_case
anchor_falls = refl

abbrev written_row : ProgressRow whole
written_row = record {
  id = codes "i1";
  user_id = codes "ann";
  reading_progress_top_percent = 70;
  reading_progress_bottom_percent = 80;
  reading_progress_highest_read_anchor = pos 3;
  read_at = 9;
}

largest_written :
    (sync_read_key whole read_entry quiet_moment key_of_item two_reads)
    ≡ (true, record { rows = written_row ∷ []; sets = (key_of_item, []) ∷ [] })
unfolding sync_read_key sync_ids sync_members write removed update_row is_target has_progress
    set_progress raised same split_key split_two contains_rune before after text_eq members_of
    remove_members without contains decode keep to_write is_fresh most_recent later aggregate widen
    larger larger_anchor anchor_case
largest_written = refl

sync_read_key-Moves_example :
    Pairs
      (Moves whole (split_key key_of_item))
      two_reads.rows
      (sync_read_key whole read_entry quiet_moment key_of_item two_reads).1.rows
sync_read_key-Moves_example =
    sync_read_key-Moves whole read_entry quiet_moment key_of_item two_reads

abbrev one_reply : List (Option (ℕ × List (Moment × Text)))
one_reply = some (0, (quiet_moment, key_of_item) ∷ (quiet_moment, key_of_item) ∷ []) ∷ []

sync_members-Perm_example :
    ((sync_members whole read_entry quiet_moment key_of_item
        (codes "ann")
        (codes "i1")
        (first_read ∷ second_read ∷ [])
        two_reads).0
      ≡ (sync_members whole read_entry quiet_moment key_of_item
          (codes "ann")
          (codes "i1")
          (second_read ∷ first_read ∷ [])
          two_reads).0)
    × ((sync_members whole read_entry quiet_moment key_of_item
          (codes "ann")
          (codes "i1")
          (first_read ∷ second_read ∷ [])
          two_reads).1.rows
        ≡ (sync_members whole read_entry quiet_moment key_of_item
            (codes "ann")
            (codes "i1")
            (second_read ∷ first_read ∷ [])
            two_reads).1.rows)
sync_members-Perm_example =
    sync_members-Perm whole read_entry quiet_moment key_of_item (codes "ann") (codes "i1")
      (first_read ∷ second_read ∷ []) (second_read ∷ first_read ∷ []) two_reads
      (Permᴰ.swap refl refl)

two_reads-buffered :
    buffered whole read_entry quiet_moment key_of_item two_reads
    ≡ some (record { top_percent = 70; bottom_percent = 80; anchor_index = 10 })
unfolding members_of text_eq decode keep to_write is_fresh most_recent later aggregate widen larger
    larger_anchor
two_reads-buffered = refl
