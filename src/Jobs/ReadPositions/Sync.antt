-- ===== src/Jobs/ReadPositions/Sync.antt =====
-- internal/jobs/sync_read_positions.go: the largest progress of the buffered entries, the UPDATE
-- and the SCAN loop.
use omnivore_go.Prelude.{
  ℕ, ◌+◌, ◌*◌, ltb, Text, text_eq, Bool, true, false, ◌||◌, ◌&&◌, not, List, [], ◌∷◌, Option, none,
  some, ◌≡◌, map, ◌==◌, if◌then◌else◌,
}
use omnivore_go.Prelude.Int.{ℤ, pos, negsuc}
use omnivore_go.Jobs.ReadPositions.Sets.{members_of, remove_members, split_key}

-- float64, and the casts of PostgreSQL between its numbers. A NaN is not in JSON, and the two
-- zeros of a float64 are one here.
pub record Floats : Type 1 where
  pub Float : Type 0
  pub float_zero : Float
  pub lt : Float → Float → Bool
  -- The cast of a parameter to real, that of an integer to real and to double, and that of a real
  -- to an integer column
  pub to_real : Float → Float
  pub real_of_int : ℤ → Float
  pub double_of_int : ℤ → Float
  pub int_of_real : Float → ℤ
  pub lt_asym : (a b : Float) → lt a b ≡ true → lt b a ≡ false
  pub lt_trans : (a b c : Float) → lt a b ≡ true → lt b c ≡ true → lt a c ≡ true
  pub lt_tri : (a b : Float) → lt a b ≡ false → lt b a ≡ false → a ≡ b

-- anchorIndex starts at 0, so that a negative index never replaces it.
unfoldable pub larger_anchor : ℕ → ℤ → ℕ
larger_anchor found (pos n) = if ltb found n then n else found
larger_anchor found (negsuc n) = found

-- 60*time.Second
abbrev pub fresh_for : ℕ
fresh_for = 60 * 1000000000

-- time.Since(mostRecent) < 60*time.Second
unfoldable pub is_fresh : ℕ → ℕ → Bool
is_fresh clock recent = ltb clock (recent + fresh_for)

-- The times of the Go process and of the transaction, and what fails, while one key is handled
pub record Moment : Type 0 where
  pub clock : ℕ
  pub now : ℕ
  pub read_fails : Bool
  pub update_fails : Bool
  pub remove_fails : Bool

module _ (floats : Floats) where
  open floats use {Float, float_zero, lt, to_real, real_of_int, double_of_int, int_of_real}

  -- The times are in nanoseconds since the zero time.
  pub record ReadingProgressEntry : Type 0 where
    pub reading_progress_percent : Float
    pub reading_progress_top_percent : Float
    pub reading_progress_anchor_index : ℤ
    pub updated_at : ℕ

  -- The columns of library_item that the job reads and writes
  pub record ProgressRow : Type 0 where
    pub id : Text
    pub user_id : Text
    pub reading_progress_top_percent : Float
    pub reading_progress_bottom_percent : Float
    pub reading_progress_highest_read_anchor : ℤ
    pub read_at : ℕ

  -- The local variables topPercent, bottomPercent and anchorIndex
  pub record Maxima : Type 0 where
    pub top_percent : Float
    pub bottom_percent : Float
    pub anchor_index : ℕ

  unfoldable pub larger : Float → Float → Float
  larger found x = if lt found x then x else found

  unfoldable pub widen : Maxima → ReadingProgressEntry → Maxima
  widen m e = record {
    top_percent = larger m.top_percent e.reading_progress_top_percent;
    bottom_percent = larger m.bottom_percent e.reading_progress_percent;
    anchor_index = larger_anchor m.anchor_index e.reading_progress_anchor_index;
  }

  unfoldable pub aggregate : Maxima → List ReadingProgressEntry → Maxima
  aggregate m [] = m
  aggregate m (e ∷ es) = aggregate (widen m e) es

  unfoldable pub later : ℕ → ReadingProgressEntry → ℕ
  later found e = if ltb found e.updated_at then e.updated_at else found

  unfoldable pub most_recent : ℕ → List ReadingProgressEntry → ℕ
  most_recent t [] = t
  most_recent t (e ∷ es) = most_recent (later t e) es

  unfoldable pub keep :
      Option ReadingProgressEntry → List ReadingProgressEntry → List ReadingProgressEntry
  keep none es = es
  keep (some e) es = e ∷ es

  -- An equality test of SQL on floats
  unfoldable pub same : Float → Float → Bool
  same a b = not (lt a b) && not (lt b a)

  -- CASE WHEN the column < the value THEN the value WHEN the value = 0 THEN 0 ELSE the column END
  unfoldable pub raised : Float → Float → Float
  raised column value =
      if lt column value then value else if same value float_zero then float_zero else column

  -- The CASE of reading_progress_highest_read_anchor, which tests the column of the top percent
  unfoldable pub anchor_case : ProgressRow → ℕ → ℤ
  anchor_case r anchor =
      let value = real_of_int (pos anchor) in
      int_of_real (
        if lt r.reading_progress_top_percent value
        then value
        else if anchor == 0
        then real_of_int (pos 0)
        else real_of_int r.reading_progress_highest_read_anchor)

  -- The WHERE of the UPDATE, after those on id and user_id
  unfoldable pub has_progress : Maxima → ProgressRow → Bool
  has_progress m r =
      let top = to_real m.top_percent in
      let bottom = to_real m.bottom_percent in
      (lt r.reading_progress_top_percent top || same top float_zero)
      || ((lt r.reading_progress_bottom_percent bottom || same bottom float_zero)
          || (lt (double_of_int r.reading_progress_highest_read_anchor)
                (real_of_int (pos m.anchor_index))
              || m.anchor_index == 0))

  unfoldable pub is_target : Text → Text → ProgressRow → Bool
  is_target user item r = text_eq r.id item && text_eq r.user_id user

  unfoldable pub set_progress : ℕ → Maxima → ProgressRow → ProgressRow
  set_progress now m r = record {
    id = r.id;
    user_id = r.user_id;
    reading_progress_top_percent = raised r.reading_progress_top_percent (to_real m.top_percent);
    reading_progress_bottom_percent =
        raised r.reading_progress_bottom_percent (to_real m.bottom_percent);
    reading_progress_highest_read_anchor = anchor_case r m.anchor_index;
    read_at = now;
  }

  -- The UPDATE at one row
  unfoldable pub update_row : ℕ → Text → Text → Maxima → ProgressRow → ProgressRow
  update_row now user item m r =
      if is_target user item r && has_progress m r then set_progress now m r else r

  -- The table, and the sets of Redis by their keys
  pub record Store : Type 0 where
    pub rows : List ProgressRow
    pub sets : List (Text × List Text)

  abbrev pub nothing : Maxima
  nothing = record { top_percent = float_zero; bottom_percent = float_zero; anchor_index = 0 }

  -- The part of syncReadKey between the read of the set and the removal. What it gives is the
  -- progress to write, if there is any.
  unfoldable pub to_write : ℕ → List ReadingProgressEntry → Option Maxima
  to_write clock [] = none
  to_write clock (e ∷ es) =
      if is_fresh clock (most_recent 0 (e ∷ es)) then none else some (aggregate nothing (e ∷ es))

  -- encoding/json at a reading-progress entry
  module _ (parse : Text → Option ReadingProgressEntry) where
    unfoldable pub decode : List Text → List ReadingProgressEntry
    decode [] = []
    decode (m ∷ ms) = keep (parse m) (decode ms)

    -- The removal, whose failure is only logged
    unfoldable pub removed : Moment → Text → List Text → Store → Store
    removed w key ms s =
        if w.remove_fails then s else record { rows = s.rows; sets = remove_members key ms s.sets }

    -- The UPDATE and the removal; the Boolean says that no error is returned.
    unfoldable pub write :
        Moment → Text → Text → Text → List Text → Option Maxima → Store → Bool × Store
    write w key user item ms none s = (true, s)
    write w key user item ms (some m) s = if w.update_fails then (false, s) else (
      true,
      removed w key ms (record { rows = map (update_row w.now user item m) s.rows; sets = s.sets }),
    )

    unfoldable pub sync_members : Moment → Text → Text → Text → List Text → Store → Bool × Store
    sync_members w key user item ms s = write w key user item ms (to_write w.clock (decode ms)) s

    unfoldable pub sync_ids : Moment → Text → Option (Text × Text) → Store → Bool × Store
    sync_ids w key none s = (false, s)
    sync_ids w key (some (user, item)) s =
        if w.read_fails then (false, s) else sync_members w key user item (members_of key s.sets) s

    -- syncReadKey
    unfoldable pub sync_read_key : Moment → Text → Store → Bool × Store
    sync_read_key w key s = sync_ids w key (split_key key) s

    -- The keys of one reply of SCAN. An error at a key is logged.
    unfoldable pub sync_keys : List (Moment × Text) → Store → Store
    sync_keys [] s = s
    sync_keys ((w, key) ∷ keys) s = sync_keys keys (sync_read_key w key s).1

    -- HandleSyncReadPositions, given the replies of SCAN in order: `none` is an error of it, and
    -- otherwise it is a cursor and keys. The loop ends at cursor 0; what it returns is whether it
    -- had no error, or `none` while the replies run out before.
    unfoldable pub handle_sync_read_positions :
        List (Option (ℕ × List (Moment × Text))) → Store → Option Bool × Store
    handle_sync_read_positions [] s = (none, s)
    handle_sync_read_positions (none ∷ replies) s = (some false, s)
    handle_sync_read_positions (some (cursor, keys) ∷ replies) s =
        let more = handle_sync_read_positions replies (sync_keys keys s) in
        if cursor == 0 then (some true, sync_keys keys s) else more
