-- ===== src/Jobs/ReadPositions/Sample.antt =====
-- Percentages that are natural numbers, and a table with one item of which two reads are buffered.
use omnivore_go.Prelude.{ℕ, ltb, Text, codes, true, false, [], ◌∷◌, Option, none, some, ◌≡◌, arith}
use omnivore_go.Prelude.Int.{ℤ, pos, negsuc}
use omnivore_go.Jobs.ReadPositions.Sync.{Floats, ReadingProgressEntry, ProgressRow, Store, Moment}

abbrev at_least_zero : ℤ → ℕ
at_least_zero (pos n) = n
at_least_zero (negsuc n) = 0

pub ltb_asym : (a b : ℕ) → ltb a b ≡ true → ltb b a ≡ false
ltb_asym a b h = ground arith

pub ltb_trans : (a b c : ℕ) → ltb a b ≡ true → ltb b c ≡ true → ltb a c ≡ true
ltb_trans a b c h k = ground arith

pub ltb_tri : (a b : ℕ) → ltb a b ≡ false → ltb b a ≡ false → a ≡ b
ltb_tri a b h k = ground arith

abbrev pub whole : Floats
whole = record {
  Float = ℕ;
  float_zero = 0;
  lt = ltb;
  to_real = λ a. a;
  real_of_int = at_least_zero;
  double_of_int = at_least_zero;
  int_of_real = pos;
  lt_asym = ltb_asym;
  lt_trans = ltb_trans;
  lt_tri = ltb_tri;
}

-- An entry is four code points.
abbrev pub read_entry : Text → Option (ReadingProgressEntry whole)
read_entry (top ∷ bottom ∷ anchor ∷ at ∷ []) = some (record {
  reading_progress_percent = bottom;
  reading_progress_top_percent = top;
  reading_progress_anchor_index = pos anchor;
  updated_at = at;
})
read_entry _ = none

abbrev pub item_row : ProgressRow whole
item_row = record {
  id = codes "i1";
  user_id = codes "ann";
  reading_progress_top_percent = 50;
  reading_progress_bottom_percent = 60;
  reading_progress_highest_read_anchor = pos 3;
  read_at = 0;
}

abbrev pub key_of_item : Text
key_of_item = codes "omnivore:reading-progress:ann:i1"

abbrev pub first_read : Text
first_read = 70 ∷ 65 ∷ 10 ∷ 5 ∷ []

abbrev pub second_read : Text
second_read = 40 ∷ 80 ∷ 7 ∷ 6 ∷ []

abbrev pub two_reads : Store whole
two_reads = record {
  rows = item_row ∷ [];
  sets = (key_of_item, first_read ∷ second_read ∷ []) ∷ [];
}

abbrev pub quiet_moment : Moment
quiet_moment = record {
  clock = 100000000000;
  now = 9;
  read_fails = false;
  update_fails = false;
  remove_fails = false;
}
