-- ===== src/Jobs/ReadPositions/Forward.antt =====
-- What the job does to the rows of the table.
use omnivore_go.Prelude.{
  ℕ, Text, text_eq, text_eq→eq, true, false, List, Option, none, some, ◌≡◌, ◌⊎◌, refl, arith,
  Bool-cases, inl, inr,
}
use omnivore_go.Prelude.Pairs.{Pairs, Pairs-refl, Pairs-map}
use omnivore_go.Jobs.ReadPositions.Sets.{split_key, members_of}
use omnivore_go.Jobs.ReadPositions.Sync.{
  Floats, ReadingProgressEntry, ProgressRow, Maxima, Store, Moment, raised, same, is_target,
  has_progress, set_progress, update_row, removed, write, sync_members, sync_ids, sync_read_key,
}

module _ (floats : Floats) where
  open floats use {Float, float_zero, lt, lt_asym, lt_tri}

  -- Not below the value before, or reset to zero.
  abbrev pub IsForward : Float → Float → Type 0
  IsForward a b = (lt b a ≡ false) ⊎ (b ≡ float_zero)

  -- The row is as before, or it is the item and the user of the ids and has both percentages
  -- moved forward.
  abbrev pub Moves : Option (Text × Text) → ProgressRow floats → ProgressRow floats → Type 0
  Moves ids r after =
      (after ≡ r)
      ⊎ ((ids ≡ some (r.user_id, r.id))
          × IsForward r.reading_progress_top_percent after.reading_progress_top_percent
          × IsForward r.reading_progress_bottom_percent after.reading_progress_bottom_percent)

  irreflexive : (a : Float) → lt a a ≡ false
  irreflexive a = ground (arith, lt_asym a a)

  names_target :
      (user item : Text) (r : ProgressRow floats)
      → is_target floats user item r ≡ true
      → ◌≡◌ {A = Option (Text × Text)} (some (user, item)) (some (r.user_id, r.id))
  unfolding is_target
  names_target user item r t = elim (Bool-cases (text_eq r.id item)) [
    | inl e ↦ elim (Bool-cases (text_eq r.user_id user)) [
      | inl f ↦
          let same_item = text_eq→eq r.id item e in
          let same_user = text_eq→eq r.user_id user f in cc
      | inr f ↦ absurd (ground (arith, t, e, f))
    ]
    | inr e ↦ absurd (ground (arith, t, e))
  ]

  raised-IsForward : (a b : Float) → IsForward a (raised floats a b)
  unfolding raised same
  raised-IsForward a b = elim (Bool-cases (lt a b)) [
    | inl e ↦ rw e (inl (lt_asym a b e))
    | inr e ↦ elim (Bool-cases (same floats b float_zero)) [
      | inl z ↦ rw (e, z) (inr refl)
      | inr z ↦ rw (e, z) (inl (irreflexive _))
    ]
  ]

  update_row-Moves :
      (now : ℕ) (user item : Text) (m : Maxima floats) (r : ProgressRow floats)
      → Moves (some (user, item)) r (update_row floats now user item m r)
  unfolding update_row is_target set_progress
  update_row-Moves now user item m r = elim (Bool-cases (is_target floats user item r)) [
    | inl t ↦ elim (Bool-cases (has_progress floats m r)) [
      | inl p ↦
          rw (t, p) (inr (names_target user item r t, raised-IsForward _ _, raised-IsForward _ _))
      | inr p ↦ rw (t, p) (inl refl)
    ]
    | inr t ↦ rw t (inl refl)
  ]

  module _ (parse : Text → Option (ReadingProgressEntry floats)) where
    write-Moves :
        (w : Moment) (key user item : Text) (ms : List Text) (o : Option (Maxima floats))
        (s : Store floats)
        → Pairs
            (Moves (some (user, item)))
            s.rows
            (write floats parse w key user item ms o s).1.rows
    unfolding write removed
    write-Moves w key user item ms none s = Pairs-refl _ (λ r. inl refl) s.rows
    write-Moves w key user item ms (some m) s = elim (Bool-cases w.update_fails) [
      | inl e ↦ rw e (Pairs-refl _ (λ r. inl refl) s.rows)
      | inr e ↦
          let moved =
            Pairs-map (Moves (some (user, item))) (update_row floats w.now user item m)
              (update_row-Moves w.now user item m) s.rows in
          elim (Bool-cases w.remove_fails) [ inl f ↦ rw (e, f) moved | inr f ↦ rw (e, f) moved ]
    ]

    sync_ids-Moves :
        (w : Moment) (key : Text) (ids : Option (Text × Text)) (s : Store floats)
        → Pairs (Moves ids) s.rows (sync_ids floats parse w key ids s).1.rows
    unfolding sync_ids sync_members write removed
    sync_ids-Moves w key none s = Pairs-refl _ (λ r. inl refl) s.rows
    sync_ids-Moves w key (some (user, item)) s = elim (Bool-cases w.read_fails) [
      | inl e ↦ rw e (Pairs-refl _ (λ r. inl refl) s.rows)
      | inr e ↦ rw e (write-Moves w key user item (members_of key s.sets) _ s)
    ]

    -- Whatever the buffer holds and whatever fails, a row is left as it is, or the key names its
    -- user and its item, and neither of its percentages falls, except to zero.
    pub sync_read_key-Moves :
        (w : Moment) (key : Text) (s : Store floats)
        → Pairs (Moves (split_key key)) s.rows (sync_read_key floats parse w key s).1.rows
    unfolding sync_read_key
    sync_read_key-Moves w key s = sync_ids-Moves w key (split_key key) s
