-- ===== src/Jobs/ReadPositions/Twice.antt =====
-- A key that SCAN gives again.
use mathlib.Core.Path.{subst}
use omnivore_go.Prelude.{
  Text, text_eq, text_eq_refl, true, false, List, [], ◌∷◌, Option, none, some, ◌≡◌, refl, sym,
  Bool-cases, inl, inr, arith,
}
use omnivore_go.Jobs.ReadPositions.Sets.{split_key, members_of, contains, without, remove_members}
use omnivore_go.Jobs.ReadPositions.Sync.{
  Floats, ReadingProgressEntry, Maxima, Store, Moment, decode, to_write, removed, write,
  sync_members, sync_ids, sync_read_key,
}

-- Every element of the first list is one of the second.
without-within :
    (ms gone : List Text)
    → ((m : Text) → contains m ms ≡ true → contains m gone ≡ true)
    → without gone ms ≡ []
unfolding without contains
without-within [] gone h = refl
without-within (m ∷ ms) gone h =
    let first = h m (ground (arith, text_eq_refl m)) in
    rw first (without-within ms gone (λ n k. h n (ground (arith, k))))

emptied :
    (key : Text) (gone : List Text) (sets : List (Text × List Text))
    → gone ≡ members_of key sets
    → members_of key (remove_members key gone sets) ≡ []
unfolding members_of remove_members
emptied key gone [] h = refl
emptied key gone ((k, ms) ∷ sets) h = elim (Bool-cases (text_eq k key)) [
  | inl e ↦
      rw (e, e)
        (subst (λ g. without g ms ≡ []) (sym (simp (h, e))) (without-within ms ms (λ m t. t)))
  | inr e ↦ rw (e, e) (emptied key gone sets (simp (h, e)))
]

members_of-remove :
    (key : Text) (sets : List (Text × List Text))
    → members_of key (remove_members key (members_of key sets) sets) ≡ []
members_of-remove key sets = emptied key (members_of key sets) sets refl

module _ (floats : Floats) (parse : Text → Option (ReadingProgressEntry floats)) where
  -- The progress that the buffer of a key has to write.
  abbrev pub buffered : Moment → Text → Store floats → Option (Maxima floats)
  buffered w key s = to_write floats w.clock (decode floats parse (members_of key s.sets))

  again_is_nothing :
      (w : Moment) (key : Text) (ids : Option (Text × Text)) (s : Store floats)
      → members_of key s.sets ≡ []
      → (sync_ids floats parse w key ids s).1 ≡ s
  unfolding sync_ids sync_members write decode to_write
  again_is_nothing w key none s h = refl
  again_is_nothing w key (some (user, item)) s h = elim (Bool-cases w.read_fails) [
    | inl e ↦ rw e refl
    | inr e ↦ simp (e, h)
  ]

  empties :
      (w : Moment) (key user item : Text) (s : Store floats) (m : Maxima floats)
      → w.read_fails ≡ false
      → w.update_fails ≡ false
      → w.remove_fails ≡ false
      → buffered w key s ≡ some m
      → members_of key (sync_ids floats parse w key (some (user, item)) s).1.sets ≡ []
  unfolding sync_ids sync_members write removed
  empties w key user item s m reads updates removes given =
      simp (reads, updates, removes, given, members_of-remove)

  once_written :
      (w later : Moment) (key : Text) (ids : Option (Text × Text)) (s : Store floats)
      (m : Maxima floats)
      → w.read_fails ≡ false
      → w.update_fails ≡ false
      → w.remove_fails ≡ false
      → buffered w key s ≡ some m
      → (sync_ids floats parse later key ids (sync_ids floats parse w key ids s).1).1
        ≡ (sync_ids floats parse w key ids s).1
  unfolding sync_ids
  once_written w later key none s m reads updates removes given = refl
  once_written w later key (some (user, item)) s m reads updates removes given =
      again_is_nothing later key (some (user, item)) _
        (empties w key user item s m reads updates removes given)

  -- Once the buffered progress of a key is written and its entries removed, the key changes nothing
  -- when it comes again, at any time and whatever fails then.
  pub sync_read_key-twice :
      (w later : Moment) (key : Text) (s : Store floats) (m : Maxima floats)
      → w.read_fails ≡ false
      → w.update_fails ≡ false
      → w.remove_fails ≡ false
      → buffered w key s ≡ some m
      → (sync_read_key floats parse later key (sync_read_key floats parse w key s).1).1
        ≡ (sync_read_key floats parse w key s).1
  unfolding sync_read_key
  sync_read_key-twice w later key s m reads updates removes given =
      once_written w later key (split_key key) s m reads updates removes given
