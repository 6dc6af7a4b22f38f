-- ===== src/Jobs/ReadPositions/Named.antt =====
-- The rows that a whole run of the job may change.
use mathlib.Core.Path.{subst}
use omnivore_go.Prelude.{
  ℕ, Text, ◌==◌, List, [], ◌∷◌, Option, none, some, ◌≡◌, ◌⊎◌, refl, ◌∙◌, Bool-cases, inl, inr,
}
use omnivore_go.Jobs.ReadPositions.Sets.{split_key}
use omnivore_go.Jobs.ReadPositions.Sync.{
  Floats, ReadingProgressEntry, ProgressRow, Store, Moment, sync_read_key, sync_keys,
  handle_sync_read_positions,
}
use omnivore_go.Prelude.Pairs.{Pairs, Pairs-refl, Pairs-trans}
use omnivore_go.Jobs.ReadPositions.Forward.{Moves, sync_read_key-Moves}

module _ (floats : Floats) where
  -- One of the keys has the user and the item of the row.
  abbrev pub Names : List (Moment × Text) → ProgressRow floats → Type 0
  Names [] r = ⊥
  Names ((w, key) ∷ keys) r =
      (◌≡◌ {A = Option (Text × Text)} (split_key key) (some (r.user_id, r.id))) ⊎ Names keys r

  abbrev pub NamesReply : Option (ℕ × List (Moment × Text)) → ProgressRow floats → Type 0
  NamesReply none r = ⊥
  NamesReply (some (cursor, keys)) r = Names keys r

  -- One of the replies of SCAN has such a key.
  abbrev pub NamesAny : List (Option (ℕ × List (Moment × Text))) → ProgressRow floats → Type 0
  NamesAny [] r = ⊥
  NamesAny (reply ∷ replies) r = NamesReply reply r ⊎ NamesAny replies r

  -- The row is as before, or it is one of those that may change.
  abbrev pub Kept : (ProgressRow floats → Type 0) → ProgressRow floats → ProgressRow floats → Type 0
  Kept P r after = (after ≡ r) ⊎ P r

  Kept-trans :
      (P Q : ProgressRow floats → Type 0) (r s t : ProgressRow floats)
      → Kept P r s
      → Kept Q s t
      → Kept (λ x. P x ⊎ Q x) r t
  Kept-trans P Q r s t (inl e) (inl f) = inl (f ∙ e)
  Kept-trans P Q r s t (inl e) (inr q) = inr (inr (subst Q e q))
  Kept-trans P Q r s t (inr p) k = inr (inl p)

  Moves-Kept :
      (ids : Option (Text × Text)) (r s : ProgressRow floats)
      → Moves floats ids r s
      → Kept (λ x. ◌≡◌ {A = Option (Text × Text)} ids (some (x.user_id, x.id))) r s
  Moves-Kept ids r s (inl e) = inl e
  Moves-Kept ids r s (inr (named, _, _)) = inr named

  module _ (parse : Text → Option (ReadingProgressEntry floats)) where
    sync_keys-Kept :
        (keys : List (Moment × Text)) (s : Store floats)
        → Pairs (Kept (Names keys)) s.rows (sync_keys floats parse keys s).rows
    unfolding sync_keys
    sync_keys-Kept [] s = Pairs-refl _ (λ r. inl refl) s.rows
    sync_keys-Kept ((w, key) ∷ keys) s =
        Pairs-trans (Moves floats (split_key key)) (Kept (Names keys)) _
          (λ a b c p q.
            Kept-trans
              (λ x. ◌≡◌ {A = Option (Text × Text)} (split_key key) (some (x.user_id, x.id)))
              (Names keys) a b c (Moves-Kept (split_key key) a b p) q)
          _ _ _ (sync_read_key-Moves floats parse w key s)
          (sync_keys-Kept keys (sync_read_key floats parse w key s).1)

    -- However the replies of SCAN come, whichever keys repeat, and whatever fails, each row is left
    -- as it is or a key of these replies names its user and its item.
    pub handle_sync_read_positions-Kept :
        (replies : List (Option (ℕ × List (Moment × Text)))) (s : Store floats)
        → Pairs
            (Kept (NamesAny replies))
            s.rows
            (handle_sync_read_positions floats parse replies s).1.rows
    unfolding handle_sync_read_positions
    handle_sync_read_positions-Kept [] s = Pairs-refl _ (λ r. inl refl) s.rows
    handle_sync_read_positions-Kept (none ∷ replies) s = Pairs-refl _ (λ r. inl refl) s.rows
    handle_sync_read_positions-Kept (some (cursor, keys) ∷ replies) s =
        elim (Bool-cases (cursor == 0)) [
          | inl e ↦ rw e (
              Pairs-trans (Kept (Names keys)) (Kept (NamesAny replies)) _
                (λ a b c p q. Kept-trans (Names keys) (NamesAny replies) a b c p q) _ _ _
                (sync_keys-Kept keys s) (Pairs-refl (Kept (NamesAny replies)) (λ r. inl refl) _))
          | inr e ↦ rw e (
              Pairs-trans (Kept (Names keys)) (Kept (NamesAny replies)) _
                (λ a b c p q. Kept-trans (Names keys) (NamesAny replies) a b c p q) _ _ _
                (sync_keys-Kept keys s)
                (handle_sync_read_positions-Kept replies (sync_keys floats parse keys s)))
        ]
