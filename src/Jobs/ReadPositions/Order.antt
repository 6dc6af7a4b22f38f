-- ===== src/Jobs/ReadPositions/Order.antt =====
-- The order in which Redis gives the members of a set.
use mathlib.Core.List.{Permᴰ}
use mathlib.Core.List.Permᴰ
use omnivore_go.Prelude.{
  ℕ, Text, List, [], ◌∷◌, Option, none, some, ◌≡◌, refl, sym, ap, ◌∙◌, arith, Bool-cases, inl, inr,
}
use omnivore_go.Prelude.Int.{ℤ, pos, negsuc}
use omnivore_go.Jobs.ReadPositions.Sync.{
  Floats, ReadingProgressEntry, Maxima, Store, Moment, larger, larger_anchor, widen, aggregate,
  later, most_recent, keep, decode, nothing, to_write, removed, write, sync_members,
}

larger_anchor-swap :
    (m : ℕ) (a b : ℤ) → larger_anchor (larger_anchor m a) b ≡ larger_anchor (larger_anchor m b) a
unfolding larger_anchor
larger_anchor-swap m (pos a) (pos b) = ground arith
larger_anchor-swap m (pos a) (negsuc b) = refl
larger_anchor-swap m (negsuc a) (pos b) = refl
larger_anchor-swap m (negsuc a) (negsuc b) = refl

module _ (floats : Floats) where
  open floats use {Float, lt, lt_asym, lt_trans, lt_tri}

  larger-swap :
      (m a b : Float) → larger floats (larger floats m a) b ≡ larger floats (larger floats m b) a
  unfolding larger
  larger-swap m a b = ground (
    arith,
    lt_asym m a,
    lt_asym m b,
    lt_asym a b,
    lt_tri a b,
    lt_tri m a,
    lt_tri m b,
    lt_trans m a b,
    lt_trans m b a,
    lt_trans a m b,
    lt_trans b m a,
  )

  widen-swap :
      (m : Maxima floats) (a b : ReadingProgressEntry floats)
      → widen floats (widen floats m a) b ≡ widen floats (widen floats m b) a
  unfolding widen
  widen-swap m a b =
      let top =
        larger-swap m.top_percent a.reading_progress_top_percent b.reading_progress_top_percent in
      let bottom =
        larger-swap m.bottom_percent a.reading_progress_percent b.reading_progress_percent in
      let anchor =
        larger_anchor-swap m.anchor_index a.reading_progress_anchor_index
          b.reading_progress_anchor_index in
      rw (top, bottom, anchor) refl

  later-swap :
      (t : ℕ) (a b : ReadingProgressEntry floats)
      → later floats (later floats t a) b ≡ later floats (later floats t b) a
  unfolding later
  later-swap t a b = ground arith

  aggregate-Perm :
      {xs ys : List (ReadingProgressEntry floats)}
      → Permᴰ xs ys
      → (m : Maxima floats) → aggregate floats m xs ≡ aggregate floats m ys
  unfolding aggregate
  aggregate-Perm Permᴰ.nil m = refl
  aggregate-Perm (Permᴰ.cons {a = a} e p) m = rw (sym e) (aggregate-Perm p (widen floats m a))
  aggregate-Perm (Permᴰ.swap {a = a} {b = b} {l = l} e f) m =
      rw (sym e, sym f) (ap (λ n. aggregate floats n l) (widen-swap m a b))
  aggregate-Perm (Permᴰ.trans p r) m = aggregate-Perm p m ∙ aggregate-Perm r m

  most_recent-Perm :
      {xs ys : List (ReadingProgressEntry floats)}
      → Permᴰ xs ys
      → (t : ℕ) → most_recent floats t xs ≡ most_recent floats t ys
  unfolding most_recent
  most_recent-Perm Permᴰ.nil t = refl
  most_recent-Perm (Permᴰ.cons {a = a} e p) t = rw (sym e) (most_recent-Perm p (later floats t a))
  most_recent-Perm (Permᴰ.swap {a = a} {b = b} {l = l} e f) t =
      rw (sym e, sym f) (ap (λ u. most_recent floats u l) (later-swap t a b))
  most_recent-Perm (Permᴰ.trans p r) t = most_recent-Perm p t ∙ most_recent-Perm r t

  to_write-Perm :
      (clock : ℕ) (xs ys : List (ReadingProgressEntry floats))
      → Permᴰ xs ys
      → to_write floats clock xs ≡ to_write floats clock ys
  unfolding to_write
  to_write-Perm clock [] [] p = refl
  to_write-Perm clock [] (y ∷ ys) p = absurd (cc (Permᴰ.length-eq p))
  to_write-Perm clock (x ∷ xs) [] p = absurd (cc (Permᴰ.length-eq p))
  to_write-Perm clock (x ∷ xs) (y ∷ ys) p =
      let recent = most_recent-Perm p 0 in
      let largest = aggregate-Perm p (nothing floats) in rw (recent, largest) refl

  keep-Perm :
      (o : Option (ReadingProgressEntry floats)) {xs ys : List (ReadingProgressEntry floats)}
      → Permᴰ xs ys
      → Permᴰ (keep floats o xs) (keep floats o ys)
  unfolding keep
  keep-Perm none p = p
  keep-Perm (some e) p = Permᴰ.cons refl p

  keep-swap :
      (o q : Option (ReadingProgressEntry floats)) (l : List (ReadingProgressEntry floats))
      → Permᴰ (keep floats o (keep floats q l)) (keep floats q (keep floats o l))
  unfolding keep
  keep-swap none q l = Permᴰ.refl _
  keep-swap (some e) none l = Permᴰ.refl _
  keep-swap (some e) (some f) l = Permᴰ.swap refl refl

  module _ (parse : Text → Option (ReadingProgressEntry floats)) where
    decode-Perm :
        {ms ns : List Text} → Permᴰ ms ns → Permᴰ (decode floats parse ms) (decode floats parse ns)
    unfolding decode
    decode-Perm Permᴰ.nil = Permᴰ.nil
    decode-Perm (Permᴰ.cons {a = a} e p) = rw (sym e) (keep-Perm (parse a) (decode-Perm p))
    decode-Perm (Permᴰ.swap {a = a} {b = b} {l = l} e f) =
        rw (sym e, sym f) (keep-swap (parse a) (parse b) (decode floats parse l))
    decode-Perm (Permᴰ.trans p r) = Permᴰ.trans (decode-Perm p) (decode-Perm r)

    pub to_write-decode :
        (clock : ℕ) (ms ns : List Text)
        → Permᴰ ms ns
        → to_write floats clock (decode floats parse ms)
          ≡ to_write floats clock (decode floats parse ns)
    to_write-decode clock ms ns p = to_write-Perm clock _ _ (decode-Perm p)

    write-rows :
        (w : Moment) (key user item : Text) (ms ns : List Text) (o : Option (Maxima floats))
        (s : Store floats)
        → ((write floats parse w key user item ms o s).0
            ≡ (write floats parse w key user item ns o s).0)
          × ((write floats parse w key user item ms o s).1.rows
              ≡ (write floats parse w key user item ns o s).1.rows)
    unfolding write removed
    write-rows w key user item ms ns none s = (refl, refl)
    write-rows w key user item ms ns (some m) s = elim (Bool-cases w.update_fails) [
      | inl e ↦ rw e (refl, refl)
      | inr e ↦ elim (Bool-cases w.remove_fails) [
        | inl f ↦ rw (e, f) (refl, refl)
        | inr f ↦ rw (e, f) (refl, refl)
      ]
    ]

    -- The order in which SMEMBERS gives the entries does not matter: any rearrangement of them
    -- gives the same error or none, and the same table.
    pub sync_members-Perm :
        (w : Moment) (key user item : Text) (ms ns : List Text) (s : Store floats)
        → Permᴰ ms ns
        → ((sync_members floats parse w key user item ms s).0
            ≡ (sync_members floats parse w key user item ns s).0)
          × ((sync_members floats parse w key user item ms s).1.rows
              ≡ (sync_members floats parse w key user item ns s).1.rows)
    unfolding sync_members
    sync_members-Perm w key user item ms ns s p =
        rw (to_write-decode w.clock ms ns p) (write-rows w key user item ms ns _ s)
