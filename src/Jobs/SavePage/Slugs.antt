-- ===== src/Jobs/SavePage/Slugs.antt =====
-- What a slug looks like.
use mathlib.Core.Path.{subst}
use mathlib.Core.Bool.{true≢false}
use omnivore_go.Prelude.{
  ℕ, ◌≤◌, ltb, leb, ◌&&◌, Text, codes, text_eq, trim, Bool, true, false, [], ◌∷◌, take, length,
  length-take, map, All, All-take, All-imp, ◌≡◌, ◌⊎◌, refl, sym, ◌∙◌, text_eq_refl, arith, inl, inr,
  Bool-cases,
}
use omnivore_go.Prelude.Trim.{trim-head, trim-All}
use omnivore_go.Prelude.Unicode.{Unicode, to_lower}
use omnivore_go.Jobs.SavePage.Slug.{
  is_slug_rune, is_dash, dash_unless_word, replace_runs, or_untitled, cut, make_slug,
}

abbrev SlugRunes : Text → Type 0
SlugRunes s = All (λ c. is_slug_rune c ≡ true) s

-- One of a-z, 0-9 and the dash.
abbrev pub IsWord : ℕ → Type 0
IsWord c = ((b'a' ≤ c) × (c ≤ b'z')) ⊎ ((b'0' ≤ c) × (c ≤ b'9')) ⊎ (c ≡ b'-')

is_slug_rune-IsWord : (c : ℕ) → is_slug_rune c ≡ true → IsWord c
unfolding is_slug_rune
is_slug_rune-IsWord c e = elim (Bool-cases (leb b'a' c && leb c b'z')) [
  | inl h ↦ inl (ground (arith, h))
  | inr h ↦ elim (Bool-cases (leb b'0' c && leb c b'9')) [
    | inl k ↦ inr (inl (ground (arith, k)))
    | inr k ↦ inr (inr (ground (arith, e, h, k)))
  ]
]

-- Not empty, at most 100 bytes, of a-z, 0-9 and dashes, and with no dash in front.
abbrev pub IsSlug : Text → Type 0
IsSlug s =
    (text_eq s [] ≡ false)
    × (length s ≤ 100)
    × All IsWord s
    × (text_eq (take 1 s) (codes "-") ≡ false)

words : (s : Text) → SlugRunes s → All IsWord s
words s h = All-imp _ _ is_slug_rune-IsWord s h

replace_runs-SlugRunes : (b : Bool) (s : Text) → SlugRunes (replace_runs b s)
unfolding replace_runs
replace_runs-SlugRunes b [] = tt
replace_runs-SlugRunes b (c ∷ s) = elim (Bool-cases (is_slug_rune c)) [
  | inl e ↦ rw e (e, replace_runs-SlugRunes false s)
  | inr e ↦ elim (Bool-cases b) [
    | inl again ↦ rw (e, again) (replace_runs-SlugRunes true s)
    | inr starts ↦ rw (e, starts) ((unfold is_slug_rune in refl), replace_runs-SlugRunes true s)
  ]
]

-- A text that is a slug, but for its length.
abbrev Whole : Text → Type 0
Whole s = (text_eq s [] ≡ false) × SlugRunes s × (text_eq (take 1 s) (codes "-") ≡ false)

head-Whole : (c : ℕ) (r : Text) → is_dash c ≡ false → SlugRunes (c ∷ r) → Whole (c ∷ r)
unfolding text_eq is_dash
head-Whole c r e h = (refl, h, rw e refl)

untitled-Whole : Whole (or_untitled [])
unfolding or_untitled text_eq is_slug_rune
untitled-Whole = (refl, (refl, (refl, (refl, (refl, (refl, (refl, (refl, (refl, tt)))))))), refl)

kept-Whole :
    (c : ℕ) (r : Text) → is_dash c ≡ false → SlugRunes (c ∷ r) → Whole (or_untitled (c ∷ r))
unfolding or_untitled text_eq
kept-Whole c r e h = head-Whole c r e h

or_untitled-Whole :
    (s : Text)
    → SlugRunes s
    → (s ≡ []) ⊎ ((c : ℕ) × (r : Text) × (s ≡ c ∷ r) × (is_dash c ≡ false))
    → Whole (or_untitled s)
or_untitled-Whole s h (inl e) = rw e untitled-Whole
or_untitled-Whole s h (inr (c, r, e, no_dash)) = rw e (kept-Whole c r no_dash (subst SlugRunes e h))

long-IsSlug :
    (c : ℕ) (r : Text)
    → text_eq (take 1 (c ∷ r)) (codes "-") ≡ false
    → SlugRunes (c ∷ r)
    → IsSlug (take 100 (c ∷ r))
unfolding text_eq
long-IsSlug c r first h = (
  refl,
  omega (arith, length-take 100 (c ∷ r)),
  words (take 100 (c ∷ r)) (All-take _ 100 (c ∷ r) h),
  first,
)

cut-IsSlug : (s : Text) → Whole s → IsSlug (cut s)
unfolding cut
cut-IsSlug [] (given, _, _) = absurd (true≢false (sym (text_eq_refl []) ∙ given))
cut-IsSlug (c ∷ r) (given, h, first) = elim (Bool-cases (ltb 100 (length (c ∷ r)))) [
  | inl e ↦ rw e (long-IsSlug c r first h)
  | inr e ↦ rw e (given, ground arith, words (c ∷ r) h, first)
]

-- Every title has a slug: between 1 and 100 bytes, of the letters a to z, digits and dashes, and
-- with no dash in front.
pub make_slug-IsSlug : (u : Unicode) (title : Text) → IsSlug (make_slug u title)
unfolding make_slug
make_slug-IsSlug u title =
    let replaced = replace_runs false (map (dash_unless_word u) (to_lower u title)) in
    cut-IsSlug (or_untitled (trim is_dash replaced)) (
      or_untitled-Whole (trim is_dash replaced)
        (trim-All is_dash is_slug_rune replaced (replace_runs-SlugRunes false _))
        (trim-head is_dash replaced))
