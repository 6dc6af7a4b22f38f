-- ===== src/Jobs/SavePage/Slug.antt =====
-- internal/jobs/save_page.go: makeSlug. What is cut at 100 bytes is ASCII there, so bytes are code
-- points.
use omnivore_go.Prelude.{
  ℕ, ◌==◌, leb, ltb, Text, codes, text_eq, trim, Bool, true, false, ◌||◌, ◌&&◌, [], ◌∷◌, take,
  length, map, if◌then◌else◌,
}
use omnivore_go.Prelude.Unicode.{Unicode, to_lower}

-- The class [a-z0-9-]
unfoldable pub is_slug_rune : ℕ → Bool
is_slug_rune c = (leb b'a' c && leb c b'z') || (leb b'0' c && leb c b'9') || c == b'-'

unfoldable pub is_dash : ℕ → Bool
is_dash c = c == b'-'

unfoldable pub dash_unless_word : Unicode → ℕ → ℕ
dash_unless_word u c = if u.is_letter c || u.is_digit c then c else b'-'

-- nonAlphanumeric.ReplaceAllString(s, "-"): each run of other code points becomes one dash. The
-- Boolean says that the code point before was one of such a run.
unfoldable pub replace_runs : Bool → Text → Text
replace_runs in_run [] = []
replace_runs in_run (c ∷ s) =
    let next = replace_runs false s in
    let more = replace_runs true s in
    if is_slug_rune c then c ∷ next else if in_run then more else b'-' ∷ more

unfoldable pub or_untitled : Text → Text
or_untitled s = if text_eq s [] then codes "untitled" else s

unfoldable pub cut : Text → Text
cut s = if ltb 100 (length s) then take 100 s else s

-- makeSlug
unfoldable pub make_slug : Unicode → Text → Text
make_slug u title =
    cut (
      or_untitled (trim is_dash (replace_runs false (map (dash_unless_word u) (to_lower u title)))))
