-- ===== src/Jobs/SavePage/Tests.antt =====
-- The theorems at concrete inputs.
use omnivore_go.Prelude.{
  codes, text_eq, trim, trim_left, trim_right, some, List, [], ◌∷◌, ◌≡◌, refl,
}
use omnivore_go.Prelude.Unicode.{ascii}
use omnivore_go.Jobs.SavePage.Slug.{
  make_slug, is_slug_rune, is_dash, dash_unless_word, replace_runs, or_untitled, cut,
}
use omnivore_go.Jobs.SavePage.Slugs.{IsSlug, make_slug-IsSlug}
use omnivore_go.Jobs.SavePage.Page.{Row}
use omnivore_go.Jobs.SavePage.Save.{handle_save_page}
use omnivore_go.Jobs.SavePage.Sample.{table, being_fetched, page_of_ann}

slug_of_title : make_slug ascii (codes " A -- new: Page! ") ≡ codes "a----new--page"
unfolding make_slug is_slug_rune is_dash dash_unless_word replace_runs or_untitled cut text_eq trim
    trim_left trim_right
slug_of_title = refl

make_slug-IsSlug_example : IsSlug (make_slug ascii (codes "?!"))
make_slug-IsSlug_example = make_slug-IsSlug ascii (codes "?!")

abbrev before : List Row
before = being_fetched ∷ []

abbrev after : List Row
after = (handle_save_page table ascii (some page_of_ann) before).1
