-- ===== src/Search/Service/Faults.antt =====
-- Inputs that SearchService.Search does not guard against: a negative page size, and text that is
-- put into an ORDER BY clause as it is.
use omnivore_go.Prelude.{
  ℕ, Text, codes, text_eq, join, contains_rune, false, [], ◌∷◌, ◌++◌, ◌≡◌, some, IsToken,
}
use omnivore_go.Prelude.Unicode.{Unicode}
use omnivore_go.Prelude.Int.{negsuc}
use omnivore_go.Search.Query.{
  has_full_text_search, extract_full_text_query, has_full_text, full_text_terms,
}
use omnivore_go.Search.Query.Print.{parse-word}
use omnivore_go.Search.Conditions.{search_conditions, apply_sorting}
use omnivore_go.Search.Library.{Library}
use omnivore_go.Search.Service.{
  SearchParams, panicked, add_length, page_offset, page_size, page, answer, search,
}
use omnivore_go.Search.Service.Pages.{IsAvailable}

module _ (u : Unicode) (lib : Library) where
  -- A search that asks for a negative number of items panics, whatever its query and cursor, if the
  -- database answers.
  pub search-negative :
      (p : SearchParams) (n : ℕ)
      → p.first ≡ some (negsuc n)
      → IsAvailable lib
      → search u lib p ≡ panicked
  unfolding search page_size answer page
  search-negative p n e ready =
      let cs = search_conditions u p.user_id p.query in
      let (total, c) = ready.counts cs in
      let (items, f) =
        ready.finds cs (apply_sorting u p.query) (page_offset p.after) (add_length (negsuc n) 1) in
      rw (e, c, f)

-- A search for one word w, whatever marks w holds, orders by a clause that holds w as it is: the
-- code neither escapes it nor passes it as a parameter, so a quotation mark in it ends the SQL
-- literal.
pub apply_sorting-word :
    (u : Unicode) (w : Text)
    → IsToken w
    → contains_rune w b':' ≡ false
    → apply_sorting u w
      ≡ (codes "ts_rank_cd(search_tsv, websearch_to_tsquery('english', '"
          ++ (w ++ codes "')) DESC"))
        ∷ codes "saved_at DESC NULLS LAST"
        ∷ []
unfolding apply_sorting has_full_text_search extract_full_text_query has_full_text full_text_terms
    join text_eq
apply_sorting-word u w h e = rw (parse-word u w h e)
