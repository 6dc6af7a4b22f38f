-- ===== src/Search/Service/Rows.antt =====
-- What one page of a search holds, against the list of all items that match the conditions.
use omnivore_go.Prelude.{
  [], ap, All, All-take, true, ℕ, ◌+◌, ◌-◌, ◌≤◌, false, List, Option, none, some, ◌≡◌, refl, sym,
  ◌∙◌, ◌≢◌, ltb, length, take, drop, select, arith, length-take, length-drop, take-take, take_all,
  min, Option-cases, Bool-cases, inl, inr, if◌then◌else◌,
}
use omnivore_go.Prelude.Unicode.{Unicode}
use omnivore_go.Prelude.Int.{ℤ, pos, negsuc, format_nat}
use omnivore_go.Search.Conditions.{search_conditions, apply_sorting}
use omnivore_go.Search.Library.{Library, IsPairwiseNot, holds_all}
use omnivore_go.Search.Service.{
  SearchParams, SearchResult, Outcome, found, failed, add_length, format_int, page_offset,
  page_size, page, answer, search,
}

module _ {ℓ} {A : Type ℓ} (rows : List A) (o n : ℕ) where
  -- What is read from the database for the page of size `n` at offset `o`.
  abbrev pub read : List A
  read = take (n + 1) (drop o rows)

  length-read : length read ≡ min (n + 1) (length rows - o)
  length-read = rw length-take (rw length-drop)

  pub more_rows : ltb n (length read) ≡ ltb (o + n) (length rows)
  more_rows = rw length-read (ground arith)

  pub shown_rows : (if ltb n (length read) then take n read else read) ≡ take n (drop o rows)
  shown_rows = elim (Bool-cases (ltb n (length read))) [
    | inl e ↦ rw e (take-take n (n + 1) (drop o rows) (omega arith))
    | inr e ↦
        rw e
          (sym (take_all n read (ground arith)) ∙ take-take n (n + 1) (drop o rows) (omega arith))
  ]

  pub length-shown : length (take n (drop o rows)) ≡ min n (length rows - o)
  length-shown = rw length-take (rw length-drop)

module _ (u : Unicode) (lib : Library) where
  open lib use {Item, holds, sorted, count, find, count_rows, find_rows}

  -- The items that match a search, in its order.
  unfoldable pub matching : SearchParams → List Item
  matching p =
      select (holds_all holds (search_conditions u p.user_id p.query))
        (sorted (apply_sorting u p.query))

  -- The order of a search leaves no choice between the items that match.
  abbrev pub IsOrdered : SearchParams → Type 0
  IsOrdered p = IsPairwiseNot (lib.ties (apply_sorting u p.query)) (matching p)

  -- The page of size `n` at offset `o`, cut out of all matching items.
  abbrev pub cut : SearchParams → ℕ → ℕ → SearchResult Item
  cut p o n = record {
    items = take n (drop o (matching p));
    has_next_page = ltb (o + n) (length (matching p));
    has_previous_page = false;
    start_cursor = format_nat o;
    end_cursor = format_int (add_length (pos o) (length (take n (drop o (matching p)))));
    total_count = length (matching p);
  }

  page-read :
      (p : SearchParams) (o n : ℕ)
      → page (pos o) (pos n) (length (matching p)) (read (matching p) o n) ≡ found (cut p o n)
  unfolding page format_int
  page-read p o n = rw (shown_rows (matching p) o n) (rw (more_rows (matching p) o n))

  limit_of_size : (n : ℕ) → n ≤ 100 → add_length (pos n) 1 ≡ pos (n + 1)
  unfolding add_length
  limit_of_size n h = ground arith

  page_size-le : (f : Option ℤ) (n : ℕ) → page_size f ≡ pos n → n ≤ 100
  unfolding page_size
  page_size-le none n h = ground arith
  page_size-le (some (pos m)) n h = ground arith
  page_size-le (some (negsuc m)) n h = ground arith

  search-answer :
      (p : SearchParams) (o n : ℕ)
      → page_offset p.after ≡ pos o
      → page_size p.first ≡ pos n
      → search u lib p
        ≡ answer (pos o) (pos n) (count (search_conditions u p.user_id p.query)) (
            find
              (search_conditions u p.user_id p.query)
              (apply_sorting u p.query)
              (pos o)
              (pos (n + 1)))
  search-answer p o n at size =
      unfold search in rw (at, size, limit_of_size n (page_size-le p.first n size))

  pub search-answered :
      (p : SearchParams) (o n total : ℕ) (items : List Item)
      → IsOrdered p
      → page_offset p.after ≡ pos o
      → page_size p.first ≡ pos n
      → count (search_conditions u p.user_id p.query) ≡ some total
      → find (search_conditions u p.user_id p.query) (apply_sorting u p.query) (pos o) (pos (n + 1))
        ≡ some items
      → search u lib p ≡ found (cut p o n)
  unfolding matching
  search-answered p o n total items ordered at size counted listed =
      let cs = search_conditions u p.user_id p.query in
      let order = apply_sorting u p.query in
      rw (search-answer p o n at size, counted, listed)
        (unfold answer in
          rw (count_rows cs order total counted, find_rows cs order o (n + 1) items ordered listed)
            (page-read p o n))

  not_found-count :
      (p : SearchParams) (o n : ℕ) (r : SearchResult Item)
      → page_offset p.after ≡ pos o
      → page_size p.first ≡ pos n
      → count (search_conditions u p.user_id p.query) ≡ none
      → search u lib p ≢ found r
  not_found-count p o n r at size e h =
      let q : search u lib p ≡ failed =
        rw (search-answer p o n at size, e) (unfold answer in refl) in
      cc (q, h)

  not_found-find :
      (p : SearchParams) (o n total : ℕ) (r : SearchResult Item)
      → page_offset p.after ≡ pos o
      → page_size p.first ≡ pos n
      → count (search_conditions u p.user_id p.query) ≡ some total
      → find (search_conditions u p.user_id p.query) (apply_sorting u p.query) (pos o) (pos (n + 1))
        ≡ none
      → search u lib p ≢ found r
  not_found-find p o n total r at size c e h =
      let q : search u lib p ≡ failed =
        rw (search-answer p o n at size, c, e) (unfold answer in refl) in
      cc (q, h)

  abbrev items_of : Outcome (SearchResult Item) → List Item
  items_of (found r) = r.items
  items_of other = []

  items_shown :
      (o n : ℤ) (total : ℕ) (P : Item → Type 0) (items : List Item) (r : SearchResult Item)
      → All P items
      → page o n total items ≡ found r
      → All P r.items
  unfolding page
  items_shown o (negsuc n) total P items r h e = absurd (cc)
  items_shown o (pos n) total P items r h e = elim (Bool-cases (ltb n (length items))) [
    | inl more ↦
        let is : take n items ≡ r.items = ap items_of (rw more at e) in
        rw (sym is) (All-take P n items h)
    | inr last ↦ let is : items ≡ r.items = ap items_of (rw last at e) in rw (sym is) h
  ]

  -- What the conditions of a search hold for is all that its answer shows.
  pub search-holds :
      (p : SearchParams) (o n : ℕ) (r : SearchResult Item)
      → page_offset p.after ≡ pos o
      → page_size p.first ≡ pos n
      → search u lib p ≡ found r
      → All (λ i. holds_all holds (search_conditions u p.user_id p.query) i ≡ true) r.items
  search-holds p o n r at size e =
      let cs = search_conditions u p.user_id p.query in
      let order = apply_sorting u p.query in
      elim (Option-cases (count cs)) [
        | inl c ↦ absurd (not_found-count p o n r at size c e)
        | inr (total, c) ↦ elim (Option-cases (find cs order (pos o) (pos (n + 1)))) [
          | inl f ↦ absurd (not_found-find p o n total r at size c f e)
          | inr (items, f) ↦
              let holding = lib.find_matches cs order o (n + 1) items f in
              let shown = rw (search-answer p o n at size, c, f) at e in
              items_shown (pos o) (pos n) total _ items r holding (unfold answer in shown)
        ]
      ]

  -- A search that is answered, at an offset and a size that are not negative, returns the page of
  -- that size at that offset of all matching items, if the order decides between any two of them: it
  -- says rightly whether more follow, where the
  -- next page begins, and how many there are.
  pub search_page :
      (p : SearchParams) (o n : ℕ) (r : SearchResult Item)
      → IsOrdered p
      → page_offset p.after ≡ pos o
      → page_size p.first ≡ pos n
      → search u lib p ≡ found r
      → r ≡ cut p o n
  search_page p o n r ordered at size e =
      let cs = search_conditions u p.user_id p.query in
      elim (Option-cases (count cs)) [
        | inl c ↦ absurd (not_found-count p o n r at size c e)
        | inr (total, c) ↦
            elim (Option-cases (find cs (apply_sorting u p.query) (pos o) (pos (n + 1)))) [
              | inl f ↦ absurd (not_found-find p o n total r at size c f e)
              | inr (items, f) ↦ cc (e, search-answered p o n total items ordered at size c f)
            ]
      ]
