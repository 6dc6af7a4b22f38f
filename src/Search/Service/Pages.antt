-- ===== src/Search/Service/Pages.antt =====
-- A client that follows the end cursors from page to page reads every matching item once.
use mathlib.Core.Path.{subst}
use omnivore_go.Prelude.{
  sym, ℕ, zero, suc, ◌+◌, ◌-◌, ◌≤◌, ◌<◌, Text, true, false, List, ◌++◌, Option, none, some, ◌≡◌,
  refl, ap, ◌∙◌, ltb, length, take, drop, arith, take_all, take-append-drop, drop-drop, length-drop,
  Bool-cases, inl, inr, if◌then◌else◌,
}
use omnivore_go.Prelude.Unicode.{Unicode}
use omnivore_go.Prelude.Int.{ℤ, pos, format_nat, max_int64, scan_int-format_nat}
use omnivore_go.Search.Conditions.{Condition, search_conditions, apply_sorting}
use omnivore_go.Search.Library.{Library, IsPairwiseNot}
use omnivore_go.Search.Service.{
  SearchParams, SearchResult, Outcome, found, failed, panicked, add_length, format_int, page_offset,
  page_size, search, offset_of_scan,
}
use omnivore_go.Search.Service.Rows.{matching, cut, IsOrdered, search-answered, length-shown}

-- No query fails.
pub record IsAvailable (lib : Library) : Type 0 where
  pub counts : (cs : List Condition) → (n : ℕ) × (lib.count cs ≡ some n)
  pub finds :
      (cs : List Condition) (order : List Text) (o l : ℤ)
      → (is : List lib.Item) × (lib.find cs order o l ≡ some is)

module _ (u : Unicode) (lib : Library) where
  open lib use {Item}

  unfoldable read_on :
      Outcome (SearchResult Item) → (Text → Option (List Item)) → Option (List Item)
  read_on failed next = none
  read_on panicked next = none
  read_on (found r) next =
      if r.has_next_page
      then elim (next r.end_cursor) [ none ↦ none | some rest ↦ some (r.items ++ rest) ]
      else some r.items

  -- A client that asks for the next page while there is one; `none` if the fuel runs out.
  pub read_all : ℕ → SearchParams → Option (List Item)
  read_all zero p = none
  read_all (suc fuel) p =
      read_on (search u lib p) (λ cursor. read_all fuel (record p { after = some cursor }))

page_offset-format : (n : ℕ) → n ≤ max_int64 → page_offset (some (format_nat n)) ≡ pos n
unfolding page_offset offset_of_scan
page_offset-format n h = rw (scan_int-format_nat n h)

add_length-pos : (o n : ℕ) → o + n ≤ max_int64 → add_length (pos o) n ≡ pos (o + n)
unfolding add_length
add_length-pos o n h = ground arith

end_cursor-format :
    (o n : ℕ) → o + n ≤ max_int64 → format_int (add_length (pos o) n) ≡ format_nat (o + n)
end_cursor-format o n h = rw (add_length-pos o n h) (unfold format_int in refl)

module _ (u : Unicode) (lib : Library) (ready : IsAvailable lib) where
  open lib use {Item}

  read_on-more :
      (r : SearchResult Item) (next : Text → Option (List Item)) (cursor : Text) (rest : List Item)
      → r.has_next_page ≡ true
      → r.end_cursor ≡ cursor
      → next cursor ≡ some rest
      → read_on u lib (found r) next ≡ some (r.items ++ rest)
  unfolding read_on
  read_on-more r next cursor rest h e k = rw (h, e, k, read_on)

  read_on-last :
      (r : SearchResult Item) (next : Text → Option (List Item))
      → r.has_next_page ≡ false
      → read_on u lib (found r) next ≡ some r.items
  unfolding read_on
  read_on-last r next h = rw h

  matching-after :
      (p : SearchParams) (c : Option Text)
      → matching u lib (record p { after = c }) ≡ matching u lib p
  unfolding matching
  matching-after p c = refl

  search_ready :
      (p : SearchParams) (o n : ℕ)
      → IsOrdered u lib p
      → page_offset p.after ≡ pos o
      → page_size p.first ≡ pos n
      → search u lib p ≡ found (cut u lib p o n)
  search_ready p o n ordered at size =
      let cs = search_conditions u p.user_id p.query in
      let (total, c) = ready.counts cs in
      let (items, f) = ready.finds cs (apply_sorting u p.query) (pos o) (pos (n + 1)) in
      search-answered u lib p o n total items ordered at size c f

  next_page : ℕ → SearchParams → Text → Option (List Item)
  next_page fuel p cursor = read_all u lib fuel (record p { after = some cursor })

  read_all-suc :
      (fuel : ℕ) (p : SearchParams) (o n : ℕ)
      → IsOrdered u lib p
      → page_offset p.after ≡ pos o
      → page_size p.first ≡ pos n
      → read_all u lib (suc fuel) p ≡ read_on u lib (found (cut u lib p o n)) (next_page fuel p)
  unfolding read_all next_page
  read_all-suc fuel p o n ordered at size = rw (search_ready p o n ordered at size)

  read_all-more :
      (fuel : ℕ) (p : SearchParams) (o n : ℕ)
      → IsOrdered u lib p
      → page_offset p.after ≡ pos o
      → page_size p.first ≡ pos n
      → o + n < length (matching u lib p)
      → length (matching u lib p) ≤ max_int64
      → next_page fuel p (format_nat (o + n)) ≡ some (drop (o + n) (matching u lib p))
      → read_all u lib (suc fuel) p ≡ some (drop o (matching u lib p))
  read_all-more fuel p o n ordered at size inside fits rest =
      let M = matching u lib p in
      let full : length (take n (drop o M)) ≡ n = length-shown M o n ∙ omega arith in
      let cursor : format_int (add_length (pos o) (length (take n (drop o M))))
          ≡ format_nat (o + n) =
        ap (λ k. format_int (add_length (pos o) k)) full ∙ end_cursor-format o n (omega arith) in
      let joined : take n (drop o M) ++ drop (o + n) M ≡ drop o M =
        rw (← drop-drop n o M) (take-append-drop n (drop o M)) in
      let more : ltb (o + n) (length M) ≡ true = ground arith in
      read_all-suc fuel p o n ordered at size
      ∙ read_on-more (cut u lib p o n) (next_page fuel p) (format_nat (o + n)) (drop (o + n) M) more
          cursor rest
      ∙ ap some joined

  read_all-last :
      (fuel : ℕ) (p : SearchParams) (o n : ℕ)
      → IsOrdered u lib p
      → page_offset p.after ≡ pos o
      → page_size p.first ≡ pos n
      → length (matching u lib p) ≤ o + n
      → read_all u lib (suc fuel) p ≡ some (drop o (matching u lib p))
  read_all-last fuel p o n ordered at size last =
      let M = matching u lib p in
      let end : ltb (o + n) (length M) ≡ false = ground arith in
      let short : length (drop o M) ≤ n = omega (arith, length-drop o M) in
      read_all-suc fuel p o n ordered at size
      ∙ read_on-last (cut u lib p o n) (next_page fuel p) end
      ∙ ap some (take_all n (drop o M) short)

  next_page-read :
      (fuel : ℕ) (p : SearchParams) (c : Text) (o : ℕ)
      → read_all u lib fuel (record p { after = some c })
        ≡ some (drop o (matching u lib (record p { after = some c })))
      → next_page fuel p c ≡ some (drop o (matching u lib p))
  unfolding next_page
  next_page-read fuel p c o e = e ∙ ap (λ m. some (drop o m)) (matching-after p (some c))

  again :
      (p : SearchParams) (c : Option Text)
      → IsOrdered u lib p
      → IsOrdered u lib (record p { after = c })
  again p c h =
      subst (IsPairwiseNot (lib.ties (apply_sorting u p.query))) (sym (matching-after p c)) h

  read_all-from :
      (fuel : ℕ) (p : SearchParams) (o n : ℕ)
      → IsOrdered u lib p
      → page_offset p.after ≡ pos o
      → page_size p.first ≡ pos n
      → 0 < n
      → length (matching u lib p) ≤ max_int64
      → length (matching u lib p) - o < fuel
      → read_all u lib fuel p ≡ some (drop o (matching u lib p))
  read_all-from zero p o n ordered at size positive fits enough = absurd (omega arith)
  read_all-from (suc fuel) p o n ordered at size positive fits enough =
      elim (Bool-cases (ltb (o + n) (length (matching u lib p)))) [
        | inl more ↦
            let inside : o + n < length (matching u lib p) = ground arith in
            let c = format_nat (o + n) in
            let same = ap length (matching-after p (some c)) in
            read_all-more fuel p o n ordered at size inside fits (
              next_page-read fuel p c (o + n) (
                read_all-from fuel (record p { after = some c }) (o + n) n
                  (again p (some c) ordered) (page_offset-format (o + n) (omega arith)) size
                  positive (omega (arith, same)) (omega (arith, same))))
        | inr last ↦ read_all-last fuel p o n ordered at size (ground arith)
      ]

  -- While no query fails and the items stay as they are, and no two that match are equal in the
  -- columns that the search is sorted by, a client that asks for pages of a size from 1 to 100 and
  -- follows each end cursor gets every matching item once, in order, and stops, with one request
  -- more than there are items at most.
  pub read_all-matching :
      (p : SearchParams) (n : ℕ)
      → IsOrdered u lib p
      → p.after ≡ none
      → page_size p.first ≡ pos n
      → 0 < n
      → length (matching u lib p) ≤ max_int64
      → read_all u lib (suc (length (matching u lib p))) p ≡ some (matching u lib p)
  read_all-matching p n ordered start size positive fits =
      let at : page_offset p.after ≡ pos 0 = rw start (unfold page_offset in refl) in
      read_all-from (suc (length (matching u lib p))) p 0 n ordered at size positive fits
        (omega arith)
