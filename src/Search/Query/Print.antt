-- ===== src/Search/Query/Print.antt =====
-- A filter list that is written down as a query is parsed back.
use omnivore_go.Prelude.{
  Text, codes, fields, join, false, true, List, [], ◌∷◌, ◌++◌, ◌≡◌, refl, ◌≢◌, ap, map, arith, ℕ,
  ◌<◌, ◌==◌, All, IsToken, IsSpaceFree, fields-join, trim, is_space, All-append, contains_rune,
  before, after, split_two, trim_left, trim_right, All-imp,
}
use omnivore_go.Prelude.Unicode.{Unicode, to_lower, is_upper_ascii}
use omnivore_go.Search.Query.{
  SearchFilter, fulltext, parse_search_query, filters_of_tokens, token_filters, filter_of_parts,
}

-- A code point that a written filter may hold in its type: ASCII, and no capital, colon or space.
abbrev pub IsTypeRune : ℕ → Type 0
IsTypeRune c = (c < 128) × (is_upper_ascii c ≡ false) × ((c == b':') ≡ false) × (is_space c ≡ false)

-- A code point of a value: no white space and no quotation mark.
abbrev pub IsValueRune : ℕ → Type 0
IsValueRune c = (is_space c ≡ false) × ((c == b'"') ≡ false)

abbrev pub IsPrintable : SearchFilter → Type 0
IsPrintable f = All IsTypeRune f.type × All IsValueRune f.value

abbrev pub print_filter : SearchFilter → Text
print_filter f = f.type ++ b':' ∷ f.value

abbrev pub print_query : List SearchFilter → Text
print_query fs = join (map print_filter fs) (codes " ")

module _ (u : Unicode) where
  to_lower_self : (t : Text) → All IsTypeRune t → to_lower u t ≡ t
  to_lower_self [] h = refl
  to_lower_self (c ∷ t) ((small, lower, _, _), h) =
      ground (arith, u.lower_rune_ascii c small, to_lower_self t h)

trim_left_self : (t : Text) → All IsValueRune t → trim_left (λ c. c == b'"') t ≡ t
unfolding trim_left
trim_left_self [] h = refl
trim_left_self (c ∷ t) ((_, q), h) = ground arith

trim_right_self : (t : Text) → All IsValueRune t → trim_right (λ c. c == b'"') t ≡ t
unfolding trim_right
trim_right_self [] h = refl
trim_right_self (c ∷ t) ((_, q), h) = ground (arith, trim_right_self t h)

trim_self : (t : Text) → All IsValueRune t → trim (λ c. c == b'"') t ≡ t
unfolding trim
trim_self t h = rw (trim_left_self t h) (trim_right_self t h)

contains-typed : (t v : Text) → contains_rune (t ++ b':' ∷ v) b':' ≡ true
unfolding contains_rune
contains-typed [] v = refl
contains-typed (c ∷ t) v = ground (arith, contains-typed t v)

before-typed : (t v : Text) → All IsTypeRune t → before b':' (t ++ b':' ∷ v) ≡ t
unfolding before
before-typed [] v h = refl
before-typed (c ∷ t) v ((_, _, e, _), h) = rw e (ap (◌∷◌ c) (before-typed t v h))

after-typed : (t v : Text) → All IsTypeRune t → after b':' (t ++ b':' ∷ v) ≡ v
unfolding after
after-typed [] v h = refl
after-typed (c ∷ t) v ((_, _, e, _), h) = rw e (after-typed t v h)

token_filters-print :
    (u : Unicode) (f : SearchFilter) → IsPrintable f → token_filters u (print_filter f) ≡ f ∷ []
unfolding token_filters split_two filter_of_parts
token_filters-print u f (ht, hv) =
    rw
      (contains-typed f.type f.value, before-typed f.type f.value ht, after-typed f.type f.value ht)
      (rw (to_lower_self u f.type ht, trim_self f.value hv))

print_filter-IsToken : (f : SearchFilter) → IsPrintable f → IsToken (print_filter f)
print_filter-IsToken f (ht, hv) = (append-ne f.type, free)
  where
    append-ne : (t : Text) → (t ++ b':' ∷ f.value) ≢ []
    append-ne [] e = cc
    append-ne (c ∷ t) e = cc

    free : IsSpaceFree (print_filter f)
    free =
        All-append _ f.type _ (All-imp IsTypeRune _ (λ c h. h.3) f.type ht)
          ((unfold is_space in refl), All-imp IsValueRune _ (λ c h. h.0) f.value hv)

print-IsToken : (fs : List SearchFilter) → All IsPrintable fs → All IsToken (map print_filter fs)
print-IsToken [] h = tt
print-IsToken (f ∷ fs) (hf, h) = (print_filter-IsToken f hf, print-IsToken fs h)

filters_of_tokens-print :
    (u : Unicode) (fs : List SearchFilter)
    → All IsPrintable fs
    → filters_of_tokens u (map print_filter fs) ≡ fs
unfolding filters_of_tokens
filters_of_tokens-print u [] h = refl
filters_of_tokens-print u (f ∷ fs) (hf, h) =
    rw (token_filters-print u f hf) (ap (◌∷◌ f) (filters_of_tokens-print u fs h))

-- Filters whose types are ASCII without capitals, colons and white space, and whose values hold
-- no white space and no quotation mark, are read back from the query type:value type:value …
pub parse-print :
    (u : Unicode) (fs : List SearchFilter)
    → All IsPrintable fs
    → parse_search_query u (print_query fs) ≡ fs
unfolding parse_search_query
parse-print u fs h =
    rw (fields-join (map print_filter fs) (print-IsToken fs h)) (filters_of_tokens-print u fs h)

-- A query of one word that holds no colon is a search for that word.
pub parse-word :
    (u : Unicode) (w : Text)
    → IsToken w
    → contains_rune w b':' ≡ false
    → parse_search_query u w ≡ record { type = fulltext; value = w } ∷ []
unfolding parse_search_query filters_of_tokens token_filters
parse-word u w h e =
    let word : fields w ≡ w ∷ [] = unfold join in fields-join (w ∷ []) (h, tt) in rw (word, e)
