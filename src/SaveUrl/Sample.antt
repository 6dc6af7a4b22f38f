-- ===== src/SaveUrl/Sample.antt =====
-- A table of at most one row, and a parser that knows two URLs, for the tests.
use omnivore_go.Prelude.{
  ◌<◌, Text, codes, text_eq, Bool, true, false, List, [], ◌∷◌, All, Option, none, some, ◌≡◌, refl,
  sym, ap, ◌∙◌, arith, ◌⊎◌, inl, inr, if◌then◌else◌, Bool-cases,
}
use omnivore_go.SaveUrl.Address.{UrlPackage}
use omnivore_go.SaveUrl.Items.{LibraryItem, Rows, count, put_row}

-- A table of two rows and more does not answer.
abbrev pub first_row : (LibraryItem → Bool) → List LibraryItem → Option (Option LibraryItem)
first_row p [] = some none
first_row p (r ∷ []) = some (if p r then some r else none)
first_row p (r ∷ s ∷ rs) = none

pub first_row-none :
    (p : LibraryItem → Bool) (s : List LibraryItem) → first_row p s ≡ some none → count p s ≡ 0
unfolding count
first_row-none p [] e = refl
first_row-none p (r ∷ []) e = ground arith
first_row-none p (r ∷ t ∷ rs) e = absurd (cc)

one_row :
    (p : LibraryItem → Bool) (r i : LibraryItem)
    → some (if p r then some r else none) ≡ some (some i)
    → (r ≡ i) × (p r ≡ true)
one_row p r i e = elim (Bool-cases (p r)) [
  | inl h ↦ let e' = rw h at e in (let same : r ≡ i = cc in same, h)
  | inr h ↦ let e' = rw h at e in absurd (cc)
]

pub first_row-some :
    (p : LibraryItem → Bool) (s : List LibraryItem) (i : LibraryItem)
    → first_row p s ≡ some (some i)
    → (0 < count p s) × (p i ≡ true)
unfolding count
first_row-some p [] i e = absurd (cc)
first_row-some p (r ∷ []) i e =
    let (same, h) = one_row p r i e in (rw h (omega arith), ap p (sym same) ∙ h)
first_row-some p (r ∷ t ∷ rs) i e = absurd (cc)

pub first_row-key :
    (p : LibraryItem → Bool) (s : List LibraryItem) (i : LibraryItem)
    → first_row p s ≡ some (some i)
    → All (λ k. (text_eq k.id i.id ≡ false) ⊎ (k ≡ i)) s
first_row-key p [] i e = absurd (cc)
first_row-key p (r ∷ []) i e = let (same, h) = one_row p r i e in (inr same, ground arith)
first_row-key p (r ∷ t ∷ rs) i e = absurd (cc)

abbrev pub table : Rows
table = record {
  Store = List LibraryItem;
  rows = λ s. s;
  now = λ s. 1000;
  new_uuid = λ s. (codes "id", s);
  select_first = first_row;
  insert = λ i s. (true, i ∷ s);
  save = λ i s. (true, put_row i s);
  add_job = λ q s. (true, s);
  new_uuid_lem = λ s. refl;
  select_none = first_row-none;
  select_some = first_row-some;
  select_key = first_row-key;
  insert_lem = λ p i s s' e. ap (count p) (sym (ap (λ r. r.1) e));
  save_lem = λ i s s' e. sym (ap (λ r. r.1) e);
  add_job_lem = λ q s s' e. sym (ap (λ r. r.1) e);
}

abbrev pub parser : UrlPackage
parser = record {
  Url = Text;
  parse = λ t. some t;
  scheme = λ u. codes "https";
  hostname = λ u. codes "a.org";
  path = λ u. codes "/x/";
  query = λ u. (codes "utm_source", codes "feed") ∷ (codes "p", codes "1") ∷ [];
  write = λ u q. u;
}
