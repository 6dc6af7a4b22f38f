-- ===== src/Jobs/SavePage/Rows.antt =====
-- The rows after the insert or update of save-page.
use mathlib.Core.Path.{subst}
use omnivore_go.Prelude.{
  Text, codes, text_eq, text_eq_refl, Bool, true, false, not, List, [], ◌∷◌, select, All, All-imp,
  ◌≡◌, ◌⊎◌, inl, inr, refl, sym, ap, ◌∙◌, Bool-cases,
}
use omnivore_go.Jobs.SavePage.Page.{
  LibraryItem, Row, inserted_row, updated_row, is_row, has_row, put_rows,
}

-- A row is inserted where there was none of the id and the user, and otherwise the columns of the
-- UPDATE are overwritten.
abbrev pub Written : LibraryItem → List Row → List Row → Type 0
Written i rs rs' =
    ((has_row (is_row i.id i.user_id) rs ≡ false) × (rs' ≡ inserted_row i ∷ rs))
    ⊎ ((has_row (is_row i.id i.user_id) rs ≡ true)
        × (rs' ≡ put_rows (is_row i.id i.user_id) (updated_row i) rs))

-- The item is there, is not being processed, and all other rows are as they were.
pub record IsSaved (id user : Text) (rs rs' : List Row) : Type 0 where
  pub there : has_row (is_row id user) rs' ≡ true
  pub processed :
      All (λ r. is_row id user r ≡ true → text_eq r.state (codes "PROCESSING") ≡ false) rs'
  pub others : select (λ r. not (is_row id user r)) rs' ≡ select (λ r. not (is_row id user r)) rs

none_there : (p : Row → Bool) (rs : List Row) → has_row p rs ≡ false → All (λ r. p r ≡ false) rs
unfolding has_row
none_there p [] h = tt
none_there p (r ∷ rs) h = elim (Bool-cases (p r)) [
  | inl e ↦ let bad = rw e at h in absurd (cc)
  | inr e ↦ (e, none_there p rs (rw e at h))
]

inserted-is_row : (i : LibraryItem) → is_row i.id i.user_id (inserted_row i) ≡ true
unfolding is_row inserted_row
inserted-is_row i = rw (text_eq_refl i.id, text_eq_refl i.user_id) refl

updated-is_row :
    (i : LibraryItem) (id user : Text) (r : Row)
    → is_row id user (updated_row i r) ≡ is_row id user r
unfolding is_row updated_row
updated-is_row i id user r = refl

inserted-IsSaved :
    (i : LibraryItem) (rs : List Row)
    → text_eq i.state (codes "PROCESSING") ≡ false
    → has_row (is_row i.id i.user_id) rs ≡ false
    → IsSaved i.id i.user_id rs (inserted_row i ∷ rs)
unfolding has_row
inserted-IsSaved i rs done absent = record {
  there = rw (inserted-is_row i) refl;
  processed = (
    (λ h. unfold inserted_row in done),
    All-imp (λ r. is_row i.id i.user_id r ≡ false) _ (λ r e h. absurd (cc)) rs
        (none_there (is_row i.id i.user_id) rs absent),
  );
  others = rw (inserted-is_row i) refl;
}

put_rows-there :
    (i : LibraryItem) (id user : Text) (rs : List Row)
    → has_row (is_row id user) (put_rows (is_row id user) (updated_row i) rs)
      ≡ has_row (is_row id user) rs
unfolding has_row
put_rows-there i id user [] = refl
put_rows-there i id user (r ∷ rs) = elim (Bool-cases (is_row id user r)) [
  | inl e ↦ rw e (rw (updated-is_row i id user r, e) refl)
  | inr e ↦ rw e (rw e (put_rows-there i id user rs))
]

put_rows-processed :
    (i : LibraryItem) (id user : Text) (rs : List Row)
    → text_eq i.state (codes "PROCESSING") ≡ false
    → All
        (λ r. is_row id user r ≡ true → text_eq r.state (codes "PROCESSING") ≡ false)
        (put_rows (is_row id user) (updated_row i) rs)
put_rows-processed i id user [] done = tt
put_rows-processed i id user (r ∷ rs) done = elim (Bool-cases (is_row id user r)) [
  | inl e ↦ rw e ((λ h. unfold updated_row in done), put_rows-processed i id user rs done)
  | inr e ↦ rw e ((λ h. absurd (cc)), put_rows-processed i id user rs done)
]

put_rows-others :
    (i : LibraryItem) (id user : Text) (rs : List Row)
    → select (λ r. not (is_row id user r)) (put_rows (is_row id user) (updated_row i) rs)
      ≡ select (λ r. not (is_row id user r)) rs
put_rows-others i id user [] = refl
put_rows-others i id user (r ∷ rs) = elim (Bool-cases (is_row id user r)) [
  | inl e ↦ rw e (rw (updated-is_row i id user r, e) (put_rows-others i id user rs))
  | inr e ↦ rw e (rw e (ap (◌∷◌ r) (put_rows-others i id user rs)))
]

pub Written-IsSaved :
    (i : LibraryItem) (rs rs' : List Row)
    → text_eq i.state (codes "PROCESSING") ≡ false
    → Written i rs rs'
    → IsSaved i.id i.user_id rs rs'
Written-IsSaved i rs rs' done (inl (absent, e)) =
    subst (IsSaved i.id i.user_id rs) (sym e) (inserted-IsSaved i rs done absent)
Written-IsSaved i rs rs' done (inr (there, e)) = subst (IsSaved i.id i.user_id rs) (sym e) (record {
  there = put_rows-there i i.id i.user_id rs ∙ there;
  processed = put_rows-processed i i.id i.user_id rs done;
  others = put_rows-others i i.id i.user_id rs;
})
