-- ===== src/SaveUrl/Once.antt =====
-- What SaveURL stores, and what it sends to be fetched.
use omnivore_go.Prelude.{
  ℕ, suc, ◌≤◌, Text, codes, text_eq, text_eq_refl, text_eq→eq, Bool, true, false, List, [], ◌∷◌,
  All, Option, none, some, ◌≡◌, refl, sym, ap, ◌∙◌, arith, ◌⊎◌, inl, inr, if◌then◌else◌, Bool-cases,
}
use omnivore_go.Prelude.Unicode.{Unicode}
use omnivore_go.SaveUrl.Address.{
  UrlPackage, validate_and_clean_url, is_tracking_param, without_tracking, values_of,
}
use omnivore_go.SaveUrl.Items.{LibraryItem, Rows, count, is_at, put_row}
use omnivore_go.SaveUrl.Service.{
  SaveUrlInput, SaveUrlResult, new_item, fetch_request, answer, enqueue_fetch, insert_item,
  create_item, update_item, create_or_update, save_cleaned, save_url,
}

-- Cleaning keeps all values of a parameter that is no tracking parameter, in their order, and
-- leaves none of one that is.
pub values_of-without_tracking :
    (k : Text) (q : List (Text × Text))
    → values_of k (without_tracking q) ≡ (if is_tracking_param k then [] else values_of k q)
unfolding values_of without_tracking
values_of-without_tracking k [] = ground arith
values_of-without_tracking k ((j, v) ∷ q) = elim (Bool-cases (text_eq j k)) [
  | inl e ↦
      let same = text_eq→eq j k e in
      let IH = values_of-without_tracking k q in rw (e, same) (ground (arith, IH))
  | inr e ↦ ground (arith, e, values_of-without_tracking k q)
]

count-put_row :
    (q : LibraryItem → Bool) (i j : LibraryItem) (rows : List LibraryItem)
    → All (λ k. (text_eq k.id i.id ≡ false) ⊎ (k ≡ i)) rows
    → j.id ≡ i.id
    → q j ≡ q i
    → count q (put_row j rows) ≡ count q rows
unfolding count
count-put_row q i j [] all e h = refl
count-put_row q i j (k ∷ rows) (inl other, all) e h =
    rw (e, other) (ground (arith, count-put_row q i j rows all e h))
count-put_row q i j (k ∷ rows) (inr same, all) e h =
    rw (e, same, text_eq_refl i.id) (ground (arith, h, count-put_row q i j rows all e h))

module _ (net : UrlPackage) (unicode : Unicode) (db : Rows) where
  open db use {Store, rows, add_job}

  some_inj : (x y : SaveUrlResult) → some x ≡ some y → y ≡ x
  some_inj x y e = cc

  answer-count :
      (input : SaveUrlInput) (url id : Text) (p : LibraryItem → Bool) (n : ℕ) (a : SaveUrlResult)
      (s s' : Store) (r : Bool × Store)
      → count p (rows s) ≡ n
      → add_job (fetch_request net unicode db input url id) s ≡ r
      → answer net unicode db input url id r ≡ (some a, s')
      → (a.url ≡ url) × (count p (rows s') ≡ n)
  unfolding answer
  answer-count input url id p n a s s' (false, t) many e k =
      let bad = ap (λ r. r.0) k in absurd (cc)
  answer-count input url id p n a s s' (true, t) many e k =
      let result = some_inj _ a (ap (λ r. r.0) k) in
      let kept = db.add_job_lem (fetch_request net unicode db input url id) s t e in
      let store = ap (λ r. r.1) k in
      (ap (λ x. x.url) result, ap (λ x. count p (rows x)) (sym store) ∙ ap (count p) kept ∙ many)

  enqueue_fetch-count :
      (input : SaveUrlInput) (url id : Text) (p : LibraryItem → Bool) (n : ℕ) (a : SaveUrlResult)
      (s' : Store) (r : Bool × Store)
      → ((t : Store) → r ≡ (true, t) → count p (rows t) ≡ n)
      → enqueue_fetch net unicode db input url id r ≡ (some a, s')
      → (a.url ≡ url) × (count p (rows s') ≡ n)
  unfolding enqueue_fetch
  enqueue_fetch-count input url id p n a s' (false, s) many h =
      let bad = ap (λ r. r.0) h in absurd (cc)
  enqueue_fetch-count input url id p n a s' (true, s) many h =
      answer-count input url id p n a s s' (add_job (fetch_request net unicode db input url id) s)
        (many s refl) refl h

  insert_item-count :
      (input : SaveUrlInput) (url id : Text) (o : Option Text) (a : SaveUrlResult) (s s' : Store)
      → count (is_at input.user_id url) (rows s) ≡ 0
      → insert_item net unicode db input url id o s ≡ (some a, s')
      → (a.url ≡ url) × (count (is_at input.user_id url) (rows s') ≡ 1)
  unfolding insert_item new_item count
  insert_item-count input url id none a s s' nothing h = let bad = ap (λ r. r.0) h in absurd (cc)
  insert_item-count input url id (some slug) a s s' nothing h =
      let item = new_item net unicode db input url id slug s in
      enqueue_fetch-count input url id (is_at input.user_id url) 1 a s' (db.insert item s)
        (λ t e.
          db.insert_lem (is_at input.user_id url) item s t e
          ∙ rw (text_eq_refl input.user_id, text_eq_refl url) (ap suc nothing))
        h

  update_item-count :
      (input : SaveUrlInput) (url : Text) (i : LibraryItem) (p : LibraryItem → Bool)
      (a : SaveUrlResult) (s s' : Store)
      → db.select_first p s ≡ some (some i)
      → update_item net unicode db input url i s ≡ (some a, s')
      → (a.url ≡ url)
        × (count (is_at input.user_id url) (rows s') ≡ count (is_at input.user_id url) (rows s))
  unfolding update_item
  update_item-count input url i p a s s' found h =
      let j : LibraryItem = record i { state = codes "PROCESSING"; saved_at = db.now s } in
      let q = is_at input.user_id url in
      enqueue_fetch-count input url i.id q (count q (rows s)) a s' (db.save j s)
        (λ t e.
          ap (count q) (db.save_lem j s t e)
          ∙ count-put_row q i j (rows s) (db.select_key p s i found) refl refl)
        h

  create_or_update-once :
      (input : SaveUrlInput) (url : Text) (o : Option (Option LibraryItem)) (a : SaveUrlResult)
      (s s' : Store)
      → count (is_at input.user_id url) (rows s) ≤ 1
      → db.select_first (is_at input.user_id url) s ≡ o
      → create_or_update net unicode db input url o s ≡ (some a, s')
      → (a.url ≡ url) × (count (is_at input.user_id url) (rows s') ≡ 1)
  unfolding create_or_update create_item
  create_or_update-once input url none a s s' few e h = let bad = ap (λ r. r.0) h in absurd (cc)
  create_or_update-once input url (some none) a s s' few e h =
      let nothing = db.select_none (is_at input.user_id url) s e in
      let t = (db.new_uuid s).1 in
      insert_item-count input url ((db.new_uuid s).0) _ a t s'
        (ap (count (is_at input.user_id url)) (db.new_uuid_lem s) ∙ nothing) h
  create_or_update-once input url (some (some i)) a s s' few e h =
      let (about, same) = update_item-count input url i (is_at input.user_id url) a s s' e h in
      let (some_row, passes) = db.select_some (is_at input.user_id url) s i e in
      (about, omega (arith, same, few, some_row))

  save_cleaned-once :
      (input : SaveUrlInput) (o : Option Text) (a : SaveUrlResult) (s s' : Store)
      → ((url : Text) → o ≡ some url → count (is_at input.user_id url) (rows s) ≤ 1)
      → save_cleaned net unicode db input o s ≡ (some a, s')
      → (o ≡ some a.url) × (count (is_at input.user_id a.url) (rows s') ≡ 1)
  unfolding save_cleaned
  save_cleaned-once input none a s s' few h = let bad = ap (λ r. r.0) h in absurd (cc)
  save_cleaned-once input (some url) a s s' few h =
      let (about, one) = create_or_update-once input url _ a s s' (few url refl) refl h in
      (ap some (sym about), ap (λ u. count (is_at input.user_id u) (rows s')) about ∙ one)

  -- When SaveURL answers, its answer is the URL that was given, checked and cleaned; and if no
  -- two rows were at one URL of the user, then exactly one row is at that URL behind it, whether
  -- the URL is new or was saved before.
  pub save_url-once :
      (input : SaveUrlInput) (a : SaveUrlResult) (s s' : Store)
      → ((url : Text) → count (is_at input.user_id url) (rows s) ≤ 1)
      → save_url net unicode db input s ≡ (some a, s')
      → (validate_and_clean_url net input.url ≡ some a.url)
        × (count (is_at input.user_id a.url) (rows s') ≡ 1)
  unfolding save_url
  save_url-once input a s s' few h =
      save_cleaned-once input (validate_and_clean_url net input.url) a s s' (λ url e. few url) h
