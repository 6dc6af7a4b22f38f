-- ===== src/Graphql/Reads.antt =====
-- What is read after a mutation.
use omnivore_go.Prelude.{
  ℕ, Text, codes, text_eq, text_eq→eq, text_eq_refl, Bool, true, false, ◌&&◌, not, List, [], ◌∷◌,
  map, select, none, some, ◌≡◌, refl, sym, ◌∙◌, arith, Bool-cases, inl, inr,
}
use omnivore_go.Prelude.First.{first}
use omnivore_go.Graphql.Tables.{
  Highlight, LibraryItem, Store, Outside, Call, put_item, stored, micros_or_null, get_item,
  update_item, get_highlight, delete_highlight,
}
use omnivore_go.Graphql.Inputs.{success, given, written, if_owner, with_archived}
use omnivore_go.Graphql.Resolver.{signed_in, set_link_archived, remove_highlight}

abbrev pub is_own : Text → Text → LibraryItem → Bool
is_own user id r = text_eq r.id id && text_eq r.user_id user

first-put_item :
    (u id : Text) (row new : LibraryItem) (rows : List LibraryItem)
    → first (is_own u id) rows ≡ some row
    → new.id ≡ id
    → new.user_id ≡ u
    → first (is_own u id) (map (put_item u new) rows) ≡ some new
unfolding put_item
first-put_item u id row new [] e i o = absurd (cc)
first-put_item u id row new (r ∷ rs) e i o = elim (Bool-cases (is_own u id r)) [
  | inl own ↦
      let hit : (text_eq r.id new.id && text_eq r.user_id u) ≡ true = rw i own in
      let own_id : text_eq new.id id ≡ true = rw i (text_eq_refl id) in
      let own_user : text_eq new.user_id u ≡ true = rw o (text_eq_refl u) in
      rw (hit, own_id, own_user) refl
  | inr other ↦
      let miss : (text_eq r.id new.id && text_eq r.user_id u) ≡ false = rw i other in
      rw (miss, other) (first-put_item u id row new rs (rw other at e) i o)
]

first-own :
    (u id : Text) (row : LibraryItem) (rows : List LibraryItem)
    → first (is_own u id) rows ≡ some row
    → (row.id ≡ id) × (row.user_id ≡ u)
first-own u id row [] e = absurd (cc)
first-own u id row (r ∷ rs) e = elim (Bool-cases (is_own u id r)) [
  | inl own ↦
      let same : r ≡ row = cc (rw own at e) in
      rw (sym same)
        (text_eq→eq r.id id (ground (arith, own)), text_eq→eq r.user_id u (ground (arith, own)))
  | inr other ↦ first-own u id row rs (rw other at e)
]

first-select :
    (u id : Text) (h : Highlight) (hs : List Highlight)
    → first (λ r. text_eq r.id id) hs ≡ some h
    → text_eq h.user_id u ≡ false
    → first (λ r. text_eq r.id id) (select (λ r. not (text_eq r.id id && text_eq r.user_id u)) hs)
      ≡ some h
first-select u id h [] e foreign = absurd (cc)
first-select u id h (r ∷ rs) e foreign = elim (Bool-cases (text_eq r.id id)) [
  | inl hit ↦
      let same : r ≡ h = cc (rw hit at e) in
      let other : text_eq r.user_id u ≡ false = rw same foreign in
      rw (hit, other, hit) (rw hit at e)
  | inr miss ↦ rw (miss, miss) (first-select u id h rs (rw miss at e) foreign)
]

module _ (outside : Outside) where
  -- No call fails.
  abbrev pub IsUp : Type 0
  IsUp = (c : Call) (s : Store) → outside.fails c s ≡ false

  pub get_item-own :
      (u id : Text) (row : LibraryItem) (s : Store)
      → IsUp
      → get_item outside u id s ≡ some row
      → (first (is_own u id) s.items ≡ some row) × (row.id ≡ id) × (row.user_id ≡ u)
  unfolding get_item
  get_item-own u id row s up e =
      let found : first (is_own u id) s.items ≡ some row = rw (up Call.call_get_item s) at e in
      let (own, mine) = first-own u id row s.items found in (found, own, mine)

  abbrev pub updated : LibraryItem → Store → LibraryItem
  updated new s = record (stored outside new) { updated_at = outside.saved_now s }

  pub get_item-update_item :
      (u id : Text) (row new : LibraryItem) (s : Store)
      → IsUp
      → get_item outside u id s ≡ some row
      → new.id ≡ row.id
      → new.user_id ≡ row.user_id
      → ((update_item outside u new s).0 ≡ true)
        × (get_item outside u id (update_item outside u new s).1 ≡ some (updated new s))
  unfolding update_item get_item stored
  get_item-update_item u id row new s up e i o =
      let (found, own, mine) = get_item-own u id row s up e in
      let read = first-put_item u id row (updated new s) s.items found (i ∙ own) (o ∙ mine) in
      (simp (up), simp (up, read))

  archived-kept :
      (archived : Bool) (at : ℕ) (row : LibraryItem)
      → ((with_archived archived at row).id ≡ row.id)
        × ((with_archived archived at row).user_id ≡ row.user_id)
  unfolding with_archived
  archived-kept true at row = (refl, refl)
  archived-kept false at row = (refl, refl)

  set_link_archived-reads :
      (caller link u id : Text) (archived : Bool) (row : LibraryItem) (s : Store)
      → IsUp
      → outside.parse_uuid caller ≡ some u
      → outside.parse_uuid link ≡ some id
      → get_item outside u id s ≡ some row
      → get_item outside u id (set_link_archived outside (some caller) link archived s).1
        ≡ some (updated (with_archived archived (outside.now s) row) s)
  unfolding set_link_archived signed_in given if_owner written
  set_link_archived-reads caller link u id archived row s up known parsed found =
      let (same_id, same_user) = archived-kept archived (outside.now s) row in
      let (_, own, mine) = get_item-own u id row s up found in
      let (ok, read) =
        get_item-update_item u id row (with_archived archived (outside.now s) row) s up found
          same_id same_user in
      let owner : text_eq row.user_id u ≡ true = rw mine (text_eq_refl u) in
      simp (known, parsed, found, owner, ok, read)

  -- A link that is archived and then unarchived has the state SUCCEEDED, whatever state it had, and
  -- no time of archiving; all else but the time of the update is as it was, in the precision of the
  -- columns.
  pub set_link_archived-undo :
      (caller link u id : Text) (row : LibraryItem) (s : Store)
      → IsUp
      → outside.parse_uuid caller ≡ some u
      → outside.parse_uuid link ≡ some id
      → get_item outside u id s ≡ some row
      → let t = (set_link_archived outside (some caller) link true s).1 in
        get_item outside u id (set_link_archived outside (some caller) link false t).1
        ≡ some (record (stored outside row) {
          state = codes "SUCCEEDED";
          archived_at = none;
          updated_at = outside.saved_now t;
        })
  unfolding with_archived stored micros_or_null
  set_link_archived-undo caller link u id row s up known parsed found =
      let t = (set_link_archived outside (some caller) link true s).1 in
      let first_read = set_link_archived-reads caller link u id true row s up known parsed found in
      let second_read =
        set_link_archived-reads caller link u id false
          (updated (with_archived true (outside.now s) row) s) t up known parsed first_read in
      rw
        (
          ← outside.to_real-twice row.reading_progress_percent,
          ← outside.to_micros-twice row.saved_at,
        )
        second_read

  -- Who asks to delete another user's highlight is told that it is deleted and gets its text, and
  -- the highlight stays.
  pub remove_highlight-foreign :
      (caller u text id : Text) (h : Highlight) (s : Store)
      → IsUp
      → outside.parse_uuid caller ≡ some u
      → outside.parse_uuid text ≡ some id
      → get_highlight outside id s ≡ some h
      → text_eq h.user_id u ≡ false
      → ((remove_highlight outside (some caller) text s).0 ≡ success h)
        × (get_highlight outside id (remove_highlight outside (some caller) text s).1 ≡ some h)
  unfolding remove_highlight signed_in given written delete_highlight get_highlight
  remove_highlight-foreign caller u text id h s up known parsed found foreign =
      let here : first (λ r. text_eq r.id id) s.highlights ≡ some h =
        rw (up Call.call_get_highlight s) at found in
      let stays = first-select u id h s.highlights here foreign in
      (simp (known, parsed, here, up), simp (known, parsed, here, up, stays))
