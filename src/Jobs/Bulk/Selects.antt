-- ===== src/Jobs/Bulk/Selects.antt =====
-- Which items the statements of the bulk actions select.
use omnivore_go.Prelude.{
  ℕ, ◌+◌, Text, Bool, ◌&&◌, not, List, [], ◌∷◌, ◌++◌, some, length, ◌≡◌, refl, ap, ◌∙◌, arith,
}
use omnivore_go.Jobs.Bulk.Filter.{BulkFilter, Arg, text_arg, int_arg, user_is, filter_clause}
use omnivore_go.Jobs.Bulk.Items.{
  Item, change_item, move_to, arg_at, member, holds, holds_all, Change,
}
use omnivore_go.Jobs.Bulk.Action.{statement, folder_statement, guard_of}
use omnivore_go.Jobs.Bulk.Arguments.{append_assoc1, arg_at-last, arith_one, ap2_and, arg_at-end}
use omnivore_go.Jobs.Bulk.Matches.{matches, holds_all-append, filter_clause-Sound}

module _ (ilike : Text → Text → Bool) where
  guard-holds :
      (args : List Arg) (excluded : List Text) (i : Item)
      → holds_all ilike args (guard_of excluded) i ≡ not (member i.state excluded)
  unfolding holds_all holds guard_of member
  guard-holds args [] i = refl
  guard-holds args (e ∷ es) i = ground arith

  pub statement-limit :
      (change : Change) (excluded : List Text) (user : Text) (f : BulkFilter) (limit : ℕ)
      → arg_at
          ((statement change excluded user f limit).0).limit
          ((statement change excluded user f limit).1)
        ≡ some (int_arg limit)
  unfolding statement
  statement-limit change excluded user f limit =
      arg_at-end ((filter_clause f (text_arg user ∷ [])).args) (int_arg limit)

  pub folder_statement-limit :
      (folder user : Text) (f : BulkFilter) (limit : ℕ)
      → arg_at
          ((folder_statement folder user f limit).0).limit
          ((folder_statement folder user f limit).1)
        ≡ some (int_arg limit)
  unfolding folder_statement
  folder_statement-limit folder user f limit =
      let p = filter_clause f (text_arg user ∷ []) in
      ap (λ n. arg_at (n + 1) ((p.args ++ text_arg folder ∷ []) ++ int_arg limit ∷ []))
        (arith_one p.args (text_arg folder))
      ∙ arg_at-end (p.args ++ text_arg folder ∷ []) (int_arg limit)

  -- The WHERE clause of an archive, a deletion or a mark holds, with the arguments that the code
  -- passes, for exactly the items of the user that the filter asks for and that are in no excluded
  -- state, and its LIMIT reads the limit.
  pub statement-selects :
      (change : Change) (excluded : List Text) (user : Text) (f : BulkFilter) (limit : ℕ) (i : Item)
      → (holds_all ilike
            ((statement change excluded user f limit).1)
            ((statement change excluded user f limit).0).conditions
            i
          ≡ (matches ilike user f i && not (member i.state excluded)))
        × (arg_at
              ((statement change excluded user f limit).0).limit
              ((statement change excluded user f limit).1)
            ≡ some (int_arg limit))
  unfolding statement
  statement-selects change excluded user f limit i =
      let p = filter_clause f (text_arg user ∷ []) in
      let args = p.args ++ int_arg limit ∷ [] in
      (
        holds_all-append ilike args (user_is 1 ∷ p.parts) (guard_of excluded) i
            ∙ ap2_and ((filter_clause-Sound ilike user f i).holds_as (int_arg limit ∷ []))
                (guard-holds args excluded i),
        arg_at-end p.args (int_arg limit),
      )

  -- The same of a move to a folder, whose SET clause reads the folder.
  pub folder_statement-selects :
      (folder user : Text) (f : BulkFilter) (limit now : ℕ) (i : Item)
      → (holds_all ilike
            ((folder_statement folder user f limit).1)
            ((folder_statement folder user f limit).0).conditions
            i
          ≡ matches ilike user f i)
        × (arg_at
              ((folder_statement folder user f limit).0).limit
              ((folder_statement folder user f limit).1)
            ≡ some (int_arg limit))
        × (change_item
              ((folder_statement folder user f limit).0).change
              ((folder_statement folder user f limit).1)
              now
              i
            ≡ record i { folder = folder; updated_at = now })
  unfolding folder_statement change_item move_to
  folder_statement-selects folder user f limit now i =
      let p = filter_clause f (text_arg user ∷ []) in
      let back = append_assoc1 p.args (text_arg folder) (int_arg limit ∷ []) in
      (
        ap (λ args. holds_all ilike args (user_is 1 ∷ p.parts) i) back
            ∙ (filter_clause-Sound ilike user f i).holds_as (text_arg folder ∷ int_arg limit ∷ []),
        ap (λ n. arg_at (n + 1) ((p.args ++ text_arg folder ∷ []) ++ int_arg limit ∷ []))
              (arith_one p.args (text_arg folder))
            ∙ arg_at-end (p.args ++ text_arg folder ∷ []) (int_arg limit),
        ap (λ o. move_to o now i)
            (arg_at-last p.args (text_arg folder) (int_arg limit ∷ []) (length p.args + 1) refl),
      )
