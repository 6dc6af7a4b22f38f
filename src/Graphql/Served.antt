-- ===== src/Graphql/Served.antt =====
-- A rule on the writes holds of every request.
use omnivore_go.Prelude.{
  ℕ, Text, Bool, true, false, All, List, [], ◌∷◌, Option, none, some, ◌≡◌, refl, Bool-cases, inl,
  inr,
}
use omnivore_go.Graphql.Tables.{
  Label, LibraryItem, Store, Outside, find_label_by_name, get_labels, get_item, get_highlight,
}
use omnivore_go.Graphql.Inputs.{
  Code, refuse, CreateLabelInput, with_archived, CreateHighlightInput, new_highlight,
  UpdateHighlightInput, with_notes, UpdatePageInput, with_page,
}
use omnivore_go.Graphql.Resolver.{
  save_label, unless_named, create_label, parse_all, read_labels, set_labels, bookmarked,
  set_bookmark, set_bookmark_article, set_link_archived, save_highlight, create_highlight,
  change_highlight, remove_highlight, saved_at_of, reload_page, update_page, Request, serve,
  serve_all,
}
use omnivore_go.Graphql.Rules.{
  Rule, MayBy, Keeps, given_at, given-Keeps, written-Keeps, answered-Keeps, signed_in-Keeps,
  if_owner-Keeps, if_owner_at,
}

module _ (outside : Outside) (May : Text → Type 0) (R : Store → Store → Type 0)
    (rule : Rule outside May R) where
  unless_named-Keeps :
      (u : Text) (input : CreateLabelInput) (found : Option Label) (s : Store)
      → May u
      → find_label_by_name outside u input.name s ≡ some found
      → R s (unless_named outside u input found s).1
  unfolding unless_named save_label refuse
  unless_named-Keeps u input (some l) s may e = rule.same s
  unless_named-Keeps u input none s may e =
      written-Keeps outside May R rule Code.bad_request _ s _ (rule.inserts_label u input s may e)

  create_label-Keeps :
      (caller : Option Text) (input : CreateLabelInput)
      → MayBy outside May caller
      → Keeps outside May R rule (create_label outside caller input)
  unfolding create_label
  create_label-Keeps caller input n = signed_in-Keeps outside May R rule _ _ caller _ n (λ u may s.
      given_at outside May R rule _ (find_label_by_name outside u input.name s) _ s
        (λ found e. unless_named-Keeps u input found s may e))

  read_labels-Keeps :
      (u : Text) (ids : List Text) (s : Store) (r : Bool × Store)
      → R s r.1
      → R s (read_labels outside u ids r).1
  unfolding read_labels
  read_labels-Keeps u ids s (ok, t) h = elim (Bool-cases ok) [
    | inl e ↦
        rw e (answered-Keeps outside May R rule Code.bad_request (get_labels outside u ids t) s t h)
    | inr e ↦ rw e h
  ]

  set_labels-Keeps :
      (caller : Option Text) (page : Text) (ids : List Text)
      → MayBy outside May caller
      → Keeps outside May R rule (set_labels outside caller page ids)
  unfolding set_labels
  set_labels-Keeps caller page ids n = signed_in-Keeps outside May R rule _ _ caller _ n (λ u may.
      given-Keeps outside May R rule _ (outside.parse_uuid page) _ (λ item s.
        given_at outside May R rule _ (get_item outside u item s) _ s (λ row found.
          if_owner_at outside May R rule _ u row.user_id _ s (λ same.
            given_at outside May R rule _ (parse_all outside ids) _ s (λ parsed e.
              read_labels-Keeps u parsed s _ (rule.sets_labels u item parsed row s may found))))))

  bookmarked-Keeps :
      (u : Text) (row : LibraryItem) (s : Store) (r : Bool × Store)
      → R s r.1
      → R s (bookmarked outside u row r).1
  unfolding bookmarked
  bookmarked-Keeps u row s (ok, t) h = elim (Bool-cases ok) [ inl e ↦ rw e h | inr e ↦ rw e h ]

  set_bookmark-Keeps :
      (keep : Bool) (u : Text) (row : LibraryItem)
      → May u
      → row.user_id ≡ u
      → Keeps outside May R rule (set_bookmark outside keep u row)
  unfolding set_bookmark
  set_bookmark-Keeps true u row may owned s = bookmarked-Keeps u row s (true, s) (rule.same s)
  set_bookmark-Keeps false u row may owned s =
      bookmarked-Keeps u _ s _ (rule.updates_item u _ s may owned)

  set_bookmark_article-Keeps :
      (caller : Option Text) (article : Text) (keep : Bool)
      → MayBy outside May caller
      → Keeps outside May R rule (set_bookmark_article outside caller article keep)
  unfolding set_bookmark_article
  set_bookmark_article-Keeps caller article keep n =
      signed_in-Keeps outside May R rule _ _ caller _ n (λ u may.
        given-Keeps outside May R rule _ (outside.parse_uuid article) _ (λ id s.
          given-Keeps outside May R rule _ (get_item outside u id s) _
            (λ row.
              if_owner-Keeps outside May R rule _ u row.user_id _
                (set_bookmark-Keeps keep u row may))
            s))

  with_archived-owner :
      (archived : Bool) (at : ℕ) (row : LibraryItem)
      → (with_archived archived at row).user_id ≡ row.user_id
  unfolding with_archived
  with_archived-owner true at row = refl
  with_archived-owner false at row = refl

  set_link_archived-Keeps :
      (caller : Option Text) (link : Text) (archived : Bool)
      → MayBy outside May caller
      → Keeps outside May R rule (set_link_archived outside caller link archived)
  unfolding set_link_archived
  set_link_archived-Keeps caller link archived n =
      signed_in-Keeps outside May R rule _ _ caller _ n (λ u may.
        given-Keeps outside May R rule _ (outside.parse_uuid link) _ (λ id s.
          given-Keeps outside May R rule _ (get_item outside u id s) _
            (λ row. if_owner-Keeps outside May R rule _ u row.user_id _ (λ same t.
              written-Keeps outside May R rule _ _ t _ (
                rule.updates_item u (with_archived archived (outside.now t) row) t may
                  (rw (with_archived-owner archived (outside.now t) row) same))))
            s))

  create_highlight-Keeps :
      (caller : Option Text) (input : CreateHighlightInput)
      → MayBy outside May caller
      → Keeps outside May R rule (create_highlight outside caller input)
  unfolding create_highlight save_highlight new_highlight
  create_highlight-Keeps caller input n =
      signed_in-Keeps outside May R rule _ _ caller _ n (λ u may.
        given-Keeps outside May R rule _ (outside.parse_uuid input.id) _ (λ id.
          given-Keeps outside May R rule _ (outside.parse_uuid input.article_id) _ (λ item s.
            given-Keeps outside May R rule _ (get_item outside u item s) _
              (λ row. if_owner-Keeps outside May R rule _ u row.user_id _ (λ same t.
                written-Keeps outside May R rule _ _ t _
                  (rule.inserts_highlight (new_highlight u id item input) t may)))
              s)))

  change_highlight-Keeps :
      (caller : Option Text) (input : UpdateHighlightInput)
      → MayBy outside May caller
      → Keeps outside May R rule (change_highlight outside caller input)
  unfolding change_highlight with_notes
  change_highlight-Keeps caller input n =
      signed_in-Keeps outside May R rule _ _ caller _ n (λ u may.
        given-Keeps outside May R rule _ (outside.parse_uuid input.highlight_id) _ (λ id s.
          given-Keeps outside May R rule _ (get_highlight outside id s) _
            (λ h. if_owner-Keeps outside May R rule _ u h.user_id _ (λ same t.
              written-Keeps outside May R rule _ _ t _
                (rule.updates_highlight u (with_notes input h) t may same)))
            s))

  remove_highlight-Keeps :
      (caller : Option Text) (highlight : Text)
      → MayBy outside May caller
      → Keeps outside May R rule (remove_highlight outside caller highlight)
  unfolding remove_highlight
  remove_highlight-Keeps caller highlight n =
      signed_in-Keeps outside May R rule _ _ caller _ n (λ u may.
        given-Keeps outside May R rule _ (outside.parse_uuid highlight) _ (λ id s.
          given-Keeps outside May R rule _ (get_highlight outside id s) _
            (λ h t. written-Keeps outside May R rule _ _ t _ (rule.deletes_highlight u id t may))
            s))

  reload_page-Keeps :
      (u id : Text) (s : Store) (r : Bool × Store) → R s r.1 → R s (reload_page outside u id r).1
  unfolding reload_page
  reload_page-Keeps u id s (ok, t) h = elim (Bool-cases ok) [
    | inl e ↦
        rw e (answered-Keeps outside May R rule Code.not_found (get_item outside u id t) s t h)
    | inr e ↦ rw e h
  ]

  update_page-Keeps :
      (caller : Option Text) (input : UpdatePageInput)
      → MayBy outside May caller
      → Keeps outside May R rule (update_page outside caller input)
  unfolding update_page with_page
  update_page-Keeps caller input n = signed_in-Keeps outside May R rule _ _ caller _ n (λ u may.
      given-Keeps outside May R rule _ (outside.parse_uuid input.page_id) _ (λ id s.
        given-Keeps outside May R rule _ (get_item outside u id s) _
          (λ row. if_owner-Keeps outside May R rule _ u row.user_id _ (λ same.
            given-Keeps outside May R rule _ (saved_at_of outside input.saved_at row.saved_at) _
              (λ at t. reload_page-Keeps u id t _ (rule.updates_item u _ t may same))))
          s))

  serve-Keeps :
      (caller : Option Text) (q : Request) (s : Store)
      → MayBy outside May caller
      → R s (serve outside caller q s)
  unfolding serve
  serve-Keeps caller (Request.create_label_request input) s n = create_label-Keeps caller input n s
  serve-Keeps caller (Request.set_labels_request page ids) s n =
      set_labels-Keeps caller page ids n s
  serve-Keeps caller (Request.bookmark_request a keep) s n =
      set_bookmark_article-Keeps caller a keep n s
  serve-Keeps caller (Request.archive_request l a) s n = set_link_archived-Keeps caller l a n s
  serve-Keeps caller (Request.create_highlight_request input) s n =
      create_highlight-Keeps caller input n s
  serve-Keeps caller (Request.update_highlight_request input) s n =
      change_highlight-Keeps caller input n s
  serve-Keeps caller (Request.delete_highlight_request id) s n =
      remove_highlight-Keeps caller id n s
  serve-Keeps caller (Request.update_page_request input) s n = update_page-Keeps caller input n s

  pub serve_all-Keeps :
      (qs : List (Option Text × Request)) (s : Store)
      → All (λ q. MayBy outside May q.0) qs
      → R s (serve_all outside qs s)
  unfolding serve_all
  serve_all-Keeps [] s h = (rule.same s)
  serve_all-Keeps ((caller, q) ∷ qs) s (n, h) =
      rule.then_again s (serve outside caller q s) _ (serve-Keeps caller q s n)
        (serve_all-Keeps qs (serve outside caller q s) h)
