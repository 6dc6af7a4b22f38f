-- ===== src/Graphql/Resolver.antt =====
-- internal/graphql/resolver/schema.resolvers.go: the mutations of labels, items and highlights.
use omnivore_go.Prelude.{
  ℕ, Text, codes, Bool, true, List, [], ◌∷◌, Option, none, some, if◌then◌else◌,
}
use omnivore_go.Graphql.Tables.{
  Label, Highlight, LibraryItem, Store, Outside, find_label_by_name, insert_label, get_labels,
  get_item, update_item, set_item_labels, insert_highlight, get_highlight, update_highlight,
  delete_highlight,
}
use omnivore_go.Graphql.Inputs.{
  Code, Answer, Action, CreateLabelInput, CreateHighlightInput, UpdateHighlightInput,
  UpdatePageInput, refuse, given, or_else, written, cons_parsed, if_owner, with_archived,
  new_highlight, with_notes, with_page, success, refused, failed,
}

-- A mutation of the schema
pub data Request : Type 0 where
  create_label_request : CreateLabelInput → Request
  set_labels_request : Text → List Text → Request
  bookmark_request : Text → Bool → Request
  archive_request : Text → Bool → Request
  create_highlight_request : CreateHighlightInput → Request
  update_highlight_request : UpdateHighlightInput → Request
  delete_highlight_request : Text → Request
  update_page_request : UpdatePageInput → Request

module _ (outside : Outside) where
  open outside use {parse_uuid, new_uuid, parse_time, now}

  -- db.GetUserFromContext and uuid.Parse of its id
  unfoldable pub signed_in : {A : Type 0} → Code → Code → Option Text → (Text → Action A) → Action A
  signed_in missing invalid caller k = given missing caller (λ id. given invalid (parse_uuid id) k)

  unfoldable pub new_label : Text → CreateLabelInput → Store → Label
  new_label user input s = record {
    id = new_uuid s;
    user_id = user;
    name = input.name;
    color = or_else input.color (codes "#3B82F6");
    description = input.description;
  }

  unfoldable pub save_label : Label → Action Label
  save_label l s = written Code.bad_request l (insert_label outside l s)

  unfoldable pub unless_named : Text → CreateLabelInput → Option Label → Action Label
  unless_named user input (some l) s = refuse Code.label_already_exists s
  unless_named user input none s = save_label (new_label user input s) s

  -- CreateLabel
  unfoldable pub create_label : Option Text → CreateLabelInput → Action Label
  create_label caller input = signed_in Code.unauthorized Code.bad_request caller (λ user s.
      given Code.bad_request (find_label_by_name outside user input.name s)
        (unless_named user input) s)

  -- The ids of the labels, if all can be parsed
  unfoldable pub parse_all : List Text → Option (List Text)
  parse_all [] = some []
  parse_all (t ∷ ts) = cons_parsed (parse_uuid t) (parse_all ts)

  unfoldable pub read_labels : Text → List Text → Bool × Store → Answer (List Label) × Store
  read_labels user ids (ok, s) =
      if ok
      then given Code.bad_request (get_labels outside user ids s) (λ ls t. (success ls, t)) s
      else (refused Code.bad_request, s)

  -- SetLabels
  unfoldable pub set_labels : Option Text → Text → List Text → Action (List Label)
  set_labels caller page ids = signed_in Code.unauthorized Code.bad_request caller (λ user.
      given Code.bad_request (parse_uuid page) (λ item s.
        given Code.not_found (get_item outside user item s)
          (λ row. if_owner Code.bad_request user row.user_id (
            given Code.bad_request (parse_all ids)
              (λ parsed t. read_labels user parsed (set_item_labels outside user item parsed t))))
          s))

  -- The item is read again; if that fails, the one at hand is the answer.
  unfoldable pub bookmarked : Text → LibraryItem → Bool × Store → Answer LibraryItem × Store
  bookmarked user row (ok, s) =
      if ok then (success (or_else (get_item outside user row.id s) row), s) else (failed, s)

  unfoldable pub set_bookmark : Bool → Text → LibraryItem → Action LibraryItem
  set_bookmark keep user row s =
      if keep
      then bookmarked user row (true, s)
      else let row = record row { state = codes "DELETED" } in
        bookmarked user row (update_item outside user row s)

  -- SetBookmarkArticle
  unfoldable pub set_bookmark_article : Option Text → Text → Bool → Action LibraryItem
  set_bookmark_article caller article keep = signed_in Code.not_found Code.not_found caller (λ user.
      given Code.not_found (parse_uuid article) (λ id s.
        given Code.not_found (get_item outside user id s)
          (λ row. if_owner Code.not_found user row.user_id (set_bookmark keep user row)) s))

  -- SetLinkArchived; the answer is the link's id.
  unfoldable pub set_link_archived : Option Text → Text → Bool → Action Text
  set_link_archived caller link archived =
      signed_in Code.unauthorized Code.bad_request caller (λ user.
        given Code.bad_request (parse_uuid link) (λ id s.
          given Code.not_found (get_item outside user id s)
            (λ row. if_owner Code.not_found user row.user_id (λ t.
              written Code.update_failed link
                (update_item outside user (with_archived archived (now t) row) t)))
            s))

  unfoldable pub save_highlight : Highlight → Action Highlight
  save_highlight h s = written Code.bad_data h (insert_highlight outside h s)

  -- CreateHighlight
  unfoldable pub create_highlight : Option Text → CreateHighlightInput → Action Highlight
  create_highlight caller input = signed_in Code.unauthorized Code.not_found caller (λ user.
      given Code.not_found (parse_uuid input.id) (λ id.
        given Code.not_found (parse_uuid input.article_id) (λ item s.
          given Code.not_found (get_item outside user item s)
            (λ row.
              if_owner Code.forbidden user row.user_id
                (save_highlight (new_highlight user id item input)))
            s)))

  -- UpdateHighlight
  unfoldable pub change_highlight : Option Text → UpdateHighlightInput → Action Highlight
  change_highlight caller input = signed_in Code.unauthorized Code.bad_request caller (λ user.
      given Code.bad_request (parse_uuid input.highlight_id) (λ id s.
        given Code.not_found (get_highlight outside id s)
          (λ h. if_owner Code.forbidden user h.user_id (λ t.
            let h = with_notes input h in
            written Code.bad_request h (update_highlight outside user h t)))
          s))

  -- DeleteHighlight: the resolver does not compare the users; the role does, in the DELETE. An id of
  -- the user that is none fails in the claims of the query.
  unfoldable pub remove_highlight : Option Text → Text → Action Highlight
  remove_highlight caller highlight = signed_in Code.unauthorized Code.not_found caller (λ user.
      given Code.not_found (parse_uuid highlight) (λ id s.
        given Code.not_found (get_highlight outside id s)
          (λ h t. written Code.forbidden h (delete_highlight outside user id t)) s))

  unfoldable pub saved_at_of : Option Text → ℕ → Option ℕ
  saved_at_of none old = some old
  saved_at_of (some t) old = parse_time t

  unfoldable pub reload_page : Text → Text → Bool × Store → Answer LibraryItem × Store
  reload_page user id (ok, s) =
      if ok
      then given Code.not_found (get_item outside user id s) (λ row t. (success row, t)) s
      else (refused Code.update_failed, s)

  -- UpdatePage
  unfoldable pub update_page : Option Text → UpdatePageInput → Action LibraryItem
  update_page caller input = signed_in Code.unauthorized Code.bad_request caller (λ user.
      given Code.bad_request (parse_uuid input.page_id) (λ id s.
        given Code.not_found (get_item outside user id s)
          (λ row. if_owner Code.forbidden user row.user_id (
            given Code.bad_request (saved_at_of input.saved_at row.saved_at) (λ at t.
              reload_page user id (
                update_item outside user (record (with_page input (now t) row) { saved_at = at })
                  t))))
          s))

  unfoldable pub serve : Option Text → Request → Store → Store
  serve caller (create_label_request input) s = (create_label caller input s).1
  serve caller (set_labels_request page ids) s = (set_labels caller page ids s).1
  serve caller (bookmark_request article keep) s = (set_bookmark_article caller article keep s).1
  serve caller (archive_request link archived) s = (set_link_archived caller link archived s).1
  serve caller (create_highlight_request input) s = (create_highlight caller input s).1
  serve caller (update_highlight_request input) s = (change_highlight caller input s).1
  serve caller (delete_highlight_request id) s = (remove_highlight caller id s).1
  serve caller (update_page_request input) s = (update_page caller input s).1

  -- Requests of any users, one after the other
  unfoldable pub serve_all : List (Option Text × Request) → Store → Store
  serve_all [] s = s
  serve_all ((caller, q) ∷ qs) s = serve_all qs (serve caller q s)
