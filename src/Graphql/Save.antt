-- ===== src/Graphql/Save.antt =====
-- internal/graphql/resolver/schema.resolvers.go: SaveURL, behind the middleware that finds the user
-- of a request.
use mathlib.Core.Path.{subst}
use omnivore_go.Prelude.{◌≤◌, Text, codes, [], Option, none, some, ◌≡◌, refl, sym, ap, ◌∙◌}
use omnivore_go.Prelude.Unicode.{Unicode}
use omnivore_go.SaveUrl.Address.{UrlPackage, validate_and_clean_url}
use omnivore_go.SaveUrl.Items.{Rows, count, is_at}
use omnivore_go.SaveUrl.Service.{SaveUrlInput, SaveUrlResult, save_url}
use omnivore_go.SaveUrl.Once.{save_url-once}
use omnivore_go.Auth.Keys.{Keys}
use omnivore_go.Auth.Middleware.{Jwt, Request, ContextUser, auth, require_auth}
use omnivore_go.Auth.Proven.{IsProven, auth-IsProven}
use omnivore_go.Graphql.Inputs.{or_else}

-- The input of the mutation
pub record SaveInput : Type 0 where
  pub url : Text
  pub source : Option Text
  pub client_request_id : Option Text
  pub timezone : Option Text
  pub locale : Option Text

pub data SaveAnswer : Type 0 where
  save_success : Text → Text → SaveAnswer
  save_unauthorized save_unknown : SaveAnswer

-- The input of the service; `fresh` is a new UUID, for a request that gives no id.
unfoldable pub service_input : Text → Text → SaveInput → SaveUrlInput
service_input fresh user input = record {
  user_id = user;
  url = input.url;
  source = or_else input.source (codes "api");
  client_request_id = or_else input.client_request_id fresh;
  timezone = input.timezone;
  locale = input.locale;
  labels = [];
}

module _ {S : Type 0} where
  unfoldable pub save_answer : Option SaveUrlResult × S → SaveAnswer × S
  save_answer (none, s) = (SaveAnswer.save_unknown, s)
  save_answer (some r, s) = (SaveAnswer.save_success r.url r.client_request_id, s)

  success_of :
      (r : Option SaveUrlResult × S) (url id : Text) (s' : S)
      → save_answer r ≡ (SaveAnswer.save_success url id, s')
      → (a : SaveUrlResult) × (r ≡ (some a, s')) × (a.url ≡ url)
  unfolding save_answer
  success_of (none, s) url id s' e = let bad = ap (λ x. x.0) e in absurd (cc)
  success_of (some a, s) url id s' e =
      let same : SaveAnswer.save_success a.url a.client_request_id
          ≡ SaveAnswer.save_success url id =
        ap (λ x. x.0) e in
      (a, ap (λ t. (some a, t)) (ap (λ x. x.1) e), cc same)

module _ (net : UrlPackage) (unicode : Unicode) (db : Rows) (parse_uuid : Text → Option Text) where
  open db use {Store, rows}

  unfoldable pub save_as : Text → SaveInput → Option Text → Store → SaveAnswer × Store
  save_as fresh input none s = (SaveAnswer.save_unknown, s)
  save_as fresh input (some user) s =
      save_answer (save_url net unicode db (service_input fresh user input) s)

  -- SaveURL
  unfoldable pub save_mutation : Text → SaveInput → Option ContextUser → Store → SaveAnswer × Store
  save_mutation fresh input none s = (SaveAnswer.save_unauthorized, s)
  save_mutation fresh input (some w) s = save_as fresh input (parse_uuid w.id) s

  -- The URL was checked and cleaned, and one row of the user is at it.
  abbrev pub IsSaved : SaveInput → Text → Text → Store → Type 0
  IsSaved input url user s =
      (validate_and_clean_url net input.url ≡ some url) × (count (is_at user url) (rows s) ≡ 1)

  -- No two rows of a user are at one URL.
  abbrev pub IsSingle : Store → Type 0
  IsSingle s = (user url : Text) → count (is_at user url) (rows s) ≤ 1

  as-IsSaved :
      (fresh url id : Text) (input : SaveInput) (user : Option Text) (s s' : Store)
      → IsSingle s
      → save_as fresh input user s ≡ (SaveAnswer.save_success url id, s')
      → (v : Text) × (user ≡ some v) × IsSaved input url v s'
  unfolding save_as service_input
  as-IsSaved fresh url id input none s s' single e = let bad = ap (λ x. x.0) e in absurd (cc)
  as-IsSaved fresh url id input (some v) s s' single e =
      let (a, saved, same) = success_of _ url id s' e in
      let once =
        save_url-once net unicode db (service_input fresh v input) a s s' (single v) saved in
      (v, refl, subst (λ x. IsSaved input x v s') same once)

  mutation-IsSaved :
      (fresh url id : Text) (input : SaveInput) (caller : Option ContextUser) (s s' : Store)
      → IsSingle s
      → save_mutation fresh input caller s ≡ (SaveAnswer.save_success url id, s')
      → (w : ContextUser) × (caller ≡ some w)
        × ((v : Text) × (parse_uuid w.id ≡ some v) × IsSaved input url v s')
  unfolding save_mutation
  mutation-IsSaved fresh url id input none s s' single e = let bad = ap (λ x. x.0) e in absurd (cc)
  mutation-IsSaved fresh url id input (some w) s s' single e =
      (w, refl, as-IsSaved fresh url id input (parse_uuid w.id) s s' single e)

  module _ (jwt : Jwt) (env : Keys) where
    -- A request for the mutation, through the middleware
    unfoldable pub serve_save : Text → SaveInput → Request → env.Store → Store → SaveAnswer × Store
    serve_save fresh input r k s = save_mutation fresh input (auth jwt env r k).0 s

    -- When a request to save a URL ends in success, where no two rows of a user were at one URL, then
    -- the middleware has found its user: by a token in its header or cookie that verifies, by a
    -- valid API key, or, for any cached value of its key, the nil user. The answer is the URL that
    -- was given, checked and cleaned, and exactly one row of the user found is at it.
    pub serve_save-IsSaved :
        (fresh url id : Text) (input : SaveInput) (r : Request) (k : env.Store) (s s' : Store)
        → IsSingle s
        → serve_save fresh input r k s ≡ (SaveAnswer.save_success url id, s')
        → (w : ContextUser) × ((auth jwt env r k).0 ≡ some w)
          × IsProven jwt env r k w
          × ((v : Text) × (parse_uuid w.id ≡ some v) × IsSaved input url v s')
    unfolding serve_save require_auth
    serve_save-IsSaved fresh url id input r k s s' single e =
        let (w, known, saved) =
          mutation-IsSaved fresh url id input (auth jwt env r k).0 s s' single e in
        let (w', same, proof) = auth-IsProven jwt env r k (rw known refl) in
        let users : w' ≡ w = cc (sym same ∙ known) in
        (w, known, subst (IsProven jwt env r k) users proof, saved)
