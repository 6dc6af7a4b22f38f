-- ===== src/Graphql/Search.antt =====
-- internal/graphql/resolver/schema.resolvers.go: Search, behind the middleware that finds the user
-- of a request (cmd/server/api.go).
use mathlib.Core.Path.{subst}
use omnivore_go.Prelude.{
  ℕ, byte_length, ◌-◌, ◌%◌, ◌^◌, ◌≤◌, Text, Bool, All, List, [], ◌∷◌, Option, none, some, ltb, ◌≡◌,
  refl, sym, ap, ◌∙◌, arith, Bool-cases, inl, inr, if◌then◌else◌,
}
use omnivore_go.Prelude.Unicode.{Unicode}
use omnivore_go.Prelude.Int.{ℤ, pos, negsuc}
use omnivore_go.Search.Library.{Library}
use omnivore_go.Search.Service.{SearchParams, SearchResult, Outcome, page_offset, page_size, search}
use omnivore_go.Search.Service.Scope.{InScope, search-InScope}
use omnivore_go.Auth.Keys.{Keys}
use omnivore_go.Auth.Middleware.{Jwt, Request, ContextUser, auth, require_auth}
use omnivore_go.Auth.Proven.{IsProven, auth-IsProven}

-- The conversion of an int that is not negative to int32
unfoldable pub to_int32 : ℕ → ℤ
to_int32 n = let m = n % 2 ^ 32 in if ltb m (2 ^ 31) then pos m else negsuc (2 ^ 32 - m - 1)

-- The edges by their items, before the conversion to GraphQL models, and the information on the page
pub record SearchConnection {ℓ} (Item : Type ℓ) : Type ℓ where
  pub nodes : List Item
  pub has_next_page : Bool
  pub has_previous_page : Bool
  pub start_cursor : Text
  pub end_cursor : Text
  pub total_count : ℤ

pub data SearchAnswer {ℓ} (Item : Type ℓ) : Type ℓ where
  answered : SearchConnection Item → SearchAnswer Item
  unauthorized query_too_long failed panicked : SearchAnswer Item

module _ {ℓ} {Item : Type ℓ} where
  unfoldable pub connection : SearchResult Item → SearchConnection Item
  unfolding to_int32
  connection r = record {
    nodes = r.items;
    has_next_page = r.has_next_page;
    has_previous_page = r.has_previous_page;
    start_cursor = r.start_cursor;
    end_cursor = r.end_cursor;
    total_count = to_int32 r.total_count;
  }

  unfoldable pub shown : Outcome (SearchResult Item) → SearchAnswer Item
  shown (Outcome.found r) = SearchAnswer.answered (connection r)
  shown Outcome.failed = SearchAnswer.failed
  shown Outcome.panicked = SearchAnswer.panicked

  answered-found :
      (o : Outcome (SearchResult Item)) (c : SearchConnection Item)
      → shown o ≡ SearchAnswer.answered c
      → (r : SearchResult Item) × (o ≡ Outcome.found r) × (c.nodes ≡ r.items)
  unfolding shown connection
  answered-found (Outcome.found r) c e =
      let same : c ≡ connection r = cc e in (r, refl, ap (λ x. x.nodes) same)
  answered-found Outcome.failed c e = absurd (cc)
  answered-found Outcome.panicked c e = absurd (cc)

-- A query that is left out is empty.
unfoldable pub query_or_empty : Option Text → Text
query_or_empty none = []
query_or_empty (some q) = q

module _ (u : Unicode) (lib : Library) (parse_uuid : Text → Option Text) where
  open lib use {Item, user_id}

  abbrev params : Text → Text → Option Text → Option ℤ → SearchParams
  params user query after first = record {
    user_id = user;
    query = query;
    after = after;
    first = first;
  }

  unfoldable pub search_limited : Text → Option Text → Option ℤ → Text → SearchAnswer Item
  search_limited user after first query =
      if ltb 1000 (byte_length query)
      then SearchAnswer.query_too_long
      else shown (search u lib (params user query after first))

  unfoldable pub search_as : Option Text → Option Text → Option ℤ → Text → SearchAnswer Item
  search_as none after first query = SearchAnswer.failed
  search_as (some user) after first query = search_limited user after first query

  -- Search
  unfoldable pub search_items :
      Option ContextUser → Option Text → Option ℤ → Option Text → SearchAnswer Item
  search_items none after first query = SearchAnswer.unauthorized
  search_items (some v) after first query =
      search_as (parse_uuid v.id) after first (query_or_empty query)

  -- What an answer to a user shows: items of that user alone, for a query of at most 1000 bytes.
  abbrev pub IsOwn : Text → Text → SearchConnection Item → Type 0
  IsOwn user query c = (byte_length query ≤ 1000) × All (λ i. user_id i ≡ user) c.nodes

  All-owner :
      (user query : Text) (after : Option Text) (first : Option ℤ) (is : List Item)
      → All (InScope u lib (params user query after first)) is
      → All (λ i. user_id i ≡ user) is
  All-owner user query after first [] h = tt
  All-owner user query after first (i ∷ is) ((mine, _), h) =
      (mine, All-owner user query after first is h)

  limited-IsOwn :
      (user query : Text) (after : Option Text) (first : Option ℤ) (o n : ℕ)
      (c : SearchConnection Item)
      → page_offset after ≡ pos o
      → page_size first ≡ pos n
      → search_limited user after first query ≡ SearchAnswer.answered c
      → IsOwn user query c
  unfolding search_limited
  limited-IsOwn user query after first o n c at size e =
      elim (Bool-cases (ltb 1000 (byte_length query))) [
        | inl long ↦ let bad = rw long at e in absurd (cc)
        | inr short ↦
            let (r, is, same) = answered-found _ c (rw short at e) in
            (
              ground (arith, short),
              rw same (
                  All-owner user query after first r.items
                    (search-InScope u lib (params user query after first) o n r at size is)),
            )
      ]

  as-IsOwn :
      (user : Option Text) (query : Text) (after : Option Text) (first : Option ℤ) (o n : ℕ)
      (c : SearchConnection Item)
      → page_offset after ≡ pos o
      → page_size first ≡ pos n
      → search_as user after first query ≡ SearchAnswer.answered c
      → (v : Text) × (user ≡ some v) × IsOwn v query c
  unfolding search_as
  as-IsOwn none query after first o n c at size e = absurd (cc)
  as-IsOwn (some v) query after first o n c at size e =
      (v, refl, limited-IsOwn v query after first o n c at size e)

  search_items-IsOwn :
      (caller : Option ContextUser) (query : Option Text) (after : Option Text) (first : Option ℤ)
      (o n : ℕ) (c : SearchConnection Item)
      → page_offset after ≡ pos o
      → page_size first ≡ pos n
      → search_items caller after first query ≡ SearchAnswer.answered c
      → (w : ContextUser) × (caller ≡ some w)
        × ((v : Text) × (parse_uuid w.id ≡ some v) × IsOwn v (query_or_empty query) c)
  unfolding search_items
  search_items-IsOwn none query after first o n c at size e = absurd (cc)
  search_items-IsOwn (some w) query after first o n c at size e =
      (w, refl, as-IsOwn (parse_uuid w.id) (query_or_empty query) after first o n c at size e)

  module _ (jwt : Jwt) (env : Keys) where
    -- A request for the query search, through the middleware
    unfoldable pub serve_search :
        Request → env.Store → Option Text → Option ℤ → Option Text → SearchAnswer Item
    serve_search r s after first query = search_items (auth jwt env r s).0 after first query

    -- When a request for a search is answered, at an offset and a size that are not negative, then
    -- the middleware has found its user: by a token in its header or cookie that verifies, by a
    -- valid API key, or, for any cached value of its key, the nil user. The query has at most 1000
    -- bytes, and all items of the answer belong to the user found.
    pub serve_search-IsOwn :
        (r : Request) (s : env.Store) (query : Option Text) (after : Option Text) (first : Option ℤ)
        (o n : ℕ) (c : SearchConnection Item)
        → page_offset after ≡ pos o
        → page_size first ≡ pos n
        → serve_search r s after first query ≡ SearchAnswer.answered c
        → (w : ContextUser) × ((auth jwt env r s).0 ≡ some w)
          × IsProven jwt env r s w
          × ((v : Text) × (parse_uuid w.id ≡ some v) × IsOwn v (query_or_empty query) c)
    unfolding serve_search require_auth
    serve_search-IsOwn r s query after first o n c at size e =
        let (w, known, own) =
          search_items-IsOwn (auth jwt env r s).0 query after first o n c at size e in
        let (w', same, proof) = auth-IsProven jwt env r s (rw known refl) in
        let users : w' ≡ w = cc (sym same ∙ known) in
        (w, known, subst (IsProven jwt env r s) users proof, own)
