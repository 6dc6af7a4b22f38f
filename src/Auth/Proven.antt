-- ===== src/Auth/Proven.antt =====
-- What stands behind the user of a request.
use mathlib.Core.List.{Mem}
use mathlib.Core.Path.{subst}
use omnivore_go.Prelude.{
  ℕ, Text, codes, text_eq, has_prefix, trim_prefix, prefix-trim_prefix, ◌++◌, sym, true, false, [],
  Option, none, some, ◌≡◌, ◌⊎◌, inl, inr, refl, ◌∙◌, Bool-cases, &&_true,
}
use omnivore_go.Auth.Keys.{ApiKey, Keys, nil_uuid, is_none, is_usable}
use omnivore_go.Auth.ApiKey.{
  Validated, valid, invalid_key, expired, query_failed, is_expired, uuid_or, info_of,
  info_of_cached, cached_value, check_key, check_cached, validate_api_key,
}
use omnivore_go.Auth.Middleware.{
  Claims, Jwt, Request, ContextUser, validate_token, user_of_claims, bearer_user, cookie_user,
  or_cookie, token_user, user_of_info, after_key, auth, require_auth,
}

module _ (jwt : Jwt) (env : Keys) where
  open env use {Store, now, sha256_hex, first_key}

  -- The text behind "Bearer " in the header Authorization, or the cookie, if it is not empty.
  abbrev pub IsTokenOf : Request → Text → Type 0
  IsTokenOf r token =
      (r.authorization ≡ codes "Bearer " ++ token)
      ⊎ ((r.auth_cookie ≡ some token) × (text_eq token [] ≡ false))

  -- A token of the request that verifies, and whose claims name the user.
  abbrev pub HasToken : Request → ℕ → ContextUser → Type 0
  HasToken r t u =
      (token : Text) × (c : Claims) × IsTokenOf r token
      × (validate_token jwt token t ≡ some c)
      × (u ≡ record { id = c.user_id; role = c.user_role })

  -- A row of the API key that is not revoked and not expired, and whose user it is.
  abbrev pub HasKey : Request → Store → ContextUser → Type 0
  HasKey r s u =
      (k : ApiKey) × Mem k (env.keys s)
      × (text_eq k.key_hash (sha256_hex r.api_key) ≡ true)
      × (k.revoked_at ≡ none)
      × (is_expired k.expires_at (now s) ≡ false)
      × (u ≡ record { id = k.user_id; role = codes "omnivore_user" })

  -- Any value in the cache, which makes the request that of the nil user with no role.
  abbrev pub HasCached : Request → Store → ContextUser → Type 0
  HasCached r s u =
      (v : Text) × (cached_value env (sha256_hex r.api_key) s ≡ some v)
      × (text_eq v [] ≡ false)
      × (u ≡ record { id = nil_uuid; role = [] })

  claims_user :
      (o : Option Claims) (u : ContextUser)
      → user_of_claims jwt o ≡ some u
      → (c : Claims) × (o ≡ some c) × (u ≡ record { id = c.user_id; role = c.user_role })
  unfolding user_of_claims
  claims_user none u e = absurd (cc)
  claims_user (some c) u e = (c, refl, cc e)

  bearer-HasToken :
      (r : Request) (t : ℕ) (u : ContextUser)
      → bearer_user jwt r.authorization t ≡ some u
      → HasToken r t u
  unfolding bearer_user
  bearer-HasToken r t u e = elim (Bool-cases (has_prefix r.authorization (codes "Bearer "))) [
    | inl h ↦
        let (c, v, is) = claims_user _ u (rw h at e) in
        let whole = prefix-trim_prefix (codes "Bearer ") r.authorization h in
        (trim_prefix r.authorization (codes "Bearer "), c, inl (sym whole), v, is)
    | inr h ↦ let none_found = rw h at e in absurd (cc)
  ]

  cookie-HasToken :
      (r : Request) (t : ℕ) (u : ContextUser) (cookie : Option Text)
      → r.auth_cookie ≡ cookie
      → cookie_user jwt cookie t ≡ some u
      → HasToken r t u
  unfolding cookie_user
  cookie-HasToken r t u none read e = absurd (cc)
  cookie-HasToken r t u (some v) read e = elim (Bool-cases (text_eq v [])) [
    | inl h ↦ let none_found = rw h at e in absurd (cc)
    | inr h ↦
        let (c, valid_token, is) = claims_user _ u (rw h at e) in
        (v, c, inr (read, h), valid_token, is)
  ]

  either-HasToken :
      (r : Request) (t : ℕ) (u : ContextUser) (o : Option ContextUser)
      → bearer_user jwt r.authorization t ≡ o
      → or_cookie jwt o r t ≡ some u
      → HasToken r t u
  unfolding or_cookie
  either-HasToken r t u none b e = cookie-HasToken r t u r.auth_cookie refl e
  either-HasToken r t u (some v) b e = bearer-HasToken r t u (b ∙ e)

  token-HasToken :
      (r : Request) (t : ℕ) (u : ContextUser) → token_user jwt r t ≡ some u → HasToken r t u
  unfolding token_user
  token-HasToken r t u e = either-HasToken r t u (bearer_user jwt r.authorization t) refl e

  -- What stands behind a result of ValidateAPIKey.
  abbrev Backed : Request → Store → Validated × Store → Type 0
  Backed r s (valid info, s') =
      HasCached r s (user_of_info jwt env info) ⊎ HasKey r s (user_of_info jwt env info)
  Backed r s (other, s') = s' ≡ s

  none_from : (o : Option ℕ) → is_none o ≡ true → o ≡ none
  unfolding is_none
  none_from none e = refl
  none_from (some t) e = absurd (cc)

  usable_parts :
      (h : Text) (k : ApiKey)
      → is_usable h k ≡ true
      → (text_eq k.key_hash h ≡ true) × (k.revoked_at ≡ none)
  unfolding is_usable is_none
  usable_parts h k e = let (a, b) = &&_true _ _ e in (a, none_from k.revoked_at b)

  checked :
      (r : Request) (s : Store) (o : Option (Option ApiKey))
      → first_key (is_usable (sha256_hex r.api_key)) s ≡ o
      → Backed r s (check_key env (sha256_hex r.api_key) o s)
  unfolding check_key user_of_info info_of
  checked r s none e = refl
  checked r s (some none) e = refl
  checked r s (some (some k)) e = elim (Bool-cases (is_expired k.expires_at (now s))) [
    | inl x ↦ rw x refl
    | inr x ↦
        let (passes, there) = env.key_some _ s k e in
        let (same, unrevoked) = usable_parts (sha256_hex r.api_key) k passes in
        rw x (inr (k, there, same, unrevoked, x, refl))
  ]

  cached-Backed :
      (r : Request) (s : Store) (o : Option Text)
      → cached_value env (sha256_hex r.api_key) s ≡ o
      → Backed r s (check_cached env (sha256_hex r.api_key) o s)
  unfolding check_cached user_of_info info_of_cached uuid_or
  cached-Backed r s none e = checked r s (first_key (is_usable (sha256_hex r.api_key)) s) refl
  cached-Backed r s (some v) e = elim (Bool-cases (text_eq v [])) [
    | inl h ↦ rw h (checked r s (first_key (is_usable (sha256_hex r.api_key)) s) refl)
    | inr h ↦ rw h (inl (v, e, h, rw (env.scan_uuid_lem v) refl))
  ]

  validate-Backed : (r : Request) (s : Store) → Backed r s (validate_api_key env r.api_key s)
  unfolding validate_api_key
  validate-Backed r s = cached-Backed r s (cached_value env (sha256_hex r.api_key) s) refl

  -- What stands behind a user: an API key, or a token at the time of the request.
  abbrev pub IsProven : Request → Store → ContextUser → Type 0
  IsProven r s u =
      ((text_eq r.api_key [] ≡ false) × (HasCached r s u ⊎ HasKey r s u)) ⊎ HasToken r (now s) u

  after_key-IsProven :
      (r : Request) (s : Store) (v : Validated × Store) (u : ContextUser)
      → text_eq r.api_key [] ≡ false
      → Backed r s v
      → (after_key jwt env r v).0 ≡ some u
      → IsProven r s u
  unfolding after_key
  after_key-IsProven r s (valid info, s') u given b e =
      let same : user_of_info jwt env info ≡ u = cc e in
      inl (given, subst (λ x. HasCached r s x ⊎ HasKey r s x) same b)
  after_key-IsProven r s (invalid_key, s') u given b e =
      inr (subst (λ x. HasToken r (now x) u) b (token-HasToken r (now s') u e))
  after_key-IsProven r s (expired, s') u given b e =
      inr (subst (λ x. HasToken r (now x) u) b (token-HasToken r (now s') u e))
  after_key-IsProven r s (query_failed, s') u given b e =
      inr (subst (λ x. HasToken r (now x) u) b (token-HasToken r (now s') u e))

  found :
      (r : Request) (s : Store) (u : ContextUser) → (auth jwt env r s).0 ≡ some u → IsProven r s u
  unfolding auth
  found r s u e = elim (Bool-cases (text_eq r.api_key [])) [
    | inl h ↦ inr (token-HasToken r (now s) u (rw h at e))
    | inr h ↦ after_key-IsProven r s _ u h (validate-Backed r s) (rw h at e)
  ]

  let_through : (o : Option ContextUser) → require_auth o ≡ true → (u : ContextUser) × (o ≡ some u)
  unfolding require_auth
  let_through none e = absurd (cc)
  let_through (some u) e = (u, refl)

  -- If RequireAuth lets a request pass, then the text behind "Bearer " in its header, or its cookie,
  -- is a token that verifies and names the user, or the request's API key is that of a row that is
  -- neither revoked nor expired and is of that user, or the cache holds a value for the key: then
  -- the user is not that of the key, but the nil UUID with no role, whatever the value is, and
  -- whether or not the key was revoked or has expired.
  pub auth-IsProven :
      (r : Request) (s : Store)
      → require_auth ((auth jwt env r s).0) ≡ true
      → (u : ContextUser) × ((auth jwt env r s).0 ≡ some u) × IsProven r s u
  auth-IsProven r s e =
      let (u, is) = let_through ((auth jwt env r s).0) e in (u, is, found r s u is)
