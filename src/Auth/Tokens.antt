-- ===== src/Auth/Tokens.antt =====
-- A token that is handed out at a sign-in is the user's at the next request.
use omnivore_go.Prelude.{
  ℕ, ◌+◌, ◌<◌, Text, codes, text_eq, text_eq_refl, has_prefix, has_prefix-append, trim_prefix, true,
  false, [], ◌∷◌, ◌++◌, some, ◌≡◌, refl, ap, ◌∙◌, drop, length, inl, inr, ◌⊎◌,
}
use omnivore_go.Auth.Keys.{Keys}
use omnivore_go.Auth.Middleware.{
  Jwt, Request, ContextUser, generate_token, validate_token, user_of_claims, bearer_user,
  cookie_user, or_cookie, token_user, auth, require_auth,
}

drop-append : (p s : Text) → drop (length p) (p ++ s) ≡ s
drop-append [] s = refl
drop-append (c ∷ p) s = drop-append p s

trim_prefix-append : (p s : Text) → trim_prefix (p ++ s) p ≡ s
unfolding trim_prefix
trim_prefix-append p s = rw (has_prefix-append p s) (drop-append p s)

module _ (jwt : Jwt) where
  token_valid :
      (id role t : Text) (issued now : ℕ)
      → generate_token jwt id role issued ≡ some t
      → now < issued + jwt.expiration
      → user_of_claims jwt (validate_token jwt t now) ≡ some (record { id = id; role = role })
  unfolding generate_token validate_token user_of_claims
  token_valid id role t issued now e fresh =
      rw (jwt.is_rsa-sign _ t e) (rw (jwt.parse-sign _ t now e fresh) refl)

  bearer_from :
      (header t : Text) (now : ℕ) (u : ContextUser)
      → has_prefix header (codes "Bearer ") ≡ true
      → trim_prefix header (codes "Bearer ") ≡ t
      → user_of_claims jwt (validate_token jwt t now) ≡ some u
      → bearer_user jwt header now ≡ some u
  unfolding bearer_user
  bearer_from header t now u p e h = rw (p, e) h

  bearer_valid :
      (id role t : Text) (issued now : ℕ)
      → generate_token jwt id role issued ≡ some t
      → now < issued + jwt.expiration
      → bearer_user jwt (codes "Bearer " ++ t) now ≡ some (record { id = id; role = role })
  bearer_valid id role t issued now e fresh =
      bearer_from (codes "Bearer " ++ t) t now _ (has_prefix-append (codes "Bearer ") t)
        (trim_prefix-append (codes "Bearer ") t) (token_valid id role t issued now e fresh)

  cookie_valid :
      (id role t : Text) (issued now : ℕ)
      → generate_token jwt id role issued ≡ some t
      → now < issued + jwt.expiration
      → text_eq t [] ≡ false
      → cookie_user jwt (some t) now ≡ some (record { id = id; role = role })
  unfolding cookie_user
  cookie_valid id role t issued now e fresh given =
      rw given (token_valid id role t issued now e fresh)

  -- The places of a request that a token is read from: the header, or, without one, the cookie.
  abbrev pub Carries : Text → Request → Type 0
  Carries t r =
      (r.authorization ≡ codes "Bearer " ++ t)
      ⊎ ((r.authorization ≡ []) × (r.auth_cookie ≡ some t) × (text_eq t [] ≡ false))

  carried :
      (id role t : Text) (issued now : ℕ) (r : Request)
      → generate_token jwt id role issued ≡ some t
      → now < issued + jwt.expiration
      → Carries t r
      → token_user jwt r now ≡ some (record { id = id; role = role })
  unfolding token_user or_cookie bearer_user cookie_user has_prefix text_eq
  carried id role t issued now r e fresh (inl h) =
      rw (h, bearer_valid id role t issued now e fresh) refl
  carried id role t issued now r e fresh (inr (none_given, c, given)) =
      rw (none_given, c) (cookie_valid id role t issued now e fresh given)

module _ (jwt : Jwt) (env : Keys) where
  open env use {Store, now}

  -- A token that was generated for a user makes the middleware find that user, with the role of
  -- the token, in a request without an API key that carries it in the Authorization header, or,
  -- without that header, in the cookie, until it expires; and RequireAuth lets the request pass.
  pub auth-generate_token :
      (id role t : Text) (issued : ℕ) (r : Request) (s : Store)
      → generate_token jwt id role issued ≡ some t
      → now s < issued + jwt.expiration
      → r.api_key ≡ []
      → Carries jwt t r
      → (auth jwt env r s ≡ (some (record { id = id; role = role }), s))
        × (require_auth ((auth jwt env r s).0) ≡ true)
  unfolding auth require_auth
  auth-generate_token id role t issued r s e fresh no_key h =
      let user = carried jwt id role t issued (now s) r e fresh h in
      let unkeyed : text_eq r.api_key [] ≡ true = ap (λ k. text_eq k []) no_key ∙ text_eq_refl [] in
      (rw unkeyed (ap (λ u. (u, s)) user), rw unkeyed (ap require_auth user))
