-- ===== src/Auth/Middleware.antt =====
-- internal/auth/jwt.go and internal/api/middleware/auth.go: tokens, and the user of a request.
use omnivore_go.Prelude.{
  ℕ, ◌+◌, ◌<◌, Text, codes, text_eq, has_prefix, trim_prefix, Bool, true, false, [], Option, none,
  some, ◌≡◌, if◌then◌else◌,
}
use omnivore_go.Auth.Keys.{ApiKeyInfo, Keys}
use omnivore_go.Auth.ApiKey.{Validated, valid, invalid_key, expired, query_failed, validate_api_key}

pub record Claims : Type 0 where
  pub user_id : Text
  pub user_role : Text
  pub issuer : Text
  pub subject : Text
  pub issued_at : ℕ
  pub expires_at : ℕ

-- Package jwt with the keys of the configuration: `sign` is SignedString by RS256, and
-- `parse_with_claims` checks the signature and the times at a clock.
pub record Jwt : Type 0 where
  pub issuer : Text
  pub expiration : ℕ
  pub sign : Claims → Option Text
  pub is_rsa : Text → Bool
  pub parse_with_claims : Text → ℕ → Option Claims
  pub is_rsa-sign : (c : Claims) (t : Text) → sign c ≡ some t → is_rsa t ≡ true
  pub parse-sign :
      (c : Claims) (t : Text) (now : ℕ)
      → sign c ≡ some t
      → now < c.expires_at
      → parse_with_claims t now ≡ some c

-- The headers and the cookie that are read; a header that is missing is empty.
pub record Request : Type 0 where
  pub api_key : Text
  pub authorization : Text
  pub auth_cookie : Option Text

-- db.User in the context of a request
pub record ContextUser : Type 0 where
  pub id : Text
  pub role : Text

module _ (jwt : Jwt) where
  unfoldable pub generate_token : Text → Text → ℕ → Option Text
  generate_token user_id role now = jwt.sign (record {
    user_id = user_id;
    user_role = role;
    issuer = jwt.issuer;
    subject = user_id;
    issued_at = now;
    expires_at = now + jwt.expiration;
  })

  unfoldable pub validate_token : Text → ℕ → Option Claims
  validate_token t now = if jwt.is_rsa t then jwt.parse_with_claims t now else none

  unfoldable pub user_of_claims : Option Claims → Option ContextUser
  user_of_claims none = none
  user_of_claims (some c) = some (record { id = c.user_id; role = c.user_role })

  -- The token of the Authorization header.
  unfoldable pub bearer_user : Text → ℕ → Option ContextUser
  bearer_user header now =
      if has_prefix header (codes "Bearer ")
      then user_of_claims (validate_token (trim_prefix header (codes "Bearer ")) now)
      else none

  unfoldable pub cookie_user : Option Text → ℕ → Option ContextUser
  cookie_user none now = none
  cookie_user (some value) now =
      if text_eq value [] then none else user_of_claims (validate_token value now)

  unfoldable pub or_cookie : Option ContextUser → Request → ℕ → Option ContextUser
  or_cookie (some u) r now = some u
  or_cookie none r now = cookie_user r.auth_cookie now

  -- The tokens of a request, the header first.
  unfoldable pub token_user : Request → ℕ → Option ContextUser
  token_user r now = or_cookie (bearer_user r.authorization now) r now

module _ (jwt : Jwt) (env : Keys) where
  open env use {Store, now}

  unfoldable pub user_of_info : ApiKeyInfo → ContextUser
  user_of_info i = record { id = i.user_id; role = i.user_role }

  unfoldable pub after_key : Request → Validated × Store → Option ContextUser × Store
  after_key r (valid info, s) = (some (user_of_info info), s)
  after_key r (invalid_key, s) = (token_user jwt r (now s), s)
  after_key r (expired, s) = (token_user jwt r (now s), s)
  after_key r (query_failed, s) = (token_user jwt r (now s), s)

  -- Auth, with both configurations: the user that the next handler finds in the context.
  unfoldable pub auth : Request → Store → Option ContextUser × Store
  auth r s =
      if text_eq r.api_key []
      then (token_user jwt r (now s), s)
      else after_key r (validate_api_key env r.api_key s)

-- RequireAuth: whether the next handler is called.
unfoldable pub require_auth : Option ContextUser → Bool
require_auth none = false
require_auth (some u) = true
