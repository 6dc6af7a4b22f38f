-- ===== src/Auth/ApiKey.antt =====
-- internal/auth/apikey.go: GenerateAPIKey, ValidateAPIKey, RevokeAPIKey and updateLastUsed.
use omnivore_go.Prelude.{
  ℕ, ltb, Text, codes, text_eq, Bool, true, false, List, [], ◌++◌, Option, none, some,
  if◌then◌else◌,
}
use omnivore_go.Auth.Keys.{ApiKey, ApiKeyInfo, Keys, nil_uuid, is_usable}

pub data Validated : Type 0 where
  -- A valid key also starts updateLastUsed, which runs beside the request.
  valid : ApiKeyInfo → Validated
  invalid_key : Validated
  expired : Validated
  query_failed : Validated

unfoldable pub is_expired : Option ℕ → ℕ → Bool
is_expired none now = false
is_expired (some t) now = ltb t now

unfoldable pub uuid_or : Text → Option Text → Text
uuid_or before none = before
uuid_or before (some id) = id

module _ (env : Keys) where
  open env use {
    Store, now, new_uuid, random_hex, sha256_hex, has_redis, get_cached, set_cached, insert,
    first_key, set_revoked_at, set_last_used_at, scan_uuid,
  }

  unfoldable pub cache_key : Text → Text
  cache_key hashed = codes "apikey:" ++ hashed

  unfoldable pub new_key : Text → Text → List Text → Option ℕ → Text → Text → ApiKey
  new_key user_id name scopes expires_at key id = record {
    id = id;
    user_id = user_id;
    name = name;
    key_hash = sha256_hex key;
    scopes = scopes;
    expires_at = expires_at;
    last_used_at = none;
    revoked_at = none;
  }

  unfoldable pub key_stored : Text → Bool × Store → Option Text × Store
  key_stored key (false, s) = (none, s)
  key_stored key (true, s) = (some key, s)

  unfoldable pub store_key :
      Text → Text → List Text → Option ℕ → Text → Text × Store → Option Text × Store
  store_key user_id name scopes expires_at key (id, s) =
      key_stored key (insert (new_key user_id name scopes expires_at key id) s)

  unfoldable pub with_random :
      Text → Text → List Text → Option ℕ → Option Text × Store → Option Text × Store
  with_random user_id name scopes expires_at (none, s) = (none, s)
  with_random user_id name scopes expires_at (some key, s) =
      store_key user_id name scopes expires_at key (new_uuid s)

  -- GenerateAPIKey; `none` is an error.
  unfoldable pub generate_api_key : Text → Text → List Text → Option ℕ → Store → Option Text × Store
  generate_api_key user_id name scopes expires_at s =
      with_random user_id name scopes expires_at (random_hex s)

  unfoldable pub info_of : ApiKey → ApiKeyInfo
  info_of k = record {
    user_id = k.user_id;
    user_role = codes "omnivore_user";
    scopes = k.scopes;
    expires_at = k.expires_at;
  }

  -- What a cached value is read as.
  unfoldable pub info_of_cached : Text → ApiKeyInfo
  unfolding uuid_or
  info_of_cached cached = record {
    user_id = uuid_or nil_uuid (scan_uuid cached);
    user_role = [];
    scopes = [];
    expires_at = none;
  }

  unfoldable pub cache_result : Text → ApiKeyInfo → Store → Store
  cache_result hashed info s = if has_redis then set_cached (cache_key hashed) info.user_id s else s

  unfoldable pub check_key : Text → Option (Option ApiKey) → Store → Validated × Store
  unfolding is_expired
  check_key hashed none s = (query_failed, s)
  check_key hashed (some none) s = (invalid_key, s)
  check_key hashed (some (some k)) s =
      if is_expired k.expires_at (now s)
      then (expired, s)
      else (valid (info_of k), cache_result hashed (info_of k) s)

  -- The value of the cache; an error or an empty value is none.
  unfoldable pub cached_value : Text → Store → Option Text
  cached_value hashed s = if has_redis then get_cached (cache_key hashed) s else none

  unfoldable pub check_cached : Text → Option Text → Store → Validated × Store
  check_cached hashed none s = check_key hashed (first_key (is_usable hashed) s) s
  check_cached hashed (some v) s =
      if text_eq v []
      then check_key hashed (first_key (is_usable hashed) s) s
      else (valid (info_of_cached v), s)

  -- ValidateAPIKey
  unfoldable pub validate_api_key : Text → Store → Validated × Store
  validate_api_key key s = check_cached (sha256_hex key) (cached_value (sha256_hex key) s) s

  -- RevokeAPIKey; `false` is an error.
  unfoldable pub revoke_api_key : Text → Store → Bool × Store
  revoke_api_key id s = set_revoked_at id (now s) s

  unfoldable pub update_last_used : Text → Store → Store
  update_last_used hashed s = set_last_used_at hashed (now s) s
