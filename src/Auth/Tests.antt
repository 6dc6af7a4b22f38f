-- ===== src/Auth/Tests.antt =====
-- The theorems at concrete inputs.
use omnivore_go.Prelude.{
  Text, codes, text_eq, true, [], ◌∷◌, ◌++◌, none, some, ◌≡◌, refl, inl, arith,
}
use omnivore_go.Auth.Keys.{nil_uuid}
use omnivore_go.Auth.ApiKey.{
  validate_api_key, cached_value, cache_key, check_cached, info_of_cached, uuid_or,
}
use omnivore_go.Auth.Middleware.{
  Request, ContextUser, generate_token, auth, after_key, user_of_info, require_auth,
}
use omnivore_go.Auth.Tokens.{auth-generate_token}
use omnivore_go.Auth.Proven.{IsProven, auth-IsProven}
use omnivore_go.Auth.Sample.{Memory, memory, plain, write_claims, old_key}

abbrev token : Text
token = write_claims (record {
  user_id = codes "ann";
  user_role = codes "omnivore_user";
  issuer = codes "omnivore-api";
  subject = codes "ann";
  issued_at = 10;
  expires_at = 604810;
})

abbrev signed_in : Request
signed_in = record { api_key = []; authorization = codes "Bearer " ++ token; auth_cookie = none }

handed_out : generate_token plain (codes "ann") (codes "omnivore_user") 10 ≡ some token
unfolding generate_token
handed_out = refl

auth-generate_token_example :
    (auth plain memory signed_in ([], [])
      ≡ (some (record { id = codes "ann"; role = codes "omnivore_user" }), ([], [])))
    × (require_auth ((auth plain memory signed_in ([], [])).0) ≡ true)
auth-generate_token_example =
    auth-generate_token plain memory (codes "ann") (codes "omnivore_user") token 10 signed_in
      ([], []) handed_out (omega arith) refl (inl refl)

abbrev with_key : Request
with_key = record { api_key = codes "secret"; authorization = []; auth_cookie = none }

-- A key that was revoked, and the value that its last use left in the cache.
abbrev cached : Memory
cached = (old_key ∷ [], (codes "apikey:secret", codes "ann") ∷ [])

passes : require_auth ((auth plain memory with_key cached).0) ≡ true
unfolding auth after_key validate_api_key check_cached cached_value cache_key text_eq require_auth
passes = refl

auth-IsProven_example :
    (u : ContextUser) × ((auth plain memory with_key cached).0 ≡ some u)
    × IsProven plain memory with_key cached u
auth-IsProven_example = auth-IsProven plain memory with_key cached passes

nil_user : auth plain memory with_key cached ≡ (some (record { id = nil_uuid; role = [] }), cached)
unfolding auth after_key user_of_info validate_api_key check_cached cached_value cache_key text_eq
    info_of_cached uuid_or
nil_user = refl
