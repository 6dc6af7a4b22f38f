-- ===== src/Auth/Keys.antt =====
-- internal/auth/apikey.go: the rows of the API keys, with PostgreSQL, Redis, crypto/rand and
-- crypto/sha256 as a parameter. Times are natural numbers.
use mathlib.Core.List.{Mem}
use omnivore_go.Prelude.{
  ℕ, Text, codes, text_eq, Bool, true, false, ◌&&◌, List, ◌∷◌, Option, none, some, ◌≡◌, All,
}

pub record ApiKey : Type 0 where
  pub id : Text
  pub user_id : Text
  pub name : Text
  pub key_hash : Text
  pub scopes : List Text
  pub expires_at : Option ℕ
  pub last_used_at : Option ℕ
  pub revoked_at : Option ℕ

pub record ApiKeyInfo : Type 0 where
  pub user_id : Text
  pub user_role : Text
  pub scopes : List Text
  pub expires_at : Option ℕ

-- uuid.UUID{} as it is printed
abbrev pub nil_uuid : Text
nil_uuid = codes "00000000-0000-0000-0000-000000000000"

unfoldable pub is_none : Option ℕ → Bool
is_none none = true
is_none (some t) = false

-- The conditions of the query.
unfoldable pub is_usable : Text → ApiKey → Bool
unfolding is_none
is_usable hashed k = text_eq k.key_hash hashed && is_none k.revoked_at

-- `none` and `false` are errors. A row is changed by the statement that is named for the column.
pub record Keys : Type 1 where
  pub Store : Type 0
  pub keys : Store → List ApiKey
  pub now : Store → ℕ
  pub new_uuid : Store → Text × Store
  pub random_hex : Store → Option Text × Store
  pub sha256_hex : Text → Text
  pub has_redis : Bool
  pub get_cached : Text → Store → Option Text
  pub set_cached : Text → Text → Store → Store
  pub insert : ApiKey → Store → Bool × Store
  pub first_key : (ApiKey → Bool) → Store → Option (Option ApiKey)
  pub set_revoked_at : Text → ℕ → Store → Bool × Store
  pub set_last_used_at : Text → ℕ → Store → Store
  -- fmt.Sscanf(s, "%s", &id) at a uuid.UUID, an array, which package fmt cannot scan into
  pub scan_uuid : Text → Option Text
  pub scan_uuid_lem : (s : Text) → scan_uuid s ≡ none
  pub new_uuid_lem : (s : Store) → keys ((new_uuid s).1) ≡ keys s
  pub random_hex_lem : (s : Store) → keys ((random_hex s).1) ≡ keys s
  pub insert_lem : (k : ApiKey) (s s' : Store) → insert k s ≡ (true, s') → keys s' ≡ k ∷ keys s
  pub key_none :
      (p : ApiKey → Bool) (s : Store) → first_key p s ≡ some none → All (λ k. p k ≡ false) (keys s)
  pub key_some :
      (p : ApiKey → Bool) (s : Store) (k : ApiKey)
      → first_key p s ≡ some (some k)
      → (p k ≡ true) × Mem k (keys s)
