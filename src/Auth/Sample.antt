-- ===== src/Auth/Sample.antt =====
-- Keys in memory with a cache, and tokens that are written as they are, for the tests.
use omnivore_go.Prelude.{
  ℕ, ◌<◌, ltb, Text, codes, text_eq, Bool, true, List, [], ◌∷◌, map, Option, none, some, ◌≡◌, refl,
  sym, ap, if◌then◌else◌, arith,
}
use omnivore_go.Prelude.First.{first, first-none, first-Mem}
use omnivore_go.Prelude.Encoding.{write_texts, read_texts, read-write}
use omnivore_go.Auth.Keys.{ApiKey, Keys}
use omnivore_go.Auth.Middleware.{Claims, Jwt}

-- The keys, and the entries of the cache.
abbrev pub Memory : Type 0
Memory = List ApiKey × List (Text × Text)

abbrev pub lookup : Text → List (Text × Text) → Option Text
lookup k [] = none
lookup k ((j, v) ∷ es) = let rest = lookup k es in if text_eq j k then some v else rest

abbrev pub revoked : Text → ℕ → ApiKey → ApiKey
revoked id t k = if text_eq k.id id then record k { revoked_at = some t } else k

abbrev pub used : Text → ℕ → ApiKey → ApiKey
used h t k = if text_eq k.key_hash h then record k { last_used_at = some t } else k

pub added :
    (k : ApiKey) (m m' : Memory)
    → ◌≡◌ {A = Bool × Memory} (true, (k ∷ m.0, m.1)) (true, m')
    → m'.0 ≡ k ∷ m.0
added k m m' e = ap (λ r. r.1.0) (sym e)

abbrev pub memory : Keys
memory = record {
  Store = Memory;
  keys = λ m. m.0;
  now = λ m. 50;
  new_uuid = λ m. (codes "k1", m);
  random_hex = λ m. (some (codes "abcd"), m);
  sha256_hex = λ k. k;
  has_redis = true;
  get_cached = λ k m. lookup k m.1;
  set_cached = λ k v m. (m.0, (k, v) ∷ m.1);
  insert = λ k m. (true, (k ∷ m.0, m.1));
  first_key = λ p m. some (first p m.0);
  set_revoked_at = λ id t m. (true, (map (revoked id t) m.0, m.1));
  set_last_used_at = λ h t m. (map (used h t) m.0, m.1);
  scan_uuid = λ s. none;
  scan_uuid_lem = λ s. refl;
  new_uuid_lem = λ m. refl;
  random_hex_lem = λ m. refl;
  insert_lem = λ k m m' e. added k m m' e;
  key_none = λ p m e. first-none p m.0 e;
  key_some = λ p m k e. first-Mem p m.0 k e;
}

abbrev pub write_claims : Claims → Text
write_claims c =
    write_texts
      (c.user_id ∷ c.user_role ∷ c.issuer ∷ c.subject ∷ (c.issued_at ∷ c.expires_at ∷ []) ∷ [])

abbrev pub claims_of : List Text → ℕ → Option Claims
claims_of (u ∷ r ∷ i ∷ s ∷ (t ∷ e ∷ []) ∷ []) now =
    if ltb now e
    then some (record {
      user_id = u;
      user_role = r;
      issuer = i;
      subject = s;
      issued_at = t;
      expires_at = e;
    })
    else none
claims_of other now = none

pub claims_of-write :
    (c : Claims) (t : Text) (now : ℕ)
    → some (write_claims c) ≡ some t
    → now < c.expires_at
    → claims_of (read_texts [] t) now ≡ some c
claims_of-write c t now e fresh =
    let same : write_claims c ≡ t = cc e in
    let in_time : ltb now c.expires_at ≡ true = ground arith in
    rw (sym same) (
      rw
        (read-write
          (c.user_id ∷ c.user_role ∷ c.issuer ∷ c.subject ∷ (c.issued_at ∷ c.expires_at ∷ []) ∷ []))
        (rw in_time refl))

abbrev pub plain : Jwt
plain = record {
  issuer = codes "omnivore-api";
  expiration = 604800;
  sign = λ c. some (write_claims c);
  is_rsa = λ t. true;
  parse_with_claims = λ t now. claims_of (read_texts [] t) now;
  is_rsa-sign = λ c t e. refl;
  parse-sign = claims_of-write;
}

abbrev pub old_key : ApiKey
old_key = record {
  id = codes "k0";
  user_id = codes "ann";
  name = codes "phone";
  key_hash = codes "secret";
  scopes = [];
  expires_at = none;
  last_used_at = none;
  revoked_at = some 7;
}
