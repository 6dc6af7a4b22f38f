-- ===== src/Accounts/Rows.antt =====
-- internal/model/user.go: the users and their profiles, with PostgreSQL behind gorm, package
-- bcrypt and package uuid as a parameter.
use omnivore_go.Prelude.{Text, Bool, true, false, List, ◌∷◌, Option, none, some, ◌≡◌, All}

pub record User : Type 0 where
  pub id : Text
  pub source : Text
  pub email : Text
  pub source_user_id : Text
  pub name : Text
  pub password : Option Text
  pub status : Text

pub record Profile : Type 0 where
  pub user_id : Text
  pub username : Text

-- The rows in no particular order.
pub record Tables : Type 0 where
  pub users : List User
  pub profiles : List Profile

-- A statement that fails returns `none` or `false`. `commit s s'` and `rollback s s'` end a
-- transaction that began at `s` and stands at `s'`.
pub record Database : Type 1 where
  pub Store : Type 0
  pub tables : Store → Tables
  pub new_uuid : Store → Text × Store
  pub first_user : (User → Bool) → Store → Option (Option User)
  pub first_profile : (Profile → Bool) → Store → Option (Option Profile)
  pub insert_user : User → Store → Bool × Store
  pub insert_profile : Profile → Store → Bool × Store
  pub commit : Store → Store → Bool × Store
  pub rollback : Store → Store → Store
  pub generate_hash : Text → Store → Option Text
  pub is_hash_of : Text → Text → Bool
  pub new_uuid_lem : (s : Store) → tables ((new_uuid s).1) ≡ tables s
  pub user_none :
      (p : User → Bool) (s : Store)
      → first_user p s ≡ some none
      → All (λ u. p u ≡ false) (tables s).users
  -- The row that is returned passes the test, and has what all rows have.
  pub user_some :
      (p : User → Bool) (s : Store) (u : User) (Q : User → Type 0)
      → first_user p s ≡ some (some u)
      → All Q (tables s).users
      → (p u ≡ true) × Q u
  pub profile_none :
      (p : Profile → Bool) (s : Store)
      → first_profile p s ≡ some none
      → All (λ u. p u ≡ false) (tables s).profiles
  pub insert_user_lem :
      (u : User) (s s' : Store)
      → insert_user u s ≡ (true, s')
      → tables s' ≡ record (tables s) { users = u ∷ (tables s).users }
  pub insert_profile_lem :
      (p : Profile) (s s' : Store)
      → insert_profile p s ≡ (true, s')
      → tables s' ≡ record (tables s) { profiles = p ∷ (tables s).profiles }
  pub commit_true : (s s' s2 : Store) → commit s s' ≡ (true, s2) → tables s2 ≡ tables s'
  pub commit_false : (s s' s2 : Store) → commit s s' ≡ (false, s2) → tables s2 ≡ tables s
  pub rollback_lem : (s s' : Store) → tables (rollback s s') ≡ tables s
  pub generate_hash_lem :
      (p : Text) (s : Store) (h : Text) → generate_hash p s ≡ some h → is_hash_of h p ≡ true
