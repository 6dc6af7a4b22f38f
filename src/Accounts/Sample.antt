-- ===== src/Accounts/Sample.antt =====
-- A database in memory that answers every statement, for the tests.
use omnivore_go.Prelude.{
  Text, codes, text_eq, text_eq_refl, Bool, true, false, [], ◌∷◌, some, ◌≡◌, refl, sym, ap,
}
use omnivore_go.Prelude.First.{first, first-none, first-some}
use omnivore_go.Accounts.Rows.{Tables, Database}
use omnivore_go.Accounts.Names.{CreateEmailUserInput}

pub added {ℓ} : {A : Type ℓ} (a b : A) → ◌≡◌ {A = Bool × A} (true, a) (true, b) → b ≡ a
added a b e = sym (ap (λ r. r.1) e)

pub matched : (p h : Text) → some p ≡ some h → text_eq h p ≡ true
matched p h e = let same : p ≡ h = cc e in rw same (text_eq_refl h)

pub never : (a b c : Tables) → ◌≡◌ {A = Bool × Tables} (true, a) (false, b) → b ≡ c
never a b c e = let no = ap (λ r. r.0) e in absurd (cc)

abbrev pub memory : Database
memory = record {
  Store = Tables;
  tables = λ s. s;
  new_uuid = λ s. (codes "u1", s);
  first_user = λ p s. some (first p s.users);
  first_profile = λ p s. some (first p s.profiles);
  insert_user = λ u s. (true, record s { users = u ∷ s.users });
  insert_profile = λ p s. (true, record s { profiles = p ∷ s.profiles });
  commit = λ s s'. (true, s');
  rollback = λ s s'. s;
  generate_hash = λ p s. some p;
  is_hash_of = text_eq;
  new_uuid_lem = λ s. refl;
  user_none = λ p s e. first-none p s.users e;
  user_some = λ p s u Q e h. first-some p s.users u Q e h;
  profile_none = λ p s e. first-none p s.profiles e;
  insert_user_lem = λ u s s' e. added (record s { users = u ∷ s.users }) s' e;
  insert_profile_lem = λ p s s' e. added (record s { profiles = p ∷ s.profiles }) s' e;
  commit_true = λ s s' s2 e. added s' s2 e;
  commit_false = λ s s' s2 e. never s' s2 s e;
  rollback_lem = λ s s'. refl;
  generate_hash_lem = λ p s h e. matched p h e;
}

abbrev pub no_rows : Tables
no_rows = record { users = []; profiles = [] }

abbrev pub ann : CreateEmailUserInput
ann = record { email = codes " ann@b.org "; password = codes "12345678"; name = []; username = [] }
