-- ===== src/Accounts/Creates.antt =====
-- What creating a user does to the rows: all of it or nothing.
use mathlib.Core.Path.{subst}
use omnivore_go.Prelude.{Text, Bool, true, false, ◌∷◌, Option, none, some, ◌≡◌, refl, ap, ◌∙◌, All}
use omnivore_go.Prelude.Unicode.{Unicode}
use omnivore_go.Accounts.Names.{
  CreateEmailUserInput, Normalized, normal, invalid, normalize_create_email_user_input,
}
use omnivore_go.Accounts.Normal.{IsValid, normal_form, normalize-normal}
use omnivore_go.Accounts.Rows.{User, Profile, Tables, Database}
use omnivore_go.Accounts.Create.{
  CreateEmailUserResult, Created, created, refused, new_user, new_profile, result_of, has_email,
  has_username, add_profile, end_transaction, insert_both, answer, insert_with_id, insert_hashed,
  with_profile, with_user, create_normalized, create_email_user,
}

module _ (unicode : Unicode) (db : Database) where
  open db use {
    Store, tables, new_uuid, first_user, first_profile, insert_user, insert_profile, commit,
    rollback, generate_hash, is_hash_of,
  }

  -- Both rows are there, of an email and a user name that were free.
  pub record IsCreated (n : CreateEmailUserInput) (r : CreateEmailUserResult) (t t' : Tables)
      : Type 0 where
    pub hashed : Text
    pub matches : is_hash_of hashed n.password ≡ true
    pub result : r ≡ result_of n r.user_id
    pub email_free : All (λ u. has_email n.email u ≡ false) t.users
    pub username_free : All (λ p. has_username n.username p ≡ false) t.profiles
    pub rows : t' ≡ record {
      users = new_user n r.user_id hashed ∷ t.users;
      profiles = new_profile n r.user_id ∷ t.profiles;
    }

  -- The rows behind an outcome.
  abbrev pub Creates : CreateEmailUserInput → Created → Tables → Tables → Type 0
  Creates n (refused e) t t' = t' ≡ t
  Creates n (created r) t t' = IsCreated n r t t'

  -- What a transaction leaves: both rows if it succeeds, and otherwise none.
  abbrev Both : CreateEmailUserInput → Text → Text → Bool → Tables → Tables → Type 0
  Both n id hashed false t t' = t' ≡ t
  Both n id hashed true t t' =
      t'
      ≡ record { users = new_user n id hashed ∷ t.users; profiles = new_profile n id ∷ t.profiles }

  ended :
      (n : CreateEmailUserInput) (id hashed : Text) (s s' : Store) (b : Bool) (r : Bool × Store)
      → commit s s' ≡ r
      → Both n id hashed true (tables s) (tables s')
      → Both n id hashed r.0 (tables s) (tables r.1)
  ended n id hashed s s' b (false, s2) e h = db.commit_false s s' s2 e
  ended n id hashed s s' b (true, s2) e h = db.commit_true s s' s2 e ∙ h

  with_new_profile : CreateEmailUserInput → Text → Tables → Tables
  with_new_profile n id t = record t { profiles = new_profile n id ∷ t.profiles }

  profile_added :
      (n : CreateEmailUserInput) (id hashed : Text) (s s1 : Store) (r : Bool × Store)
      → tables s1 ≡ record (tables s) { users = new_user n id hashed ∷ (tables s).users }
      → insert_profile (new_profile n id) s1 ≡ r
      → Both n id hashed
          ((end_transaction unicode db s r).0)
          (tables s)
          (tables ((end_transaction unicode db s r).1))
  unfolding end_transaction with_new_profile
  profile_added n id hashed s s1 (false, s2) h e = db.rollback_lem s s2
  profile_added n id hashed s s1 (true, s2) h e = ended n id hashed s s2 true (commit s s2) refl (
      db.insert_profile_lem (new_profile n id) s1 s2 e
      ∙ ap {B = Tables} (λ t. with_new_profile n id t) h)

  user_added :
      (n : CreateEmailUserInput) (id hashed : Text) (s : Store) (r : Bool × Store)
      → insert_user (new_user n id hashed) s ≡ r
      → Both n id hashed
          ((end_transaction unicode db s (add_profile unicode db n id r)).0)
          (tables s)
          (tables ((end_transaction unicode db s (add_profile unicode db n id r)).1))
  unfolding end_transaction add_profile
  user_added n id hashed s (false, s1) e = db.rollback_lem s s1
  user_added n id hashed s (true, s1) e =
      profile_added n id hashed s s1 (insert_profile (new_profile n id) s1)
        (db.insert_user_lem (new_user n id hashed) s s1 e) refl

  answered :
      (n : CreateEmailUserInput) (id hashed : Text) (t : Tables) (r : Bool × Store)
      → is_hash_of hashed n.password ≡ true
      → All (λ u. has_email n.email u ≡ false) t.users
      → All (λ p. has_username n.username p ≡ false) t.profiles
      → Both n id hashed r.0 t (tables r.1)
      → Creates n ((answer unicode db n id r).0) t (tables ((answer unicode db n id r).1))
  unfolding answer
  answered n id hashed t (false, s) m fu fp h = h
  answered n id hashed t (true, s) m fu fp h = record {
    hashed = hashed;
    matches = m;
    result = unfold result_of in refl;
    email_free = fu;
    username_free = fp;
    rows = unfold result_of in h;
  }

  identified :
      (n : CreateEmailUserInput) (hashed : Text) (t : Tables) (r : Text × Store)
      → tables r.1 ≡ t
      → is_hash_of hashed n.password ≡ true
      → All (λ u. has_email n.email u ≡ false) t.users
      → All (λ p. has_username n.username p ≡ false) t.profiles
      → Creates n
          ((insert_with_id unicode db n hashed r).0)
          t
          (tables ((insert_with_id unicode db n hashed r).1))
  unfolding insert_with_id insert_both
  identified n hashed t (id, s1) same m fu fp = answered n id hashed t _ m fu fp (
      subst
        (λ x.
          Both n id hashed ((insert_both unicode db n id hashed s1).0) x
            (tables ((insert_both unicode db n id hashed s1).1)))
        same (user_added n id hashed s1 (insert_user (new_user n id hashed) s1) refl))

  hashed_inserted :
      (n : CreateEmailUserInput) (s : Store) (o : Option Text)
      → generate_hash n.password s ≡ o
      → All (λ u. has_email n.email u ≡ false) (tables s).users
      → All (λ p. has_username n.username p ≡ false) (tables s).profiles
      → Creates n
          ((insert_hashed unicode db n o s).0)
          (tables s)
          (tables ((insert_hashed unicode db n o s).1))
  unfolding insert_hashed
  hashed_inserted n s none e fu fp = refl
  hashed_inserted n s (some hashed) e fu fp =
      identified n hashed (tables s) (new_uuid s) (db.new_uuid_lem s)
        (db.generate_hash_lem n.password s hashed e) fu fp

  profile_searched :
      (n : CreateEmailUserInput) (s : Store) (o : Option (Option Profile))
      → first_profile (has_username n.username) s ≡ o
      → All (λ u. has_email n.email u ≡ false) (tables s).users
      → Creates n
          ((with_profile unicode db n o s).0)
          (tables s)
          (tables ((with_profile unicode db n o s).1))
  unfolding with_profile
  profile_searched n s none e fu = refl
  profile_searched n s (some (some p)) e fu = refl
  profile_searched n s (some none) e fu =
      hashed_inserted n s (generate_hash n.password s) refl fu
        (db.profile_none (has_username n.username) s e)

  user_searched :
      (n : CreateEmailUserInput) (s : Store) (o : Option (Option User))
      → first_user (has_email n.email) s ≡ o
      → Creates n
          ((with_user unicode db n o s).0)
          (tables s)
          (tables ((with_user unicode db n o s).1))
  unfolding with_user
  user_searched n s none e = refl
  user_searched n s (some (some u)) e = refl
  user_searched n s (some none) e =
      profile_searched n s (first_profile (has_username n.username) s) refl
        (db.user_none (has_email n.email) s e)

  by_normalized :
      (input : CreateEmailUserInput) (s : Store) (m : Normalized)
      → normalize_create_email_user_input unicode input ≡ m
      → Creates
          (normal_form unicode input)
          ((create_normalized unicode db m s).0)
          (tables s)
          (tables ((create_normalized unicode db m s).1))
  unfolding create_normalized
  by_normalized input s (invalid x) e = refl
  by_normalized input s (normal n) e =
      subst
        (λ k.
          Creates k ((with_user unicode db n (first_user (has_email n.email) s) s).0) (tables s)
            (tables ((with_user unicode db n (first_user (has_email n.email) s) s).1)))
        ((normalize-normal unicode input n e).0)
        (user_searched n s (first_user (has_email n.email) s) refl)

  -- What is done is done for the normal form of the input; an input without one changes nothing.
  pub create_email_user-Creates :
      (input : CreateEmailUserInput) (s s' : Store) (o : Created)
      → create_email_user unicode db input s ≡ (o, s')
      → Creates (normal_form unicode input) o (tables s) (tables s')
  unfolding create_email_user
  create_email_user-Creates input s s' o e =
      subst (λ r. Creates (normal_form unicode input) r.0 (tables s) (tables r.1)) e
        (by_normalized input s (normalize_create_email_user_input unicode input) refl)

  created-IsValid :
      (input : CreateEmailUserInput) (s s' : Store) (r : CreateEmailUserResult) (m : Normalized)
      → normalize_create_email_user_input unicode input ≡ m
      → create_normalized unicode db m s ≡ (created r, s')
      → IsValid unicode input
  unfolding create_normalized
  created-IsValid input s s' r (invalid x) e h = let gone = ap (λ z. z.0) h in absurd (cc)
  created-IsValid input s s' r (normal n) e h = (normalize-normal unicode input n e).1

  -- Only a valid input makes a user.
  pub create_email_user-IsValid :
      (input : CreateEmailUserInput) (s s' : Store) (r : CreateEmailUserResult)
      → create_email_user unicode db input s ≡ (created r, s')
      → IsValid unicode input
  unfolding create_email_user
  create_email_user-IsValid input s s' r e =
      created-IsValid input s s' r (normalize_create_email_user_input unicode input) refl e
