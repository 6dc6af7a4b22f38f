-- ===== src/Accounts/Login.antt =====
-- internal/api/handler/auth.go: the check of an email and a password, and that a new user passes it.
use mathlib.Core.Path.{subst}
use omnivore_go.Prelude.{
  byte_length, ltb, Text, codes, text_eq, text_eq_refl, true, false, ◌||◌, [], Option, none, some,
  ◌≡◌, refl, sym, is_space, ap, All, All-imp, if◌then◌else◌,
}
use omnivore_go.Prelude.Trim.{trim-trim}
use omnivore_go.Prelude.Unicode.{Unicode}
use omnivore_go.Accounts.Names.{CreateEmailUserInput, trim_space}
use omnivore_go.Accounts.Rows.{User, Tables, Database}
use omnivore_go.Accounts.Normal.{normal_form}
use omnivore_go.Accounts.Create.{
  CreateEmailUserResult, created, new_user, has_email, create_email_user,
}
use omnivore_go.Accounts.Creates.{IsCreated, create_email_user-Creates, create_email_user-IsValid}

pub data LoginError : Type 0 where
  user_not_found : LoginError
  auth_failed : LoginError
  pending_verification : LoginError
  wrong_source : LoginError
  invalid_credentials : LoginError

pub data Login : Type 0 where
  accepted : User → Login
  rejected : LoginError → Login

module _ (db : Database) where
  open db use {Store, tables, first_user, is_hash_of}

  unfoldable pub check_password : Text → User → Option Text → Login
  check_password password u none = rejected wrong_source
  check_password password u (some hashed) =
      if is_hash_of hashed password then accepted u else rejected invalid_credentials

  unfoldable pub check_user : Text → Option (Option User) → Login
  unfolding check_password
  check_user password none = rejected auth_failed
  check_user password (some none) = rejected user_not_found
  check_user password (some (some u)) =
      if text_eq u.status (codes "PENDING")
      then rejected pending_verification
      else check_password password u u.password

  -- authenticateUser
  unfoldable pub authenticate_user : Text → Text → Store → Login
  authenticate_user email password s =
      check_user password (first_user (has_email (trim_space email)) s)

  -- The checks of EmailLogin before it, on the fields of the form.
  unfoldable pub email_login : Text → Text → Store → Login
  unfolding trim_space byte_length
  email_login email password s =
      if text_eq (trim_space email) [] || ltb (byte_length password) 8
      then rejected invalid_credentials
      else authenticate_user (trim_space email) password s

trim_space-trim_space : (s : Text) → trim_space (trim_space s) ≡ trim_space s
unfolding trim_space
trim_space-trim_space s = trim-trim is_space s

module _ (unicode : Unicode) (db : Database) where
  open db use {Store, tables, first_user, is_hash_of}

  -- The one row that has the email of a new user is its row.
  found_user :
      (n : CreateEmailUserInput) (r : CreateEmailUserResult) (t : Tables) (s' : Store)
      (c : IsCreated unicode db n r t (tables s')) (o : Option User)
      → first_user (has_email n.email) s' ≡ some o
      → o ≡ some (new_user n r.user_id c.hashed)
  unfolding has_email new_user
  found_user n r t s' c none e =
      let free = db.user_none (has_email n.email) s' e in
      let (here, _) = subst (λ x. All (λ u. has_email n.email u ≡ false) x.users) c.rows free in
      let same = text_eq_refl n.email in absurd (cc)
  found_user n r t s' c (some u) e =
      let all : All (λ w. has_email n.email w ≡ true → w ≡ new_user n r.user_id c.hashed)
          (tables s').users =
        subst
          (λ x. All (λ w. has_email n.email w ≡ true → w ≡ new_user n r.user_id c.hashed) x.users)
          (sym c.rows)
          (
            (λ h. refl),
            All-imp (λ w. has_email n.email w ≡ false) _ (λ w f h. absurd (cc)) t.users
                c.email_free,
          ) in
      let (passes, q) = db.user_some (has_email n.email) s' u _ e all in ap some (q passes)

  check_user-new :
      (n : CreateEmailUserInput) (id hashed : Text)
      → is_hash_of hashed n.password ≡ true
      → check_user db n.password (some (some (new_user n id hashed)))
        ≡ accepted (new_user n id hashed)
  unfolding check_user check_password new_user text_eq
  check_user-new n id hashed h = rw h

  -- A user who was created signs in with the email and the password of the input, if the database
  -- answers: both at the API, and with the form, whose checks on the two pass as well.
  pub email_login-create_email_user :
      (input : CreateEmailUserInput) (s s' : Store) (r : CreateEmailUserResult) (o : Option User)
      → create_email_user unicode db input s ≡ (created r, s')
      → first_user (has_email (trim_space input.email)) s' ≡ some o
      → (u : User) × (u.id ≡ r.user_id)
        × (authenticate_user db input.email input.password s' ≡ accepted u)
        × (email_login db input.email input.password s' ≡ accepted u)
  unfolding authenticate_user email_login
  email_login-create_email_user input s s' r o e answered =
      let c = create_email_user-Creates unicode db input s s' (created r) e in
      let (email_given, long, _) = create_email_user-IsValid unicode db input s s' r e in
      let n = normal_form unicode input in
      let is_new = found_user n r (tables s) s' c o answered in
      let u = new_user n r.user_id c.hashed in
      let signs_in : authenticate_user db input.email input.password s' ≡ accepted u =
        rw (answered, is_new) (check_user-new n r.user_id c.hashed c.matches) in
      (
        u,
        (unfold new_user in refl),
        signs_in,
        rw (email_given, long) (rw (trim_space-trim_space input.email) signs_in),
      )
