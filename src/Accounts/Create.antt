-- ===== src/Accounts/Create.antt =====
-- internal/service/user_create.go: CreateEmailUser.
use omnivore_go.Prelude.{Text, codes, text_eq, Bool, true, false, Option, none, some}
use omnivore_go.Prelude.Unicode.{Unicode}
use omnivore_go.Accounts.Names.{
  CreateEmailUserInput, CreateError, user_already_exists, username_taken, failed, Normalized,
  normal, invalid, normalize_create_email_user_input,
}
use omnivore_go.Accounts.Rows.{User, Profile, Database}

pub record CreateEmailUserResult : Type 0 where
  pub user_id : Text
  pub email : Text
  pub name : Text
  pub username : Text

pub data Created : Type 0 where
  created : CreateEmailUserResult → Created
  refused : CreateError → Created

-- The row of a new user; the status is the default of its column.
unfoldable pub new_user : CreateEmailUserInput → Text → Text → User
new_user n id hashed = record {
  id = id;
  source = codes "EMAIL";
  email = n.email;
  source_user_id = n.email;
  name = n.name;
  password = some hashed;
  status = codes "ACTIVE";
}

unfoldable pub new_profile : CreateEmailUserInput → Text → Profile
new_profile n id = record { user_id = id; username = n.username }

unfoldable pub result_of : CreateEmailUserInput → Text → CreateEmailUserResult
result_of n id = record { user_id = id; email = n.email; name = n.name; username = n.username }

unfoldable pub has_email : Text → User → Bool
has_email email u = text_eq u.email email

unfoldable pub has_username : Text → Profile → Bool
has_username username p = text_eq p.username username

module _ (unicode : Unicode) (db : Database) where
  open db use {
    Store, new_uuid, first_user, first_profile, insert_user, insert_profile, commit, rollback,
    generate_hash,
  }

  unfoldable pub add_profile : CreateEmailUserInput → Text → Bool × Store → Bool × Store
  add_profile n id (false, s) = (false, s)
  add_profile n id (true, s) = insert_profile (new_profile n id) s

  -- The end of a transaction that began at the given store.
  unfoldable pub end_transaction : Store → Bool × Store → Bool × Store
  end_transaction s (false, s') = (false, rollback s s')
  end_transaction s (true, s') = commit s s'

  -- The transaction.
  unfoldable pub insert_both : CreateEmailUserInput → Text → Text → Store → Bool × Store
  insert_both n id hashed s =
      end_transaction s (add_profile n id (insert_user (new_user n id hashed) s))

  unfoldable pub answer : CreateEmailUserInput → Text → Bool × Store → Created × Store
  answer n id (false, s) = (refused failed, s)
  answer n id (true, s) = (created (result_of n id), s)

  unfoldable pub insert_with_id : CreateEmailUserInput → Text → Text × Store → Created × Store
  insert_with_id n hashed (id, s) = answer n id (insert_both n id hashed s)

  unfoldable pub insert_hashed : CreateEmailUserInput → Option Text → Store → Created × Store
  insert_hashed n none s = (refused failed, s)
  insert_hashed n (some hashed) s = insert_with_id n hashed (new_uuid s)

  unfoldable pub with_profile :
      CreateEmailUserInput → Option (Option Profile) → Store → Created × Store
  with_profile n none s = (refused failed, s)
  with_profile n (some (some p)) s = (refused username_taken, s)
  with_profile n (some none) s = insert_hashed n (generate_hash n.password s) s

  unfoldable pub with_user : CreateEmailUserInput → Option (Option User) → Store → Created × Store
  with_user n none s = (refused failed, s)
  with_user n (some (some u)) s = (refused user_already_exists, s)
  with_user n (some none) s = with_profile n (first_profile (has_username n.username) s) s

  unfoldable pub create_normalized : Normalized → Store → Created × Store
  create_normalized (invalid e) s = (refused e, s)
  create_normalized (normal n) s = with_user n (first_user (has_email n.email) s) s

  -- CreateEmailUser
  unfoldable pub create_email_user : CreateEmailUserInput → Store → Created × Store
  create_email_user input s = create_normalized (normalize_create_email_user_input unicode input) s
