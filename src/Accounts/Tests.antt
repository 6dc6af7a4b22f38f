-- ===== src/Accounts/Tests.antt =====
-- The theorems at concrete inputs.
use omnivore_go.Prelude.{
  codes, rune_length, byte_length, text_eq, trim, trim_left, trim_right, is_space, before, [], ◌∷◌,
  some, ◌≡◌, refl,
}
use omnivore_go.Prelude.Unicode.{ascii}
use omnivore_go.Accounts.Names.{
  trim_space, is_name_rune, normalize_username, default_username_from_email, chosen_username,
  chosen_name, normalize_create_email_user_input,
}
use omnivore_go.Accounts.Rows.{User, Tables}
use omnivore_go.Accounts.Normal.{normal_form}
use omnivore_go.Accounts.Create.{
  CreateEmailUserResult, created, new_user, new_profile, result_of, has_email, has_username,
  add_profile, end_transaction, insert_both, answer, insert_with_id, insert_hashed, with_profile,
  with_user, create_normalized, create_email_user,
}
use omnivore_go.Accounts.Creates.{Creates}
use omnivore_go.Accounts.Unique.{IsUnique, create_email_user-IsUnique}
use omnivore_go.Accounts.Login.{
  accepted, authenticate_user, email_login, email_login-create_email_user,
}
use omnivore_go.Accounts.Sample.{memory, no_rows, ann}

abbrev result : CreateEmailUserResult
result = record {
  user_id = codes "u1";
  email = codes "ann@b.org";
  name = codes "ann";
  username = codes "ann";
}

abbrev ann_row : User
ann_row = record {
  id = codes "u1";
  source = codes "EMAIL";
  email = codes "ann@b.org";
  source_user_id = codes "ann@b.org";
  name = codes "ann";
  password = some (codes "12345678");
  status = codes "ACTIVE";
}

abbrev with_ann : Tables
with_ann = record {
  users = ann_row ∷ [];
  profiles = record { user_id = codes "u1"; username = codes "ann" } ∷ [];
}

makes_ann : create_email_user ascii memory ann no_rows ≡ (created result, with_ann)
unfolding create_email_user create_normalized with_user with_profile insert_hashed insert_with_id
    insert_both end_transaction add_profile answer new_user new_profile result_of
    normalize_create_email_user_input chosen_username chosen_name default_username_from_email
    normalize_username is_name_rune byte_length rune_length trim_space trim trim_left trim_right
    is_space before text_eq has_email has_username
makes_ann = refl

create_email_user-IsUnique_example :
    IsUnique ascii with_ann
    × Creates ascii memory (normal_form ascii ann) (created result) no_rows with_ann
create_email_user-IsUnique_example =
    create_email_user-IsUnique ascii memory ann no_rows with_ann (created result) (tt, tt, tt)
      makes_ann

finds_ann : memory.first_user (has_email (trim_space ann.email)) with_ann ≡ some (some (ann_row))
unfolding has_email trim_space trim trim_left trim_right is_space text_eq
finds_ann = refl

email_login-create_email_user_example :
    (u : User) × (u.id ≡ result.user_id)
    × (authenticate_user memory ann.email ann.password with_ann ≡ accepted u)
    × (email_login memory ann.email ann.password with_ann ≡ accepted u)
email_login-create_email_user_example =
    email_login-create_email_user ascii memory ann no_rows with_ann result (some ann_row) makes_ann
      finds_ann
