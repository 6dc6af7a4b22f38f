-- ===== src/Accounts/Names.antt =====
-- internal/service/user_create.go: the normal form of the input, and the user name.
use omnivore_go.Prelude.{
  ℕ, byte_length, ltb, ◌==◌, Text, text_eq, is_space, trim, before, Bool, ◌||◌, [], select,
  if◌then◌else◌,
}
use omnivore_go.Prelude.Unicode.{Unicode}

pub record CreateEmailUserInput : Type 0 where
  pub email : Text
  pub password : Text
  pub name : Text
  pub username : Text

pub data CreateError : Type 0 where
  email_required : CreateError
  password_short : CreateError
  username_required : CreateError
  user_already_exists : CreateError
  username_taken : CreateError
  failed : CreateError

pub data Normalized : Type 0 where
  normal : CreateEmailUserInput → Normalized
  invalid : CreateError → Normalized

-- strings.TrimSpace
unfoldable pub trim_space : Text → Text
unfolding trim is_space
trim_space s = trim is_space s

unfoldable pub is_name_rune : Unicode → ℕ → Bool
is_name_rune u c = u.is_letter c || u.is_digit c || c == b'_'

unfoldable pub normalize_username : Unicode → Text → Text
unfolding trim_space is_name_rune
normalize_username u value =
    let v = trim_space value in if text_eq v [] then [] else select (is_name_rune u) v

unfoldable pub default_username_from_email : Unicode → Text → Text
unfolding normalize_username before
default_username_from_email u email = normalize_username u (before b'@' email)

-- The user name that is taken: the one that is given, or else that of the email.
unfoldable pub chosen_username : Unicode → CreateEmailUserInput → Text
unfolding normalize_username default_username_from_email trim_space
chosen_username u input =
    let given = normalize_username u input.username in
    if text_eq given [] then default_username_from_email u (trim_space input.email) else given

unfoldable pub chosen_name : Text → Text → Text
chosen_name name username = if text_eq name [] then username else name

-- normalizeCreateEmailUserInput
unfoldable pub normalize_create_email_user_input : Unicode → CreateEmailUserInput → Normalized
unfolding chosen_username chosen_name byte_length trim_space
normalize_create_email_user_input u input =
    let email = trim_space input.email in
    let username = chosen_username u input in
    if text_eq email []
    then invalid email_required
    else if ltb (byte_length input.password) 8
    then invalid password_short
    else if text_eq username []
    then invalid username_required
    else normal (record {
      email = email;
      password = input.password;
      name = chosen_name (trim_space input.name) username;
      username = username;
    })
