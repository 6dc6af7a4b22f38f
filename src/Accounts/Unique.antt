-- ===== src/Accounts/Unique.antt =====
-- No email and no user name is there twice.
use mathlib.Core.Path.{subst}
use omnivore_go.Prelude.{
  ◌==◌, ◌||◌, Text, text_eq, true, false, List, [], ◌∷◌, ◌≡◌, refl, sym, ap, ◌∙◌, All,
}
use omnivore_go.Prelude.Unicode.{Unicode}
use omnivore_go.Accounts.Names.{CreateEmailUserInput, is_name_rune}
use omnivore_go.Accounts.Normal.{normal_form, chosen_username-runes}
use omnivore_go.Accounts.Creates.{Creates, create_email_user-Creates, create_email_user-IsValid}
use omnivore_go.Accounts.Rows.{Tables, Database}
use omnivore_go.Accounts.Create.{
  CreateEmailUserResult, Created, created, refused, new_user, new_profile, has_email, has_username,
  create_email_user,
}

-- No two elements have the same text.
abbrev pub IsDistinct {ℓ} : {A : Type ℓ} → (A → Text) → List A → Type 0
IsDistinct f [] = Unit
IsDistinct f (x ∷ xs) = All (λ y. text_eq (f y) (f x) ≡ false) xs × IsDistinct f xs

-- A user name: letters, digits and underscores, and at least one.
abbrev pub IsName : Unicode → Text → Type 0
IsName u t =
    (text_eq t [] ≡ false) × All (λ c. (u.is_letter c || u.is_digit c || c == b'_') ≡ true) t

abbrev pub IsUnique : Unicode → Tables → Type 0
IsUnique u t =
    IsDistinct (λ w. w.email) t.users
    × IsDistinct (λ p. p.username) t.profiles
    × All (λ p. IsName u p.username) t.profiles

module _ (unicode : Unicode) (db : Database) where
  open db use {Store, tables}

  Creates-IsUnique :
      (n : CreateEmailUserInput) (o : Created) (t t' : Tables)
      → ((r : CreateEmailUserResult) → o ≡ created r → IsName unicode n.username)
      → Creates unicode db n o t t'
      → IsUnique unicode t
      → IsUnique unicode t'
  unfolding has_email new_user has_username new_profile
  Creates-IsUnique n (refused e) t t' name h unique = subst (IsUnique unicode) (sym h) unique
  Creates-IsUnique n (created r) t t' name c (emails, usernames, names) =
      subst (IsUnique unicode) (sym c.rows)
        ((c.email_free, emails), (c.username_free, usernames), (name r refl, names))

  -- If no email and no user name is there twice, and all user names consist of letters, digits and
  -- underscores, then so it is after CreateEmailUser, whatever its outcome. If it refuses the input
  -- or fails, no row has changed; if it answers, a user and a profile with the normal form of the
  -- input are added, whose email and user name were free, with a hash of the password.
  pub create_email_user-IsUnique :
      (input : CreateEmailUserInput) (s s' : Store) (o : Created)
      → IsUnique unicode (tables s)
      → create_email_user unicode db input s ≡ (o, s')
      → IsUnique unicode (tables s')
        × Creates unicode db (normal_form unicode input) o (tables s) (tables s')
  unfolding is_name_rune
  create_email_user-IsUnique input s s' o unique e =
      let done = create_email_user-Creates unicode db input s s' o e in
      (
        Creates-IsUnique (normal_form unicode input) o (tables s) (tables s')
            (λ r is. (
              (create_email_user-IsValid unicode db input s s' r (e ∙ ap (λ x. (x, s')) is)).2,
              chosen_username-runes unicode input,
            ))
            done unique,
        done,
      )
