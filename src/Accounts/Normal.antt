-- ===== src/Accounts/Normal.antt =====
-- What the normal form of the input is, and what a user name is made of.
use omnivore_go.Prelude.{
  Text, byte_length, text_eq, true, false, [], ◌≡◌, All, All-select, before, inl, inr, Bool-cases,
  ltb,
}
use omnivore_go.Prelude.Unicode.{Unicode}
use omnivore_go.Accounts.Names.{
  CreateEmailUserInput, normal, trim_space, is_name_rune, normalize_username,
  default_username_from_email, chosen_username, chosen_name, normalize_create_email_user_input,
}

-- The input that is written down, if it is valid.
abbrev pub normal_form : Unicode → CreateEmailUserInput → CreateEmailUserInput
normal_form u input = record {
  email = trim_space input.email;
  password = input.password;
  name = chosen_name (trim_space input.name) (chosen_username u input);
  username = chosen_username u input;
}

normal-eq : (m n : CreateEmailUserInput) → normal m ≡ normal n → n ≡ m
normal-eq m n e = cc e

-- The checks that a valid input passes.
abbrev pub IsValid : Unicode → CreateEmailUserInput → Type 0
IsValid u input =
    (text_eq (trim_space input.email) [] ≡ false)
    × (ltb (byte_length input.password) 8 ≡ false)
    × (text_eq (chosen_username u input) [] ≡ false)

pub normalize-normal :
    (u : Unicode) (input n : CreateEmailUserInput)
    → normalize_create_email_user_input u input ≡ normal n
    → (n ≡ normal_form u input) × IsValid u input
unfolding normalize_create_email_user_input
normalize-normal u input n e = elim (Bool-cases (text_eq (trim_space input.email) [])) [
  | inl a ↦ let no = rw a at e in absurd (cc)
  | inr a ↦ elim (Bool-cases (ltb (byte_length input.password) 8)) [
    | inl b ↦ let no = rw (a, b) at e in absurd (cc)
    | inr b ↦ elim (Bool-cases (text_eq (chosen_username u input) [])) [
      | inl c ↦ let no = rw (a, b, c) at e in absurd (cc)
      | inr c ↦ (normal-eq _ n (rw (a, b, c) at e), (a, b, c))
    ]
  ]
]

normalize_username-runes :
    (u : Unicode) (v : Text) → All (λ c. is_name_rune u c ≡ true) (normalize_username u v)
unfolding normalize_username
normalize_username-runes u v = elim (Bool-cases (text_eq (trim_space v) [])) [
  | inl e ↦ rw e tt
  | inr e ↦ rw e (All-select _ (is_name_rune u) (trim_space v) (λ c h. h))
]

pub chosen_username-runes :
    (u : Unicode) (input : CreateEmailUserInput)
    → All (λ c. is_name_rune u c ≡ true) (chosen_username u input)
unfolding chosen_username default_username_from_email
chosen_username-runes u input =
    elim (Bool-cases (text_eq (normalize_username u input.username) [])) [
      | inl e ↦ rw e (normalize_username-runes u (before b'@' (trim_space input.email)))
      | inr e ↦ rw e (normalize_username-runes u input.username)
    ]
