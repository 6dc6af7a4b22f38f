-- ===== src/SaveUrl/Address.antt =====
-- internal/service/save_url.go: which URLs are taken, and how they are cleaned. Package net/url is
-- a parameter.
use omnivore_go.Prelude.{
  ℕ, leb, ◌==◌, Text, codes, text_eq, has_prefix, Bool, false, ◌&&◌, ◌||◌, not, List, [], ◌∷◌,
  Option, none, some, if◌then◌else◌,
}

-- `write` is String of the URL after RawQuery was set to the encoded pairs.
pub record UrlPackage : Type 1 where
  pub Url : Type 0
  pub parse : Text → Option Url
  pub scheme : Url → Text
  pub hostname : Url → Text
  pub path : Url → Text
  pub query : Url → List (Text × Text)
  pub write : Url → List (Text × Text) → Text

-- `[first-last]` of a regular expression
abbrev in_range : ℕ → ℕ → ℕ → Bool
in_range first last c = leb first c && leb c last

-- `172\.(1[6-9]|2[0-9]|3[01])\.` behind `172.`
unfoldable pub is_second_byte : Text → Bool
is_second_byte (c ∷ d ∷ e ∷ s) =
    e == b'.'
    && ((c == b'1' && in_range b'6' b'9' d)
        || (c == b'2' && in_range b'0' b'9' d)
        || (c == b'3' && in_range b'0' b'1' d))
is_second_byte s = false

unfoldable pub is_private_172 : Text → Bool
unfolding is_second_byte
is_private_172 (a ∷ b ∷ c ∷ d ∷ s) =
    (a == b'1' && b == b'7' && c == b'2' && d == b'.') && is_second_byte s
is_private_172 s = false

unfoldable pub is_private_ip : Text → Bool
unfolding is_private_172
is_private_ip host =
    has_prefix host (codes "10.") || is_private_172 host || has_prefix host (codes "192.168.")

unfoldable pub is_tracking_param : Text → Bool
is_tracking_param k =
    text_eq k (codes "utm_source")
    || text_eq k (codes "utm_medium")
    || text_eq k (codes "utm_campaign")
    || text_eq k (codes "utm_term")
    || text_eq k (codes "utm_content")
    || text_eq k (codes "fbclid")
    || text_eq k (codes "gclid")
    || text_eq k (codes "msclkid")

-- query.Del of each tracking parameter
unfoldable pub without_tracking : List (Text × Text) → List (Text × Text)
without_tracking [] = []
without_tracking ((k, v) ∷ q) =
    let rest = without_tracking q in if is_tracking_param k then rest else (k, v) ∷ rest

module _ (net : UrlPackage) where
  open net use {Url, parse, scheme, hostname, query, write}

  unfoldable pub clean_tracking_params : Url → Text
  clean_tracking_params u = write u (without_tracking (query u))

  unfoldable pub check_url : Url → Option Text
  check_url u =
      if not (text_eq (scheme u) (codes "http")) && not (text_eq (scheme u) (codes "https"))
      then none
      else if text_eq (hostname u) (codes "localhost")
          || text_eq (hostname u) (codes "0.0.0.0")
          || text_eq (hostname u) (codes "127.0.0.1")
      then none
      else if text_eq (hostname u) (codes "metadata.google.internal")
      then none
      else if has_prefix (hostname u) (codes "169.254.")
      then none
      else if is_private_ip (hostname u)
      then none
      else some (clean_tracking_params u)

  unfoldable pub validate_and_clean_url : Text → Option Text
  unfolding check_url
  validate_and_clean_url raw = elim (parse raw) [ none ↦ none | some u ↦ check_url u ]

-- The values of one parameter.
unfoldable pub values_of : Text → List (Text × Text) → List Text
values_of k [] = []
values_of k ((j, v) ∷ q) = if text_eq j k then v ∷ values_of k q else values_of k q
