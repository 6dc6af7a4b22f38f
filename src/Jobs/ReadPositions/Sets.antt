-- ===== src/Jobs/ReadPositions/Sets.antt =====
-- internal/jobs/sync_read_positions.go: the keys and sets of Redis.
use omnivore_go.Prelude.{
  Text, text_eq, split_two, Bool, false, ◌||◌, List, [], ◌∷◌, Option, none, some, if◌then◌else◌,
}

-- SMEMBERS: a set that is not there is empty.
unfoldable pub members_of : Text → List (Text × List Text) → List Text
members_of key [] = []
members_of key ((k, ms) ∷ sets) =
    let rest = members_of key sets in if text_eq k key then ms else rest

unfoldable pub contains : Text → List Text → Bool
contains t [] = false
contains t (u ∷ us) = text_eq u t || contains t us

unfoldable pub without : List Text → List Text → List Text
unfolding contains
without gone [] = []
without gone (m ∷ ms) = let rest = without gone ms in if contains m gone then rest else m ∷ rest

-- SREM
unfoldable pub remove_members : Text → List Text → List (Text × List Text) → List (Text × List Text)
remove_members key gone [] = []
remove_members key gone ((k, ms) ∷ sets) =
    if text_eq k key then (k, without gone ms) ∷ sets else (k, ms) ∷ remove_members key gone sets

-- The user and the item of a key: strings.SplitN(key, ":", 4) has four parts, of which these are
-- the last two.
unfoldable pub split_key : Text → Option (Text × Text)
split_key key = elim (split_two key b':') [
  | _ ∷ rest ∷ [] ↦ elim (split_two rest b':') [
    | _ ∷ ids ∷ [] ↦ elim (split_two ids b':') [ user ∷ item ∷ [] ↦ some (user, item) | _ ↦ none ]
    | _ ↦ none
  ]
  | _ ↦ none
]
