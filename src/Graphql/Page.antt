-- ===== src/Graphql/Page.antt =====
-- What an update of a page changes.
use omnivore_go.Prelude.{ℕ, Text, codes, Option, none, some, ◌≡◌, ◌≢◌}
use omnivore_go.Graphql.Tables.{LibraryItem, Outside, micros_or_null}
use omnivore_go.Graphql.Inputs.{UpdatePageInput}

-- A field that is a pointer, and one that is none, under an input that may leave it out.
abbrev pub Sets : Option Text → Option Text → Option Text → Type 0
Sets none old new = new ≡ old
Sets (some x) old new = new ≡ some x

abbrev pub SetsValue : {A : Type 0} → Option A → A → A → Type 0
SetsValue none old new = new ≡ old
SetsValue (some x) old new = new ≡ x

abbrev pub Archives : Outside → Option Text → ℕ → Option ℕ → Option ℕ → Type 0
Archives outside none at old new = new ≡ micros_or_null outside old
Archives outside (some state) at old new =
    (state ≡ codes "ARCHIVED" → new ≡ some (outside.to_micros at))
    × (state ≢ codes "ARCHIVED" → new ≡ micros_or_null outside old)

-- A percentage, in the precision of its column
abbrev pub SetsPercent : Outside → Option ℕ → ℕ → ℕ → Type 0
SetsPercent outside none old new = new ≡ outside.to_real old
SetsPercent outside (some x) old new = new ≡ outside.to_real x

abbrev pub IsUpdate : Outside → UpdatePageInput → ℕ → ℕ → LibraryItem → LibraryItem → Type 0
IsUpdate outside input now saved row after =
    (after.id ≡ row.id)
    × (after.user_id ≡ row.user_id)
    × Sets input.title row.title after.title
    × Sets input.description row.description after.description
    × SetsPercent outside input.reading_progress_percent row.reading_progress_percent
        after.reading_progress_percent
    × SetsValue input.state row.state after.state
    × (after.saved_at ≡ outside.to_micros saved)
    × Archives outside input.state now row.archived_at after.archived_at
