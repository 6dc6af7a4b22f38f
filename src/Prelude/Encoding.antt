-- ===== src/Prelude/Encoding.antt =====
-- A list of texts as one text, for the samples of packages json and jwt.
use Prim.Native.Nat.{zero, suc}
use mathlib.Core.Path.{◌≡◌, refl, sym, ap, ◌∙◌}
use mathlib.Core.List.{List, [], ◌∷◌, ◌++◌, map, append_assoc, append-nil}
use omnivore_go.Prelude.Strings.{Text}

-- Each text ends with a zero, and its code points are one higher.
abbrev pub write_texts : List Text → Text
write_texts [] = []
write_texts (t ∷ ts) = map suc t ++ 0 ∷ write_texts ts

abbrev pub read_texts : Text → Text → List Text
read_texts cur [] = []
read_texts cur (zero ∷ s) = cur ∷ read_texts [] s
read_texts cur (suc c ∷ s) = read_texts (cur ++ c ∷ []) s

read-word :
    (t cur rest : Text) → read_texts cur (map suc t ++ 0 ∷ rest) ≡ (cur ++ t) ∷ read_texts [] rest
read-word [] cur rest = ap (λ x. x ∷ read_texts [] rest) (sym (append-nil cur))
read-word (c ∷ t) cur rest =
    read-word t (cur ++ c ∷ []) rest
    ∙ ap (λ x. x ∷ read_texts [] rest) (append_assoc cur (c ∷ []) t)

pub read-write : (ts : List Text) → read_texts [] (write_texts ts) ≡ ts
read-write [] = refl
read-write (t ∷ ts) = read-word t [] (write_texts ts) ∙ ap (◌∷◌ t) (read-write ts)
