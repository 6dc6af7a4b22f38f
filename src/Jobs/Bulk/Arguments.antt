-- ===== src/Jobs/Bulk/Arguments.antt =====
-- The arguments of a statement by their numbers.
use mathlib.Core.List.{append_assoc, append-nil}
use omnivore_go.Prelude.{
  ℕ, suc, zero, ◌+◌, Bool, ◌&&◌, List, [], ◌∷◌, ◌++◌, some, get_elem?, length, ◌≡◌, refl, sym, ap,
  ◌∙◌, arith,
}
use omnivore_go.Jobs.Bulk.Filter.{Arg}
use omnivore_go.Jobs.Bulk.Items.{arg_at}

pub append_assoc1 :
    (args : List Arg) (a : Arg) (rest : List Arg) → (args ++ a ∷ []) ++ rest ≡ args ++ a ∷ rest
append_assoc1 args a rest = append_assoc args (a ∷ []) rest

get_elem-length :
    (args : List Arg) (a : Arg) (rest : List Arg)
    → get_elem? (args ++ a ∷ rest) (length args) ≡ some a
get_elem-length [] a rest = refl
get_elem-length (b ∷ args) a rest = get_elem-length args a rest

pub arg_at-last :
    (args : List Arg) (a : Arg) (rest : List Arg) (n : ℕ)
    → n ≡ length args + 1
    → arg_at n ((args ++ a ∷ []) ++ rest) ≡ some a
unfolding arg_at
arg_at-last args a rest zero e = absurd (omega arith)
arg_at-last args a rest (suc n) e =
    let m : n ≡ length args = omega arith in
    rw (append_assoc1 args a rest, m) (get_elem-length args a rest)

pub length-snoc : (args : List Arg) (a : Arg) → length (args ++ a ∷ []) ≡ suc (length args)
length-snoc [] a = refl
length-snoc (b ∷ args) a = ap suc (length-snoc args a)

pub arith_one : (args : List Arg) (a : Arg) → length args + 1 ≡ length (args ++ a ∷ [])
arith_one args a = omega (arith, length-snoc args a)

pub ap2_and : {a b c d : Bool} → a ≡ b → c ≡ d → (a && c) ≡ (b && d)
ap2_and p q = cc

pub arg_at-end : (args : List Arg) (a : Arg) → arg_at (length args + 1) (args ++ a ∷ []) ≡ some a
arg_at-end args a =
    let none_more = append-nil (args ++ a ∷ []) in
    ap (arg_at (length args + 1)) (sym none_more) ∙ arg_at-last args a [] (length args + 1) refl
