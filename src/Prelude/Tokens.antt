-- ===== src/Prelude/Tokens.antt =====
-- What strings.Fields returns: tokens that hold no white space, in order.
use mathlib.Core.Path.{◌≡◌, refl, sym, ap, ◌∙◌}
use mathlib.Core.Logic.{◌≢◌, inl, inr}
use mathlib.Core.Bool.{true, false}
use mathlib.Core.List.{List, [], ◌∷◌, ◌++◌, append_assoc, append-nil}
use Prim.Native.Nat.{ℕ}
use omnivore_go.Prelude.Tests.{Bool-cases}
use omnivore_go.Prelude.Lists.{All, All-append}
use omnivore_go.Prelude.Strings.{Text, is_space, push_token, fields_from, fields, join}

abbrev pub IsSpaceFree : Text → Type 0
IsSpaceFree t = All (λ c. is_space c ≡ false) t

-- A non-empty text with no white space.
abbrev pub IsToken : Text → Type 0
IsToken t = (t ≢ []) × IsSpaceFree t

fields_from-word :
    (cur s : Text) (c : ℕ)
    → is_space c ≡ false
    → fields_from cur (c ∷ s) ≡ fields_from (cur ++ c ∷ []) s
fields_from-word cur s c h = unfold fields_from in rw (h, fields_from)

fields_from-gap :
    (cur s : Text) (c : ℕ)
    → is_space c ≡ true
    → fields_from cur (c ∷ s) ≡ push_token cur (fields_from [] s)
fields_from-gap cur s c h = unfold fields_from in rw (h, fields_from)

fields_from-append :
    (t cur rest : Text) → IsSpaceFree t → fields_from cur (t ++ rest) ≡ fields_from (cur ++ t) rest
fields_from-append [] cur rest h = rw append-nil
fields_from-append (c ∷ t) cur rest (hc, ht) =
    fields_from-word cur (t ++ rest) c hc
    ∙ fields_from-append t (cur ++ c ∷ []) rest ht
    ∙ ap (λ x. fields_from x rest) (append_assoc cur (c ∷ []) t)

push_token-ne : (t : Text) (ts : List Text) → t ≢ [] → push_token t ts ≡ t ∷ ts
unfolding push_token
push_token-ne [] ts h = absurd (h refl)
push_token-ne (c ∷ t) ts h = refl

fields_from-space : (t rest : Text) → t ≢ [] → fields_from t (32 ∷ rest) ≡ t ∷ fields_from [] rest
fields_from-space t rest h =
    fields_from-gap t rest 32 (unfold is_space in refl) ∙ push_token-ne t _ h

-- Tokens that are joined by a space are read back.
pub fields-join : (ts : List Text) → All IsToken ts → fields (join ts (32 ∷ [])) ≡ ts
unfolding fields join
fields-join [] h = refl
fields-join (t ∷ []) ((ne, free), _) =
    ap (fields_from []) (sym (append-nil t))
    ∙ fields_from-append t [] [] free
    ∙ push_token-ne t [] ne
fields-join (t ∷ u ∷ ts) ((ne, free), h) =
    fields_from-append t [] _ free
    ∙ fields_from-space t (join (u ∷ ts) (32 ∷ [])) ne
    ∙ ap (◌∷◌ t) (fields-join (u ∷ ts) h)

push_token-IsToken :
    (cur : Text) (ts : List Text)
    → IsSpaceFree cur
    → All IsToken ts
    → All IsToken (push_token cur ts)
unfolding push_token
push_token-IsToken [] ts hc h = h
push_token-IsToken (c ∷ cur) ts hc h = (((λ e. cc), hc), h)

fields_from-IsToken : (s cur : Text) → IsSpaceFree cur → All IsToken (fields_from cur s)
fields_from-IsToken [] cur h = unfold fields_from in push_token-IsToken cur [] h tt
fields_from-IsToken (c ∷ s) cur h = elim (Bool-cases (is_space c)) [
  | inl e ↦
      rw (fields_from-gap cur s c e) (push_token-IsToken cur _ h (fields_from-IsToken s [] tt))
  | inr e ↦
      rw (fields_from-word cur s c e)
        (fields_from-IsToken s (cur ++ c ∷ []) (All-append _ cur (c ∷ []) h (e, tt)))
]

-- Every field is non-empty and holds no white space.
pub fields-IsToken : (s : Text) → All IsToken (fields s)
unfolding fields
fields-IsToken s = fields_from-IsToken s [] tt
