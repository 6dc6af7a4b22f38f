-- ===== src/Jobs/Bulk/Matches.antt =====
-- The conditions of a filter, and the items that they hold for.
use mathlib.Core.List.{append_assoc}
use mathlib.Core.Path.{subst}
use omnivore_go.Prelude.{
  ℕ, ◌+◌, Text, codes, text_eq, Bool, true, false, ◌&&◌, ◌||◌, not, List, [], ◌∷◌, ◌++◌, some,
  length, ◌≡◌, refl, sym, ap, ◌∙◌, arith, if◌then◌else◌, Bool-cases, inl, inr,
}
use omnivore_go.Jobs.Bulk.Filter.{
  BulkFilter, Arg, text_arg, Clause, user_is, state_is, not_deleted, folder_is, has_label,
  text_like, Parts, add_part, add_state, add_folder, add_label, add_text, filter_clause,
}
use omnivore_go.Jobs.Bulk.Items.{Item, arg_at, text_test, member, holds, holds_all}
use omnivore_go.Jobs.Bulk.Arguments.{append_assoc1, arg_at-last, length-snoc}

-- What the filter asks of an item.
abbrev pub state_matches : BulkFilter → Item → Bool
state_matches f i =
    if text_eq f.state_filter []
    then not (text_eq i.state (codes "DELETED"))
    else text_eq i.state f.state_filter

abbrev pub folder_matches : BulkFilter → Item → Bool
folder_matches f i = if text_eq f.folder_filter [] then true else text_eq i.folder f.folder_filter

abbrev pub label_matches : BulkFilter → Item → Bool
label_matches f i = if text_eq f.label_name [] then true else member f.label_name i.label_names

module _ (ilike : Text → Text → Bool) where
  abbrev pub text_matches : BulkFilter → Item → Bool
  text_matches f i =
      let pattern = codes "%" ++ (f.text_search ++ codes "%") in
      if text_eq f.text_search []
      then true
      else ilike i.title pattern || ilike i.description pattern

  abbrev pub matches : Text → BulkFilter → Item → Bool
  matches user f i =
      (((text_eq i.user_id user && state_matches f i) && folder_matches f i) && label_matches f i)
      && text_matches f i

  pub holds_all-append :
      (args : List Arg) (cs ds : List Clause) (i : Item)
      → holds_all ilike args (cs ++ ds) i ≡ (holds_all ilike args cs i && holds_all ilike args ds i)
  unfolding holds_all
  holds_all-append args [] ds i = refl
  holds_all-append args (c ∷ cs) ds i = ground (arith, holds_all-append args cs ds i)

  -- The conditions so far hold exactly if `b`, whatever arguments are added behind.
  pub record Sound (first : List Clause) (i : Item) (p : Parts) (b : Bool) : Type 0 where
    pub next_free : p.next ≡ length p.args + 1
    pub holds_as : (rest : List Arg) → holds_all ilike (p.args ++ rest) (first ++ p.parts) i ≡ b

  and_true : (b : Bool) → b ≡ (b && true)
  and_true b = ground arith

  one_more_and : (b d e h : Bool) → e ≡ b → h ≡ d → (e && (h && true)) ≡ (b && d)
  one_more_and b d e h p r = ground arith

  one_more :
      (args : List Arg) (first parts : List Clause) (c : Clause) (i : Item) (b d : Bool)
      → holds_all ilike args (first ++ parts) i ≡ b
      → holds ilike args c i ≡ d
      → holds_all ilike args (first ++ (parts ++ c ∷ [])) i ≡ (b && d)
  unfolding holds_all
  one_more args first parts c i b d e h =
      let assoc = append_assoc first parts (c ∷ []) in
      let split = holds_all-append args (first ++ parts) (c ∷ []) i in
      ap (λ cs. holds_all ilike args cs i) (sym assoc) ∙ split ∙ one_more_and b d _ _ e h

  add_part-Sound :
      (first : List Clause) (i : Item) (p : Parts) (b d : Bool) (clause : ℕ → Clause) (a : Arg)
      → ((args : List Arg) (n : ℕ) → arg_at n args ≡ some a → holds ilike args (clause n) i ≡ d)
      → Sound first i p b
      → Sound first i (add_part clause a p) (b && d)
  unfolding add_part
  add_part-Sound first i p b d clause a means s = record {
    next_free = rw (length-snoc p.args a) (omega (arith, s.next_free));
    holds_as = λ rest.
        one_more ((p.args ++ a ∷ []) ++ rest) first p.parts (clause p.next) i b d
          (rw (append_assoc1 p.args a rest) (s.holds_as (a ∷ rest)))
          (means ((p.args ++ a ∷ []) ++ rest) p.next
            (arg_at-last p.args a rest p.next s.next_free));
  }

  -- A part that is added unless its text is empty.
  add_if-Sound :
      (first : List Clause) (i : Item) (p q : Parts) (b c d : Bool)
      → Sound first i p b
      → Sound first i q (b && d)
      → Sound first i (if c then p else q) (b && (if c then true else d))
  add_if-Sound first i p q b true d s t = subst (Sound first i p) (and_true b) s
  add_if-Sound first i p q b false d s t = t

  start-Sound :
      (user : Text) (i : Item)
      → Sound
          (user_is 1 ∷ [])
          i
          (record { parts = []; args = text_arg user ∷ []; next = 2 })
          (text_eq i.user_id user)
  unfolding holds_all holds arg_at text_test
  start-Sound user i = record { next_free = refl; holds_as = λ rest. ground arith }

  module _ (first : List Clause) (i : Item) (f : BulkFilter) (p : Parts) (b : Bool)
      (s : Sound first i p b) where
    add_state-Sound : Sound first i (add_state f p) (b && state_matches f i)
    unfolding add_state holds text_test
    add_state-Sound = elim (Bool-cases (text_eq f.state_filter [])) [
      | inl e ↦ rw e (record {
        next_free = s.next_free;
        holds_as = λ rest.
            one_more (p.args ++ rest) first p.parts not_deleted i b _ (s.holds_as rest) refl;
      })
      | inr e ↦ rw e (
          add_part-Sound first i p b _ state_is (text_arg f.state_filter)
            (λ args n h. ap (text_test (λ t. text_eq i.state t)) h) s)
    ]

    add_folder-Sound : Sound first i (add_folder f p) (b && folder_matches f i)
    unfolding add_folder holds text_test
    add_folder-Sound =
        add_if-Sound first i p (add_part folder_is (text_arg f.folder_filter) p) b
          (text_eq f.folder_filter []) (text_eq i.folder f.folder_filter) s
          (add_part-Sound first i p b _ folder_is (text_arg f.folder_filter)
            (λ args n h. ap (text_test (λ t. text_eq i.folder t)) h) s)

    add_label-Sound : Sound first i (add_label f p) (b && label_matches f i)
    unfolding add_label holds text_test
    add_label-Sound =
        add_if-Sound first i p (add_part has_label (text_arg f.label_name) p) b
          (text_eq f.label_name []) (member f.label_name i.label_names) s
          (add_part-Sound first i p b _ has_label (text_arg f.label_name)
            (λ args n h. ap (text_test (λ t. member t i.label_names)) h) s)

    add_text-Sound : Sound first i (add_text f p) (b && text_matches f i)
    unfolding add_text holds text_test
    add_text-Sound =
        let a = text_arg (codes "%" ++ (f.text_search ++ codes "%")) in
        add_if-Sound first i p (add_part (λ n. text_like n n) a p) b (text_eq f.text_search []) _ s
          (add_part-Sound first i p b _ (λ n. text_like n n) a
            (λ args n h.
              ap
                (λ o.
                  text_test (λ t. ilike i.title t) o || text_test (λ t. ilike i.description t) o)
                h)
            s)

  pub filter_clause-Sound :
      (user : Text) (f : BulkFilter) (i : Item)
      → Sound (user_is 1 ∷ []) i (filter_clause f (text_arg user ∷ [])) (matches user f i)
  unfolding filter_clause
  filter_clause-Sound user f i =
      let s0 = start-Sound user i in
      let s1 = add_state-Sound _ i f _ _ s0 in
      let s2 = add_folder-Sound _ i f _ _ s1 in
      let s3 = add_label-Sound _ i f _ _ s2 in add_text-Sound _ i f _ _ s3
