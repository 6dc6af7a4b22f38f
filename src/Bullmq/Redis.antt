-- ===== src/Bullmq/Redis.antt =====
-- Redis, as a parameter: what a client can see of its keys, and what Redis documents of the
-- commands and of the script that the queue uses. Expiry of keys is not in the view: EXPIRE and
-- XADD change nothing that is read back here.
use omnivore_go.Prelude.{
  ℕ, suc, Text, text_eq, text_eq→eq, text_eq_refl, arith, Bool, true, false, List, [], ◌∷◌, Option,
  none, some, ◌≡◌, refl, ltb, ◌||◌, ◌&&◌, if◌then◌else◌, not,
}
use omnivore_go.Prelude.Int.{ℤ, ltb_int, eq_int, format_nat}
use omnivore_go.Prelude.Sort.{text_lt}

abbrev pub Hash : Type 0
Hash = List (Text × Text)

unfoldable pub hash_get : Text → Hash → Option Text
hash_get f [] = none
hash_get f ((g, v) ∷ h) = if text_eq g f then some v else hash_get f h

unfoldable pub hash_set : Text → Text → Hash → Hash
hash_set f v [] = (f, v) ∷ []
hash_set f v ((g, w) ∷ h) = if text_eq g f then (f, v) ∷ h else (g, w) ∷ hash_set f v h

unfoldable pub hash_set_all : Hash → Hash → Hash
hash_set_all [] h = h
hash_set_all ((f, v) ∷ fs) h = hash_set_all fs (hash_set f v h)

pub hash_get-hash_set :
    (f g v : Text) (h : Hash)
    → hash_get f (hash_set g v h) ≡ (if text_eq g f then some v else hash_get f h)
unfolding hash_get hash_set
hash_get-hash_set f g v [] = refl
hash_get-hash_set f g v ((k, w) ∷ h) = ground (
  arith,
  text_eq→eq g f,
  text_eq→eq k g,
  text_eq→eq k f,
  text_eq_refl g,
  hash_get-hash_set f g v h,
)

-- Redis compares the members of a sorted set byte by byte.
abbrev pub ZSet : Type 0
ZSet = List (ℤ × Text)

abbrev pub entry_lt : ℤ → Text → ℤ → Text → Bool
entry_lt n s m t = ltb_int n m || (eq_int n m && text_lt s t)

unfoldable pub zset_remove : Text → ZSet → ZSet
zset_remove s [] = []
zset_remove s ((m, t) ∷ z) =
    let rest = zset_remove s z in if text_eq t s then rest else (m, t) ∷ rest

unfoldable pub zset_insert : ℤ → Text → ZSet → ZSet
zset_insert n s [] = (n, s) ∷ []
zset_insert n s ((m, t) ∷ z) =
    if entry_lt n s m t then (n, s) ∷ (m, t) ∷ z else (m, t) ∷ zset_insert n s z

unfoldable pub list_remove : Text → List Text → List Text
list_remove s [] = []
list_remove s (t ∷ l) = let rest = list_remove s l in if text_eq t s then rest else t ∷ rest

-- All elements but the last, and the last.
unfoldable pub unsnoc : List Text → Option (List Text × Text)
unsnoc [] = none
unsnoc (t ∷ l) = elim (unsnoc l) [ none ↦ some ([], t) | some (r, u) ↦ some (t ∷ r, u) ]

pub record View : Type 0 where
  pub lists : Text → List Text
  pub zsets : Text → ZSet
  pub hashes : Text → Option Hash
  pub counters : Text → ℕ

abbrev pub put {ℓ} : {A : Type ℓ} → (Text → A) → Text → A → Text → A
put f k a j = if text_eq k j then a else f j

abbrev pub fields_of : Option Hash → Hash
fields_of none = []
fields_of (some h) = h

-- The commands of the pipelines.
pub data Command : Type 0 where
  hset : Text → Hash → Command
  lpush : Text → Text → Command
  lrem_all : Text → Text → Command
  zadd : Text → ℤ → Text → Command
  expire : Text → ℕ → Command
  xadd : Text → Hash → Command

unfoldable pub apply : Command → View → View
apply (hset k fs) v = record v {
  hashes = put v.hashes k (some (hash_set_all fs (fields_of (v.hashes k))));
}
apply (lpush k s) v = record v { lists = put v.lists k (s ∷ v.lists k) }
apply (lrem_all k s) v = record v { lists = put v.lists k (list_remove s (v.lists k)) }
apply (zadd k n s) v = record v {
  zsets = put v.zsets k (zset_insert n s (zset_remove s (v.zsets k)));
}
apply (expire k ttl) v = v
apply (xadd k fs) v = v

unfoldable pub apply_all : List Command → View → View
apply_all [] v = v
apply_all (c ∷ cs) v = apply_all cs (apply c v)

-- The Lua script moveToActive: ZPOPMIN, or else RPOP, and LPUSH.
unfoldable pub pop_wait : Text → Text → View → Option (List Text × Text) → Option Text × View
pop_wait wait active v none = (none, v)
pop_wait wait active v (some (rest, id)) = (
  some id,
  record v { lists = put (put v.lists wait rest) active (id ∷ put v.lists wait rest active) },
)

unfoldable pub pop_prioritized : Text → Text → Text → View → ZSet → Option Text × View
pop_prioritized wait prioritized active v [] = pop_wait wait active v (unsnoc (v.lists wait))
pop_prioritized wait prioritized active v ((n, id) ∷ z) = (
  some id,
  record v { zsets = put v.zsets prioritized z; lists = put v.lists active (id ∷ v.lists active) },
)

unfoldable pub move_to_active : Text → Text → Text → View → Option Text × View
move_to_active wait prioritized active v =
    pop_prioritized wait prioritized active v (v.zsets prioritized)

is_nil {ℓ} : {A : Type ℓ} → List A → Bool
is_nil [] = true
is_nil (x ∷ xs) = false

-- EXISTS, for a key of any type
unfoldable pub present : View → Text → Bool
unfolding is_nil
present v k = elim (v.hashes k) [
  | some h ↦ true
  | none ↦ not (is_nil (v.lists k)) || not (is_nil (v.zsets k)) || ltb 0 (v.counters k)
]

-- A request that fails returns `none`, and then nothing is assumed of the store behind it.
pub record Redis : Type 1 where
  pub Store : Type 0
  pub view : Store → View
  pub now : Store → ℕ
  pub exists : Text → Store → Option Bool
  pub incr : Text → Store → Option ℕ × Store
  pub exec : List Command → Store → Bool × Store
  pub run_move_to_active : Text → Text → Text → Store → Option (Option Text) × Store
  pub hget_all : Text → Store → Option Hash
  pub hincr : Text → Text → Store → Option ℕ × Store
  -- the number that a field holds; 0 if there is none
  pub number_of : Option Text → ℕ
  pub number_of-format_nat : (n : ℕ) → number_of (some (format_nat n)) ≡ n
  pub number_of-none : number_of none ≡ 0
  pub exists_lem : (k : Text) (s : Store) (b : Bool) → exists k s ≡ some b → b ≡ present (view s) k
  pub incr_lem :
      (k : Text) (s s' : Store) (n : ℕ)
      → incr k s ≡ (some n, s')
      → (n ≡ suc ((view s).counters k))
        × (view s' ≡ record (view s) { counters = put (view s).counters k n })
  pub exec_lem :
      (cs : List Command) (s s' : Store) → exec cs s ≡ (true, s') → view s' ≡ apply_all cs (view s)
  pub run_move_to_active_lem :
      (w p a : Text) (s s' : Store) (r : Option Text)
      → run_move_to_active w p a s ≡ (some r, s')
      → (r, view s') ≡ move_to_active w p a (view s)
  pub hget_all_lem :
      (k : Text) (s : Store) (h : Hash) → hget_all k s ≡ some h → h ≡ fields_of ((view s).hashes k)
  pub hincr_lem :
      (k f : Text) (s s' : Store) (n : ℕ)
      → hincr k f s ≡ (some n, s')
      → (n ≡ suc (number_of (hash_get f (fields_of ((view s).hashes k)))))
        × (view s' ≡ record (view s) {
          hashes =
              put
                (view s).hashes
                k
                (some (hash_set f (format_nat n) (fields_of ((view s).hashes k))));
        })
