-- ===== src/Bullmq/Queue/Ids.antt =====
-- The ids in the lists and sets of a queue, after one of them is added or removed.
use omnivore_go.Prelude.{
  Text, codes, text_eq, text_eq→eq, text_eq_refl, Bool, true, false, List, [], ◌∷◌, ◌≡◌, refl,
  arith, if◌then◌else◌,
}
use omnivore_go.Prelude.Int.{ℤ}
use omnivore_go.Bullmq.Keys.{key, active_key, text_eq-key}
use omnivore_go.Bullmq.Redis.{View, ZSet, put, zset_insert, zset_remove, list_remove}
use omnivore_go.Bullmq.Queue.Effects.{ids, pending}

-- Whether a list of ids holds one.
unfoldable pub has_id : Text → List Text → Bool
has_id s [] = false
has_id s (t ∷ l) = if text_eq t s then true else has_id s l

pub has_id-list_remove : (s : Text) (l : List Text) → has_id s (list_remove s l) ≡ false
unfolding has_id list_remove
has_id-list_remove s [] = refl
has_id-list_remove s (t ∷ l) = ground (arith, has_id-list_remove s l)

pub has_id-zset_insert :
    (s t : Text) (n : ℤ) (z : ZSet)
    → has_id s (ids (zset_insert n t z)) ≡ (if text_eq t s then true else has_id s (ids z))
unfolding has_id zset_insert
has_id-zset_insert s t n [] = refl
has_id-zset_insert s t n ((m, u) ∷ z) = ground (arith, has_id-zset_insert s t n z)

pub has_id-zset_remove :
    (s t : Text) (z : ZSet)
    → has_id s (ids (zset_remove t z)) ≡ (if text_eq t s then false else has_id s (ids z))
unfolding has_id zset_remove
has_id-zset_remove s t [] = ground arith
has_id-zset_remove s t ((m, u) ∷ z) = ground (
  arith,
  text_eq→eq u t,
  text_eq→eq u s,
  text_eq→eq t s,
  text_eq_refl s,
  text_eq_refl t,
  has_id-zset_remove s t z,
)

-- ZADD of an id that a set may hold already
abbrev pub zset_put : ℤ → Text → ZSet → ZSet
zset_put n s z = zset_insert n s (zset_remove s z)

pub has_id-zset_put :
    (s t : Text) (n : ℤ) (z : ZSet)
    → has_id s (ids (zset_put n t z)) ≡ (if text_eq t s then true else has_id s (ids z))
has_id-zset_put s t n z =
    rw (has_id-zset_insert s t n (zset_remove t z), has_id-zset_remove s t z) (ground arith)

pub put_same : {A : Type 0} (f : Text → A) (k : Text) (a : A) → put f k a k ≡ a
put_same f k a = rw (text_eq_refl k)

pub put_apart :
    {A : Type 0} (f : Text → A) (q s t : Text) (a : A)
    → text_eq s t ≡ false
    → put f (key q s) a (key q t) ≡ f (key q t)
put_apart f q s t a e = rw (text_eq-key q s t, e)

module _ (q : Text) where
  pub pending_apart :
      (v : View) (s : Text) (z : ZSet) (l : List Text)
      → text_eq s (codes "prioritized") ≡ false
      → pending q
          (record v { zsets = put v.zsets (key q s) z; lists = put v.lists (active_key q) l })
        ≡ pending q v
  unfolding text_eq
  pending_apart v s z l e =
      let a = put_apart v.zsets q s (codes "prioritized") z e in
      let b = put_apart v.lists q (codes "active") (codes "wait") l refl in rw (a, b)
