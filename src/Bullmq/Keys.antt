-- ===== src/Bullmq/Keys.antt =====
-- internal/bullmq/bullmq.go: the names of a queue's keys.
use omnivore_go.Prelude.{Text, codes, text_eq, [], ◌∷◌, ◌++◌, ◌≡◌, refl, ◌∙◌, arith}

unfoldable pub queue_key : Text → Text
queue_key q = codes "bull:" ++ q

-- `queueKey(q) + ":" + suffix`
unfoldable pub key : Text → Text → Text
unfolding queue_key
key q suffix = queue_key q ++ (codes ":" ++ suffix)

abbrev pub wait_key : Text → Text
wait_key q = key q (codes "wait")

abbrev pub active_key : Text → Text
active_key q = key q (codes "active")

abbrev pub completed_key : Text → Text
completed_key q = key q (codes "completed")

abbrev pub failed_key : Text → Text
failed_key q = key q (codes "failed")

abbrev pub delayed_key : Text → Text
delayed_key q = key q (codes "delayed")

abbrev pub id_key : Text → Text
id_key q = key q (codes "id")

abbrev pub meta_key : Text → Text
meta_key q = key q (codes "meta")

abbrev pub prioritized_key : Text → Text
prioritized_key q = key q (codes "prioritized")

abbrev pub events_key : Text → Text
events_key q = key q (codes "events")

abbrev pub job_key : Text → Text → Text
job_key q id = key q id

append_cancel : (p s t : Text) → p ++ s ≡ p ++ t → s ≡ t
append_cancel [] s t e = e
append_cancel (c ∷ p) s t e = append_cancel p s t (cc e)

-- Two keys of one queue are equal only if their last parts are: no job is stored over another, and
-- none over a list of the queue unless its id is that list's name.
pub key-injective : (q s t : Text) → key q s ≡ key q t → s ≡ t
unfolding key
key-injective q s t e = let u = append_cancel (queue_key q) (b':' ∷ s) (b':' ∷ t) e in cc u

text_eq-append : (p s t : Text) → text_eq (p ++ s) (p ++ t) ≡ text_eq s t
unfolding text_eq
text_eq-append [] s t = refl
text_eq-append (c ∷ p) s t = ground (arith, text_eq-append p s t)

-- Whether two keys of a queue are the same turns on their last parts.
pub text_eq-key : (q s t : Text) → text_eq (key q s) (key q t) ≡ text_eq s t
unfolding key
text_eq-key q s t =
    text_eq-append (queue_key q) (b':' ∷ s) (b':' ∷ t) ∙ text_eq-append (b':' ∷ []) s t
