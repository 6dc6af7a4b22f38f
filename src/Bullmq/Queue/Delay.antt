-- ===== src/Bullmq/Queue/Delay.antt =====
-- The retry delay, and the score of a prioritized job.
use native.Mathlib.Nat.{pow-suc}
use omnivore_go.Prelude.{ℕ, zero, suc, ◌+◌, ◌*◌, ◌^◌, ◌≤◌, ◌<◌, ◌≡◌, ap, arith, ◌↔◌, ◌⊎◌, inl, inr}
use omnivore_go.Prelude.Int.{pos, add64-pos}
use omnivore_go.Bullmq.Queue.{exponential_delay, score}

pow-pos : (n : ℕ) → 0 < 2 ^ n
pow-pos zero = omega arith
pow-pos (suc n) = rw (pow-suc 2 n) (omega (arith, pow-pos n))

le-product : (a x : ℕ) → 0 < x → a ≤ a * x
le-product a x h = grind arith

-- The delay doubles with each attempt, as long as it is an int64.
pub exponential_delay-pow :
    (d n : ℕ) → d * 2 ^ n < 2 ^ 63 → exponential_delay (pos d) n ≡ pos (d * 2 ^ n)
unfolding exponential_delay
exponential_delay-pow d zero h = ap pos (omega arith)
exponential_delay-pow d (suc n) h =
    let e : 2 ^ suc n ≡ 2 ^ n * 2 = pow-suc 2 n in
    let whole : d * 2 ^ suc n ≡ (d + d) * 2 ^ n = rw e (omega arith) in
    let fits = le-product (d + d) (2 ^ n) (pow-pos n) in
    rw (add64-pos d d (omega (arith, fits, whole)), whole)
      (exponential_delay-pow (d + d) n (omega (arith, whole)))

-- Of two jobs that are added less than 10^12 milliseconds apart, the one of the lower priority
-- number has the lower score, and of two of one priority the one that was added first.
pub score-lt :
    (p p' t t' : ℕ)
    → t < t' + 10 ^ 12
    → t' < t + 10 ^ 12
    → (score p t < score p' t') ↔ ((p < p') ⊎ ((p ≡ p') × (t < t')))
unfolding score
score-lt p p' t t' h k = (forth, back)
  where
    forth : score p t < score p' t' → (p < p') ⊎ ((p ≡ p') × (t < t'))
    forth lt = ground arith

    back : (p < p') ⊎ ((p ≡ p') × (t < t')) → score p t < score p' t'
    back (inl lt) = omega arith
    back (inr (e, lt)) = omega arith
