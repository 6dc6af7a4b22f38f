-- ===== src/Jobs/AllFeeds/JobId.antt =====
-- The id of a poll's job is that of the feed and the set of its users.
use mathlib.Core.List.{Perm}
use omnivore_go.Prelude.{
  ℕ, ◌*◌, Text, codes, List, [], ◌∷◌, some, ◌≡◌, refl, ◌↔◌, sym, ap, ◌∙◌, arith, take, length,
  length-take, append-split,
}
use omnivore_go.Prelude.Sort.{sort_texts, sort_iff_Perm}
use omnivore_go.Jobs.AllFeeds.Enqueue.{Hashing, hex, sha256hex16, refresh_feed_job_id}

length-hex : (bs : List ℕ) → length (hex bs) ≡ 2 * length bs
unfolding hex
length-hex [] = omega arith
length-hex (b ∷ bs) = omega (arith, length-hex bs)

module _ (h : Hashing) where
  open h use {sha256, marshal_strings, unmarshal_strings, length-sha256, unmarshal-marshal}

  pub length-sha256hex16 : (s : Text) → length (sha256hex16 h s) ≡ 16
  unfolding sha256hex16
  length-sha256hex16 s =
      omega (arith, length-hex (take 8 (sha256 s)), length-take 8 (sha256 s), length-sha256 s)

  marshal_strings-inj : (xs ys : List Text) → marshal_strings xs ≡ marshal_strings ys → xs ≡ ys
  marshal_strings-inj xs ys e =
      let both : some xs ≡ some ys =
        sym (unmarshal-marshal xs) ∙ ap unmarshal_strings e ∙ unmarshal-marshal ys in
      cc both

  job_id_parts :
      (u v : Text) (us vs : List Text)
      → refresh_feed_job_id h u us ≡ refresh_feed_job_id h v vs
      → (sha256hex16 h u ≡ sha256hex16 h v)
        × (sha256hex16 h (marshal_strings (sort_texts us))
            ≡ sha256hex16 h (marshal_strings (sort_texts vs)))
  unfolding refresh_feed_job_id
  job_id_parts u v us vs e =
      let (_, rest) = append-split (codes "refresh-feed_") (codes "refresh-feed_") _ _ refl e in
      let (first, tail) =
        append-split (sha256hex16 h u) (sha256hex16 h v) _ _
          (length-sha256hex16 u ∙ sym (length-sha256hex16 v)) rest in
      let (_, second) = append-split (codes "_") (codes "_") _ _ refl tail in (first, second)

  -- Users in another order have the same poll.
  pub refresh_feed_job_id-Perm :
      (u v : Text) (us vs : List Text)
      → u ≡ v
      → Perm us vs
      → refresh_feed_job_id h u us ≡ refresh_feed_job_id h v vs
  unfolding refresh_feed_job_id
  refresh_feed_job_id-Perm u v us vs e p = let same = (sort_iff_Perm us vs).1 p in rw (e, same)

  -- Let the hashes of the code, 16 hexadecimal digits of SHA-256, not collide on two URLs and on
  -- two lists of users. Then the polls of the two have one job id exactly if the URLs are equal and
  -- one list is the other in another order.
  pub refresh_feed_job_id_iff :
      (u v : Text) (us vs : List Text)
      → (sha256hex16 h u ≡ sha256hex16 h v → u ≡ v)
      → (sha256hex16 h (marshal_strings (sort_texts us))
            ≡ sha256hex16 h (marshal_strings (sort_texts vs))
          → marshal_strings (sort_texts us) ≡ marshal_strings (sort_texts vs))
      → (refresh_feed_job_id h u us ≡ refresh_feed_job_id h v vs) ↔ ((u ≡ v) × Perm us vs)
  refresh_feed_job_id_iff u v us vs apart_urls apart_users = (
    λ e.
        let (first, second) = job_id_parts u v us vs e in
        (apart_urls first, (sort_iff_Perm us vs).0 (marshal_strings-inj _ _ (apart_users second))),
    λ p. refresh_feed_job_id-Perm u v us vs p.0 p.1,
  )
