-- ===== src/Fetch/Tests.antt =====
-- The theorems at concrete inputs.
use omnivore_go.Prelude.{◌%◌, ◌<◌, ◌/◌, ◌*◌, text_eq, false, [], none, some, ◌≡◌, ◌↔◌, refl}
use omnivore_go.Prelude.Int.{ℤ, pos, format_nat, digits, read_digits}
use omnivore_go.Prelude.Unicode.{ascii}
use omnivore_go.Bullmq.Redis.{View, hash_get}
use omnivore_go.Bullmq.Queue.Sample.{server, encoding, nothing}
use omnivore_go.Jobs.SavePage.Save.{content_blob_path}
use omnivore_go.Fetch.Job.{
  is_listed, counts_above, build_cache_key, text_of, is_no_cache_url, read_job,
}
use omnivore_go.Fetch.Process.{
  ready, failure_count, is_domain_blocked, cached_result, get_cached_result, key_of, cache_result,
  after_fetch, from_cache, with_domain, prepare, save_page_data, upload_path,
}
use omnivore_go.Fetch.Paths.{content_blob_path-upload_path}
use omnivore_go.Fetch.Sample.{outside, reader, fetched_page, ann, for_ann, write_result, value_at}

abbrev ten : ℤ
ten = pos 10

seconds :
    reader.parse_rfc3339 (outside.format_rfc3339 5300000000)
    ≡ some (5300000000 / 1000000000 * 1000000000)
unfolding format_nat digits read_digits
seconds = refl

content_blob_path-upload_path_example :
    (content_blob_path reader ascii
        (read_job
          (save_page_data server encoding outside ten false for_ann fetched_page 5300000000 ann))
        []
      ≡ upload_path server encoding outside ten false 5300000000 ann)
    ↔ (5300000000 % 1000000000 < 1000000)
content_blob_path-upload_path_example =
    content_blob_path-upload_path server encoding outside ten false reader ascii for_ann
      fetched_page 5300000000 ann [] seconds

abbrev fetched : View
fetched = (prepare server encoding outside ten false for_ann nothing).1

prepared : prepare server encoding outside ten false for_ann nothing ≡ (ready fetched_page, fetched)
unfolding prepare with_domain is_domain_blocked is_listed counts_above failure_count from_cache
    get_cached_result cached_result after_fetch hash_get text_eq
prepared = refl

free_before : value_at (key_of server encoding outside ten false for_ann) nothing ≡ some none
unfolding hash_get
free_before = refl

held :
    value_at (key_of server encoding outside ten false for_ann) fetched
    ≡ some (some (write_result fetched_page))
unfolding prepare with_domain is_domain_blocked is_listed counts_above failure_count from_cache
    get_cached_result cached_result after_fetch hash_get text_eq cache_result is_no_cache_url key_of
    build_cache_key text_of
held = refl
