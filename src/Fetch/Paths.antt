-- ===== src/Fetch/Paths.antt =====
-- Where the fetched content is uploaded, and where save-page looks for it.
use mathlib.Core.List.{append_cancel_left, append_cancel_right}
use omnivore_go.Prelude.{
  ℕ, ◌*◌, ◌/◌, ◌%◌, ◌<◌, Text, codes, Bool, false, ◌++◌, some, ◌≡◌, ◌↔◌, refl, sym, ap, ◌∙◌, arith,
}
use omnivore_go.Prelude.Int.{ℤ, format_nat, read_digits, read_digits-format_nat}
use omnivore_go.Prelude.Unicode.{Unicode}
use omnivore_go.Bullmq.Redis.{Redis}
use omnivore_go.Bullmq.Queue.{Json}
use omnivore_go.Jobs.SavePage.Page.{World}
use omnivore_go.Jobs.SavePage.Save.{given, parsed_time, time_or, saved_at_of, content_blob_path}
use omnivore_go.Fetch.Job.{UserConfig, JobData, Result, read_job}
use omnivore_go.Fetch.Process.{Outside, save_page_data, upload_path}

format_nat-inj : (m n : ℕ) → format_nat m ≡ format_nat n → m ≡ n
format_nat-inj m n e =
    let both : some m ≡ some n =
      sym (read_digits-format_nat m) ∙ ap (read_digits 0 false) e ∙ read_digits-format_nat n in
    cc both

abbrev path : Text → Text → ℕ → Text
path user item ms =
    codes "content/"
    ++ (user ++ (codes "/" ++ (item ++ (codes "." ++ (format_nat ms ++ codes ".original")))))

path-inj : (user item : Text) (m n : ℕ) → path user item m ≡ path user item n → m ≡ n
path-inj user item m n e =
    let a = append_cancel_left (codes "content/") _ _ e in
    let b = append_cancel_left user _ _ a in
    let c = append_cancel_left (codes "/") _ _ b in
    let d = append_cancel_left item _ _ c in
    let f = append_cancel_left (codes ".") _ _ d in
    format_nat-inj m n (append_cancel_right _ _ (codes ".original") f)

whole_seconds :
    (t : ℕ) → (t / 1000000000 * 1000000000 / 1000000 ≡ t / 1000000) ↔ (t % 1000000000 < 1000000)
whole_seconds t = (λ e. omega (arith, e), λ h. omega (arith, h))

module _ (redis : Redis) (json : Json) (o : Outside redis) (max : ℤ) (skip : Bool) (w : World)
    (u : Unicode) where
  payload_time :
      (d : JobData) (r : Result) (saved : ℕ) (user : UserConfig) (t : w.Store)
      → w.parse_rfc3339 (o.format_rfc3339 saved) ≡ some (saved / 1000000000 * 1000000000)
      → saved_at_of w u (read_job (save_page_data redis json o max skip d r saved user)) t
        ≡ saved / 1000000000 * 1000000000
  unfolding saved_at_of read_job save_page_data given parsed_time time_or
  payload_time d r saved user t parsed = rw (o.format_rfc3339_ne saved) (rw parsed refl)

  payload_path :
      (d : JobData) (r : Result) (saved : ℕ) (user : UserConfig) (t : w.Store)
      → w.parse_rfc3339 (o.format_rfc3339 saved) ≡ some (saved / 1000000000 * 1000000000)
      → content_blob_path w u (read_job (save_page_data redis json o max skip d r saved user)) t
        ≡ path user.id user.library_item_id (saved / 1000000000 * 1000000000 / 1000000)
  unfolding content_blob_path read_job save_page_data
  payload_path d r saved user t parsed =
      ap (λ x. path user.id user.library_item_id (x / 1000000))
        (payload_time d r saved user t parsed)

  -- Let the time of a payload be read back as RFC 3339 writes it, in whole seconds. Then save-page
  -- looks for the content of a page at the path where it was uploaded exactly if the time that it
  -- was saved has no milliseconds.
  pub content_blob_path-upload_path :
      (d : JobData) (r : Result) (saved : ℕ) (user : UserConfig) (t : w.Store)
      → w.parse_rfc3339 (o.format_rfc3339 saved) ≡ some (saved / 1000000000 * 1000000000)
      → (content_blob_path w u (read_job (save_page_data redis json o max skip d r saved user)) t
          ≡ upload_path redis json o max skip saved user)
        ↔ (saved % 1000000000 < 1000000)
  unfolding upload_path
  content_blob_path-upload_path d r saved user t parsed =
      let there = payload_path d r saved user t parsed in
      (
        λ e. (whole_seconds saved).0 (path-inj user.id user.library_item_id _ _ (sym there ∙ e)),
        λ h. there ∙ ap (path user.id user.library_item_id) ((whole_seconds saved).1 h),
      )
