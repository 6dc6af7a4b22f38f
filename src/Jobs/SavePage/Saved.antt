-- ===== src/Jobs/SavePage/Saved.antt =====
-- What save-page leaves in the table.
use omnivore_go.Prelude.{length, fields, Text, text_eq, true, false, [], some, ◌≡◌}
use omnivore_go.Prelude.Unicode.{Unicode}
use omnivore_go.Jobs.SavePage.Page.{SavePageData, PageUrl, Article, LibraryItem, World}
use omnivore_go.Jobs.SavePage.Slug.{make_slug}
use omnivore_go.Jobs.SavePage.Slugs.{IsSlug}
use omnivore_go.Jobs.SavePage.Save.{
  given, folder_of, parsed_time, saved_at_of, either_url, state_of, fetch_content,
}
use omnivore_go.Jobs.SavePage.Rows.{Written, IsSaved}

module _ (w : World) (u : Unicode) where
  open w use {Store, rows, select_id, insert, update, end_transaction, parse_url}

  -- The fields of the item for some data, when `final` is the URL that was loaded, `page` its parts
  -- and `a` the article in its content.
  pub record IsItemOf (d : SavePageData) (final : Text) (page : PageUrl) (a : Article) (s : Store)
      (i : LibraryItem) : Type 0 where
    pub id_given : i.id ≡ d.article_saving_request_id
    pub user_given : i.user_id ≡ d.user_id
    pub title_given : text_eq d.title [] ≡ false → i.title ≡ d.title
    pub title_found : text_eq d.title [] ≡ true → text_eq a.title [] ≡ false → i.title ≡ a.title
    pub title_missing : text_eq d.title [] ≡ true → text_eq a.title [] ≡ true → i.title ≡ page.host
    pub slug_of_title : i.slug ≡ make_slug u i.title
    pub slugged : IsSlug i.slug
    pub content_found :
        (i.author ≡ a.byline)
        × (i.description ≡ a.excerpt)
        × (i.readable_content ≡ a.content)
        × (i.word_count ≡ length (fields a.text_content))
    pub places :
        (i.original_url ≡ final)
        × (i.site_name ≡ page.hostname)
        × (i.folder ≡ folder_of d.folder)
        × (i.subscription ≡ given d.rss_feed_url)
    pub state_given : i.state ≡ state_of d.state
    pub saved_then : i.saved_at ≡ saved_at_of w u d s
    pub published_then : i.published_at ≡ parsed_time w u (given d.published_at)

  -- The content of the page was found, and the item of the data and this content is written.
  abbrev pub Saves : SavePageData → Store → Store → Type 0
  Saves d s s' =
      (i : LibraryItem) × (content : Text) × (final : Text) × (page : PageUrl) × (fetch_content w u
          d s
        ≡ some (content, final))
      × (text_eq content [] ≡ false)
      × (either_url w u (parse_url final) (parse_url d.url) ≡ some page)
      × IsItemOf d final page (w.readability content page) s i
      × Written i (rows s) (rows s')
      × IsSaved i.id i.user_id (rows s) (rows s')
