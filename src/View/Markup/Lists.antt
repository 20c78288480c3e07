-- ===== src/View/Markup/Lists.antt =====
-- internal/view/posts_templ.go: the list screens. `print_id` is `uuid.UUID.String` of gofrs/uuid, and
-- `utc` is `time.UTC`.
use go_personal_web.Prelude.{List, [], ◌∷◌, ◌++◌, Bytes, some, codes, ℤ, pos, ltb_ℤ, if◌then◌else◌}
use go_personal_web.GoStd.Time.{Time}
use go_personal_web.Content.{UuidNumber, Post, Page}
use go_personal_web.View.{
  Zone, PostListing, PageListing, post_state, page_state, post_when, page_when, list_url,
}
use go_personal_web.View.Markup.{raw, escaped, url, Markup, component, join}
use go_personal_web.View.Markup.Controls.{search_form, load_more, empty_row, state_badge}

-- The button that asks for the next page, where there is one.
unfoldable pub more : (base query : Bytes) → ℤ → Markup
more base query next = if ltb_ℤ (pos 0) next then load_more (list_url base query next) else []

-- `if len(rows) == 0`
unfoldable pub when_empty : {A : Type 0} → List A → Markup → Markup
when_empty [] m = m
when_empty (row ∷ rows) m = []

module _ (print_id : UuidNumber → Bytes) (utc : Zone) where
  -- One round of the loop of `PostRows`.
  unfoldable pub post_row : PostListing → Time → Post → Markup
  post_row l now p =
      raw (codes "<a href=\"")
      ∷ url (codes "/admin/posts/" ++ (print_id p.id ++ codes "/edit"))
      ∷ raw (
          join (
            "\" class=\"flex items-baseline gap-3 px-4 py-3 hover:bg-stone-50\"><span"
            ∷ " class=\"min-w-0 flex-1 truncate font-medium\">" ∷ []))
      ∷ escaped p.title
      ∷ raw (codes "</span>")
      ∷ (state_badge (post_state p now)
          ++ (raw (codes "<span class=\"w-44 shrink-0 text-right text-sm text-stone-500\">")
              ∷ escaped (post_when p (some l.list.zone) utc)
              ∷ raw (codes "</span></a> ")
              ∷ []))

  unfoldable pub post_rows_each : PostListing → Time → List Post → Markup
  post_rows_each l now [] = []
  post_rows_each l now (p ∷ rest) = post_row l now p ++ post_rows_each l now rest

  -- `PostRows`
  unfoldable pub post_rows : PostListing → Time → Markup
  post_rows l now =
      component
        (post_rows_each l now l.posts ++ more (codes "/admin/posts") l.list.query l.list.next_page)

  -- `PostRegion`
  unfoldable pub post_region : PostListing → Time → Markup
  post_region l now = component (
      raw (
        join (
          "<div id=\"post-list\" class=\"divide-y divide-stone-200 rounded border"
          ∷ " border-stone-200 bg-white\">" ∷ []))
      ∷ (when_empty l.posts (empty_row l.list.query)
          ++ (post_rows l now ++ (raw (codes "</div>") ∷ []))))

  -- `Posts`
  unfoldable pub posts : PostListing → Time → Markup
  posts l now = component (
      raw (
        join (
          "<div class=\"mb-6 flex items-center justify-between gap-4\"><h1"
          ∷ " class=\"text-xl font-semibold tracking-tight\">Posts</h1><a"
          ∷ " href=\"/admin/posts/new\" class=\"rounded bg-stone-900 px-3 py-2 text-sm"
          ∷ " font-medium text-white hover:bg-stone-700\">Write a post</a></div>" ∷ []))
      ∷ (search_form (codes "/admin/posts") (codes "#post-list") l.list.query ++ post_region l now))

  -- One round of the loop of `PageRows`.
  unfoldable pub page_row : PageListing → Time → Page → Markup
  page_row l now p =
      raw (codes "<a href=\"")
      ∷ url (codes "/admin/pages/" ++ (print_id p.id ++ codes "/edit"))
      ∷ raw (
          join (
            "\" class=\"flex items-baseline gap-3 px-4 py-3 hover:bg-stone-50\"><span"
            ∷ " class=\"min-w-0 flex-1 truncate font-medium\">" ∷ []))
      ∷ escaped p.title
      ∷ raw (codes "</span> <span class=\"shrink-0 text-sm text-stone-400\">/")
      ∷ escaped p.slug
      ∷ raw (codes "</span>")
      ∷ (state_badge (page_state p now)
          ++ (raw (codes "<span class=\"w-44 shrink-0 text-right text-sm text-stone-500\">")
              ∷ escaped (page_when p (some l.list.zone) utc)
              ∷ raw (codes "</span></a> ")
              ∷ []))

  unfoldable pub page_rows_each : PageListing → Time → List Page → Markup
  page_rows_each l now [] = []
  page_rows_each l now (p ∷ rest) = page_row l now p ++ page_rows_each l now rest

  -- `PageRows`
  unfoldable pub page_rows : PageListing → Time → Markup
  page_rows l now =
      component
        (page_rows_each l now l.pages ++ more (codes "/admin/pages") l.list.query l.list.next_page)

  -- `PageRegion`
  unfoldable pub page_region : PageListing → Time → Markup
  page_region l now = component (
      raw (
        join (
          "<div id=\"page-list\" class=\"divide-y divide-stone-200 rounded border"
          ∷ " border-stone-200 bg-white\">" ∷ []))
      ∷ (when_empty l.pages (empty_row l.list.query)
          ++ (page_rows l now ++ (raw (codes "</div>") ∷ []))))

  -- `Pages`
  unfoldable pub pages : PageListing → Time → Markup
  pages l now = component (
      raw (
        join (
          "<div class=\"mb-6 flex items-center justify-between gap-4\"><h1"
          ∷ " class=\"text-xl font-semibold tracking-tight\">Pages</h1><a"
          ∷ " href=\"/admin/pages/new\" class=\"rounded bg-stone-900 px-3 py-2 text-sm"
          ∷ " font-medium text-white hover:bg-stone-700\">Write a page</a></div>" ∷ []))
      ∷ (search_form (codes "/admin/pages") (codes "#page-list") l.list.query ++ page_region l now))
