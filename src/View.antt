-- ===== src/View.antt =====
-- internal/view/view.go: what the components are given, and the URLs and words that they print. A
-- component is the value that a handler makes by calling its templ function; its markup is in View/Markup.
pub mod Links
pub mod Markup
pub mod Reader
use go_personal_web.Prelude.{
  ℕ, Bool, true, false, Option, none, some, List, [], ◌∷◌, ◌++◌, Bytes, ◌=ᵇ◌, codes, ℤ, pos, ltb_ℤ,
  if◌then◌else◌,
}
use go_personal_web.GoStd.Time.{Time, is_after}
use go_personal_web.GoStd.Decimal.{format_int}
use go_personal_web.GoStd.Urls.{query_escape}
use go_personal_web.Http.{Pairs, get}
use go_personal_web.Content.{Post, Page}

-- A time zone of `time.LoadLocation` with the layouts of the program: the `datetime-local` value
-- `2006-01-02T15:04`, read and printed, the clock `15:04:05` and the list's `2 Jan 2006, 15:04`. The
-- rules of the zones are data outside the repository, so the zone is a parameter of all that uses it.
pub record Zone : Type 0 where
  pub name : Bytes
  pub parse_editor : Bytes → Option Time
  pub format_editor : Time → Bytes
  pub format_clock : Time → Bytes
  pub format_list : Time → Bytes

pub data Nav : Type 0 where
  nav_posts nav_pages nav_none : Nav

-- `Listing`, and the two listings that embed it.
pub record ListState : Type 0 where
  pub query : Bytes
  pub next_page : ℤ
  pub zone : Zone

pub record PostListing : Type 0 where
  pub list : ListState
  pub posts : List Post

pub record PageListing : Type 0 where
  pub list : ListState
  pub pages : List Page

pub record Form : Type 0 where
  pub id : Bytes
  pub slug : Bytes
  pub title : Bytes
  pub body : Bytes
  pub published_at : Bytes
  pub errors : Pairs
  pub zone : Bytes
  pub autosave : Bool
  pub kind : Bytes

-- `Form.Err`
unfoldable pub err : Form → Bytes → Bytes
err f field = get field f.errors

-- `Form.IsNew`
unfoldable pub is_new : Form → Bool
is_new f = f.id =ᵇ []

pub record LoginForm : Type 0 where
  pub next : Bytes
  pub error : Bytes

-- The templ functions that the handlers call, with their arguments.
pub data Component : Type 0 where
  layout : (title : Bytes) → Nav → Component → Component
  posts post_region post_rows : PostListing → Time → Component
  pages page_region page_rows : PageListing → Time → Component
  editor editor_form : Form → Component
  login : LoginForm → Component
  saved not_saved_marker : Form → Bytes → Component
  published_marker : Component

-- The words of `state`.
unfoldable pub state : Option Time → Time → Bytes
state none now = codes "draft"
state (some t) now = if is_after t now then codes "scheduled" else codes "published"

-- `when`; the dash is U+2014 in UTF-8. `utc` is `time.UTC`, for a zone that is nil.
unfoldable pub when : Option Time → Option Zone → Zone → Bytes
when none _ utc = 0xe2 ∷ 0x80 ∷ 0x94 ∷ []
when (some t) none utc = utc.format_list t
when (some t) (some z) utc = z.format_list t

unfoldable pub post_state : Post → Time → Bytes
unfolding state
post_state p now = state p.published_at now

unfoldable pub page_state : Page → Time → Bytes
unfolding state
page_state p now = state p.published_at now

unfoldable pub post_when : Post → Option Zone → Zone → Bytes
unfolding when
post_when p zone utc = when p.published_at zone utc

unfoldable pub page_when : Page → Option Zone → Zone → Bytes
unfolding when
page_when p zone utc = when p.published_at zone utc

-- `listURL`: the query part, and the page part behind the separator that is then due.
unfoldable pub list_url : Bytes → Bytes → ℤ → Bytes
list_url base query page =
    let text = if query =ᵇ [] then [] else b'?' ∷ b'q' ∷ b'=' ∷ query_escape query in
    let sep = if query =ᵇ [] then b'?' else b'&' in
    let number =
      if ltb_ℤ (pos 1) page then sep ∷ b'p' ∷ b'a' ∷ b'g' ∷ b'e' ∷ b'=' ∷ format_int page else [] in
    base ++ (text ++ number)

unfoldable pub index_path : Bytes → Bytes
index_path kind = codes "/admin/" ++ (kind ++ codes "s")

unfoldable pub save_path : Form → Bytes
save_path f =
    if is_new f
    then codes "/admin/" ++ (f.kind ++ codes "s")
    else codes "/admin/" ++ (f.kind ++ (codes "s/" ++ f.id))

unfoldable pub autosave_path : Form → Bytes
autosave_path f = codes "/admin/" ++ (f.kind ++ (codes "s/" ++ (f.id ++ codes "/autosave")))
