-- ===== src/Content/Store.antt =====
-- internal/content/store.go: the queries that the store builds, and what becomes of their results.
-- A pop query is the list of its clauses with an order and a page; the connection runs it, and is a
-- parameter with what pop and PostgreSQL promise of a query as hypotheses.
pub mod Visibility
pub mod Matching
pub mod Publication
use go_personal_web.Prelude.{
  ℕ, Bool, true, false, Option, none, some, List, [], ◌∷◌, ◌++◌, Bytes, ◌=ᵇ◌, codes, ℤ, pos, ltb_ℤ,
  ◌==◌, if◌then◌else◌, ◌||◌,
}
use go_personal_web.GoStd.Strings.{trim_space}
use go_personal_web.GoStd.Time.{Time}
use go_personal_web.Content.{Audience, public, author, UuidNumber, Post, Page}
use go_personal_web.Content.Errors.{DbError, DbResult, row, fault, Error, Result, ok, err, wrap}

pub data Clause : Type 0 where
  -- `published_at is not null and published_at <= now()`
  published : Clause
  slug_is : Bytes → Clause
  id_is : UuidNumber → Clause
  -- `(title ilike ? escape '\' or slug ilike ? escape '\')`
  like_either : (pattern : Bytes) → Clause

pub data Order : Type 0 where
  -- `published_at desc nulls first, created_at desc`
  newest_first : Order
  -- `slug asc`
  by_slug : Order

pub record Query : Type 0 where
  pub clauses : List Clause
  pub order : Option Order
  -- `Paginate(page, perPage)`
  pub paginate : Option (ℤ × ℤ)

-- One table of the connection. `create` returns the row as stored, with its ID and timestamps.
pub record Table (State A : Type 0) : Type 0 where
  pub first : State → Query → DbResult A
  pub all : State → Query → DbResult (List A)
  pub create : State → A → State × DbResult A
  pub update : State → A → State × DbResult A

pub record Conn : Type 1 where
  pub State : Type 0
  pub posts : Table State Post
  pub pages : Table State Page

-- `err == nil` or the wrapped error.
abbrev pub wrapped : {A : Type 0} → DbResult A → Bytes → Result A
wrapped (row a) what = ok a
wrapped (fault e) what = err (wrap e what)

pub record Listing : Type 0 where
  pub text : Bytes
  pub page : ℤ
  pub per_page : ℤ

abbrev pub default_per_page : ℤ
default_per_page = pos 50

-- `Listing.page`
unfoldable pub page_number : Listing → ℤ
page_number l = if ltb_ℤ l.page (pos 1) then pos 1 else l.page

-- `Listing.perPage`
unfoldable pub page_size : Listing → ℤ
page_size l = if ltb_ℤ l.per_page (pos 1) then default_per_page else l.per_page

unfoldable pub visible : Audience → Query
visible author = record { clauses = []; order = none; paginate = none }
visible public = record { clauses = published ∷ []; order = none; paginate = none }

-- `q.Where(…)`
unfoldable pub where_clause : Query → Clause → Query
where_clause q c = record q { clauses = q.clauses ++ c ∷ [] }

-- `strings.NewReplacer` over three one-byte patterns replaces byte by byte.
unfoldable pub escape_like : Bytes → Bytes
escape_like [] = []
escape_like (c ∷ s) =
    let rest = escape_like s in
    if c == b'\\' || c == b'%' || c == b'_' then b'\\' ∷ c ∷ rest else c ∷ rest

unfoldable pub pattern_of : Bytes → Bytes
unfolding escape_like
pattern_of text = b'%' ∷ (escape_like text ++ b'%' ∷ [])

unfoldable pub matching : Query → Bytes → Query
unfolding where_clause
matching q text =
    let trimmed = trim_space text in
    if trimmed =ᵇ [] then q else where_clause q (like_either (pattern_of trimmed))

unfoldable pub posts_query : Audience → Listing → Query
unfolding matching visible page_number page_size
posts_query aud l = record (matching (visible aud) l.text) {
  order = some newest_first;
  paginate = some (page_number l, page_size l);
}

unfoldable pub pages_query : Audience → Listing → Query
unfolding matching visible page_number page_size
pages_query aud l = record (matching (visible aud) l.text) {
  order = some by_slug;
  paginate = some (page_number l, page_size l);
}

-- `what` is the operation that a wrapped error names. `print_id` is `uuid.UUID.String`.
module _ (c : Conn) (print_id : UuidNumber → Bytes) where
  open c use {State, posts, pages}

  unfoldable pub post_by_slug : State → Bytes → Audience → Result Post
  unfolding visible where_clause
  post_by_slug st slug aud =
      wrapped (posts.first st (where_clause (visible aud) (slug_is slug)))
        (codes "post \"" ++ slug ++ codes "\"")

  unfoldable pub find_posts : State → Audience → Listing → Result (List Post)
  unfolding posts_query
  find_posts st aud l = wrapped (posts.all st (posts_query aud l)) (codes "posts")

  unfoldable pub posts_page : State → Audience → ℤ → ℤ → Result (List Post)
  unfolding find_posts
  posts_page st aud page per_page =
      find_posts st aud (record { text = []; page = page; per_page = per_page })

  unfoldable pub find_pages : State → Audience → Listing → Result (List Page)
  unfolding pages_query
  find_pages st aud l = wrapped (pages.all st (pages_query aud l)) (codes "pages")

  unfoldable pub post_by_id : State → UuidNumber → Audience → Result Post
  unfolding visible where_clause
  post_by_id st id aud =
      wrapped (posts.first st (where_clause (visible aud) (id_is id)))
        (codes "post " ++ print_id id)

  unfoldable pub page_by_id : State → UuidNumber → Audience → Result Page
  unfolding visible where_clause
  page_by_id st id aud =
      wrapped (pages.first st (where_clause (visible aud) (id_is id)))
        (codes "page " ++ print_id id)

  unfoldable pub page_by_slug : State → Bytes → Audience → Result Page
  unfolding visible where_clause
  page_by_slug st slug aud =
      wrapped (pages.first st (where_clause (visible aud) (slug_is slug)))
        (codes "page \"" ++ slug ++ codes "\"")

  unfoldable pub create_post : State → Post → State × Result Post
  create_post st post =
      let (st', stored) = posts.create st post in
      (st', wrapped stored (codes "creating post \"" ++ post.slug ++ codes "\""))

  unfoldable pub update_post : State → Post → State × Result Post
  update_post st post =
      let (st', stored) = posts.update st post in
      (st', wrapped stored (codes "updating post \"" ++ post.slug ++ codes "\""))

  unfoldable pub create_page : State → Page → State × Result Page
  create_page st page =
      let (st', stored) = pages.create st page in
      (st', wrapped stored (codes "creating page \"" ++ page.slug ++ codes "\""))

  unfoldable pub update_page : State → Page → State × Result Page
  update_page st page =
      let (st', stored) = pages.update st page in
      (st', wrapped stored (codes "updating page \"" ++ page.slug ++ codes "\""))
