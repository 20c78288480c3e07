-- ===== src/Admin/Lists.antt =====
-- internal/admin/lists.go: the two list screens.
pub mod Paging
pub mod Browsing
pub mod Reload
use go_personal_web.Prelude.{
  ℕ, ◌+◌, Bool, Option, none, some, List, Bytes, codes, ℤ, pos, ltb_ℤ, ◌+ℤ◌, wrap64, leb, length,
  take, if◌then◌else◌,
}
use go_personal_web.GoStd.Time.{Time}
use go_personal_web.GoStd.Decimal.{parse_int}
use go_personal_web.Http.{Request, get}
use go_personal_web.View.{
  Zone, nav_posts, nav_pages, ListState, PostListing, PageListing, posts, post_region, post_rows,
  pages, page_region, page_rows,
}
use go_personal_web.Content.{Post, Page, author}
use go_personal_web.Content.Errors.{ok, err}
use go_personal_web.Content.Store.{Listing}
use go_personal_web.Admin.Render.{Reply, Screen, render, fail}
use go_personal_web.Admin.Store.{Store}

abbrev pub per_page : ℕ
per_page = 50

-- The page of the query: one where `strconv.Atoi` fails or gives less.
unfoldable pub page_of : Option ℤ → ℤ
page_of none = pos 1
page_of (some page) = if ltb_ℤ page (pos 1) then pos 1 else page

unfoldable pub listing_from : Request → Listing
unfolding page_of
listing_from r = record {
  text = get (codes "q") r.query;
  page = page_of (parse_int (get (codes "page") r.query));
  per_page = pos (per_page + 1);
}

-- `l.Page + 1` is an addition of `int`.
unfoldable pub trim : {A : Type 0} → List A → Listing → List A × ℤ
trim rows l =
    if leb (length rows) per_page
    then (rows, pos 0)
    else (take per_page rows, wrap64 (l.page +ℤ pos 1))

unfoldable pub pick_fragment : {A : Type 0} → ℤ → A → A → A
pick_fragment page region rows = if ltb_ℤ (pos 1) page then rows else region

unfoldable pub post_screen : ℤ → PostListing → Time → Screen
unfolding pick_fragment
post_screen page listing now = record {
  title = codes "Posts";
  nav = nav_posts;
  body = posts listing now;
  fragment = some (pick_fragment page (post_region listing now) (post_rows listing now));
  status = 0;
}

unfoldable pub page_screen : ℤ → PageListing → Time → Screen
unfolding pick_fragment
page_screen page listing now = record {
  title = codes "Pages";
  nav = nav_pages;
  body = pages listing now;
  fragment = some (pick_fragment page (page_region listing now) (page_rows listing now));
  status = 0;
}

-- The rows of an answer as the screen lists them.
unfoldable pub post_listing : Zone → Listing → List Post → PostListing
unfolding trim
post_listing zone l found =
    let (shown, next) = trim found l in
    record { list = record { query = l.text; next_page = next; zone = zone }; posts = shown }

unfoldable pub page_listing : Zone → Listing → List Page → PageListing
unfolding trim
page_listing zone l found =
    let (shown, next) = trim found l in
    record { list = record { query = l.text; next_page = next; zone = zone }; pages = shown }

module _ (s : Store) (zone : Zone) (now : Time) (r : Request) (st : s.State) where
  unfoldable pub list_posts : Reply
  unfolding listing_from post_listing post_screen
  list_posts = elim (s.find_posts st author (listing_from r)) [
    | err e ↦ fail
    | ok found ↦
        render r (post_screen (listing_from r).page (post_listing zone (listing_from r) found) now)
  ]

  unfoldable pub list_pages : Reply
  unfolding listing_from page_listing page_screen
  list_pages = elim (s.find_pages st author (listing_from r)) [
    | err e ↦ fail
    | ok found ↦
        render r (page_screen (listing_from r).page (page_listing zone (listing_from r) found) now)
  ]
