-- ===== src/View/Reader/Closed.antt =====
-- Every templ function of the list screens writes a closed markup, whatever data it is given.
use go_personal_web.Prelude.{refl, [], ◌∷◌, List, Bytes, ◌=ᵇ◌, codes, ℤ, pos, ltb_ℤ}
use go_personal_web.GoStd.Time.{Time}
use go_personal_web.Content.{UuidNumber, Post, Page}
use go_personal_web.View.{Zone, PostListing, PageListing}
use go_personal_web.View.Markup.{Markup, join}
use go_personal_web.View.Markup.Controls.{search_form, load_more, empty_row, state_badge}
use go_personal_web.View.Markup.Lists
use go_personal_web.View.Reader.{after}
use go_personal_web.View.Reader.Meaning.{IsClosed}
use go_personal_web.View.Reader.Closing.{
  is_closed, IsClosed-of, IsClosed-append, IsClosed-nil, IsClosed-component, IsClosed-if,
  IsClosed-split,
}

pub search_form-IsClosed :
    (action target query : Bytes) → IsClosed (search_form action target query)
unfolding search_form join codes is_closed after
search_form-IsClosed action target query = IsClosed-of _ refl

pub load_more-IsClosed : (href : Bytes) → IsClosed (load_more href)
unfolding load_more join codes is_closed after
load_more-IsClosed href = IsClosed-of _ refl

pub empty_row-IsClosed : (query : Bytes) → IsClosed (empty_row query)
unfolding empty_row join codes is_closed after
empty_row-IsClosed query = IsClosed-split 2 _ refl (
    IsClosed-append _ _ (IsClosed-if (query =ᵇ []) _ _ (IsClosed-of _ refl) (IsClosed-of _ refl))
      (IsClosed-of _ refl))

pub state_badge-IsClosed : (s : Bytes) → IsClosed (state_badge s)
unfolding state_badge join codes is_closed after
state_badge-IsClosed s = IsClosed-component _ (
    IsClosed-if (s =ᵇ codes "draft") _ _ (IsClosed-of _ refl)
      (IsClosed-if (s =ᵇ codes "scheduled") _ _ (IsClosed-of _ refl) (IsClosed-of _ refl)))

more-IsClosed : (base query : Bytes) (next : ℤ) → IsClosed (Lists.more base query next)
unfolding Lists.more
more-IsClosed base query next =
    IsClosed-if (ltb_ℤ (pos 0) next) _ _ (load_more-IsClosed _) IsClosed-nil

when_empty-IsClosed :
    {A : Type 0} (rows : List A) (m : Markup) → IsClosed m → IsClosed (Lists.when_empty rows m)
unfolding Lists.when_empty
when_empty-IsClosed [] m c = c
when_empty-IsClosed (row ∷ rows) m c = IsClosed-nil

module _ (print_id : UuidNumber → Bytes) (utc : Zone) where
  pub post_row-IsClosed :
      (l : PostListing) (now : Time) (p : Post) → IsClosed (Lists.post_row print_id utc l now p)
  unfolding Lists.post_row join codes is_closed after
  post_row-IsClosed l now p =
      IsClosed-split 5 _ refl (IsClosed-append _ _ (state_badge-IsClosed _) (IsClosed-of _ refl))

  pub post_rows_each-IsClosed :
      (l : PostListing) (now : Time) (ps : List Post)
      → IsClosed (Lists.post_rows_each print_id utc l now ps)
  unfolding Lists.post_rows_each
  post_rows_each-IsClosed l now [] = IsClosed-nil
  post_rows_each-IsClosed l now (p ∷ ps) =
      IsClosed-append _ _ (post_row-IsClosed l now p) (post_rows_each-IsClosed l now ps)

  pub post_rows-IsClosed :
      (l : PostListing) (now : Time) → IsClosed (Lists.post_rows print_id utc l now)
  unfolding Lists.post_rows
  post_rows-IsClosed l now =
      IsClosed-component _
        (IsClosed-append _ _ (post_rows_each-IsClosed l now l.posts) (more-IsClosed _ _ _))

  pub post_region-IsClosed :
      (l : PostListing) (now : Time) → IsClosed (Lists.post_region print_id utc l now)
  unfolding Lists.post_region join codes is_closed after
  post_region-IsClosed l now = IsClosed-split 2 _ refl (
      IsClosed-append _ _ (when_empty-IsClosed l.posts _ (empty_row-IsClosed _))
        (IsClosed-append _ _ (post_rows-IsClosed l now) (IsClosed-of _ refl)))

  pub posts-IsClosed : (l : PostListing) (now : Time) → IsClosed (Lists.posts print_id utc l now)
  unfolding Lists.posts join codes is_closed after
  posts-IsClosed l now =
      IsClosed-split 2 _ refl
        (IsClosed-append _ _ (search_form-IsClosed _ _ _) (post_region-IsClosed l now))

  pub page_row-IsClosed :
      (l : PageListing) (now : Time) (p : Page) → IsClosed (Lists.page_row print_id utc l now p)
  unfolding Lists.page_row join codes is_closed after
  page_row-IsClosed l now p =
      IsClosed-split 7 _ refl (IsClosed-append _ _ (state_badge-IsClosed _) (IsClosed-of _ refl))

  pub page_rows_each-IsClosed :
      (l : PageListing) (now : Time) (ps : List Page)
      → IsClosed (Lists.page_rows_each print_id utc l now ps)
  unfolding Lists.page_rows_each
  page_rows_each-IsClosed l now [] = IsClosed-nil
  page_rows_each-IsClosed l now (p ∷ ps) =
      IsClosed-append _ _ (page_row-IsClosed l now p) (page_rows_each-IsClosed l now ps)

  pub page_rows-IsClosed :
      (l : PageListing) (now : Time) → IsClosed (Lists.page_rows print_id utc l now)
  unfolding Lists.page_rows
  page_rows-IsClosed l now =
      IsClosed-component _
        (IsClosed-append _ _ (page_rows_each-IsClosed l now l.pages) (more-IsClosed _ _ _))

  pub page_region-IsClosed :
      (l : PageListing) (now : Time) → IsClosed (Lists.page_region print_id utc l now)
  unfolding Lists.page_region join codes is_closed after
  page_region-IsClosed l now = IsClosed-split 2 _ refl (
      IsClosed-append _ _ (when_empty-IsClosed l.pages _ (empty_row-IsClosed _))
        (IsClosed-append _ _ (page_rows-IsClosed l now) (IsClosed-of _ refl)))

  pub pages-IsClosed : (l : PageListing) (now : Time) → IsClosed (Lists.pages print_id utc l now)
  unfolding Lists.pages join codes is_closed after
  pages-IsClosed l now =
      IsClosed-split 2 _ refl
        (IsClosed-append _ _ (search_form-IsClosed _ _ _) (page_region-IsClosed l now))
