-- ===== src/Admin/Writing/Resources.antt =====
-- internal/admin/writing.go: the half of the editor that differs between a Post and a Page.
use go_personal_web.Prelude.{◌*◌, ◌-◌, Bool, Option, Bytes, codes, negsuc, if◌then◌else◌}
use go_personal_web.GoStd.Time.{Time, second, epoch_offset}
use go_personal_web.View.{Nav, nav_posts, nav_pages}
use go_personal_web.Content.{UuidNumber, Post, Page, author}
use go_personal_web.Content.Errors.{Result, ok, err}
use go_personal_web.Admin.Store.{Store}

-- The part of a Post and a Page that the editor touches.
pub record Record : Type 0 where
  pub id : UuidNumber
  pub slug : Bytes
  pub title : Bytes
  pub body : Bytes
  pub published_at : Option Time

-- `create` and `update` return the state after them, and the record with its ID or the error. An update
-- reads the row and writes it back in two statements; `between` is what other requests do between them.
pub record Resource {ℓ} (S : Type ℓ) : Type ℓ where
  pub kind : Bytes
  pub nav : Nav
  pub by_id : S → UuidNumber → Result Record
  pub create : S → Record → S × Result Record
  pub update : (between : S → S) → S → Record → (with_date : Bool) → S × Result Record

-- Go's zero `time.Time`, the first of January of the year 1.
abbrev zero_time : Time
zero_time = negsuc (epoch_offset * second - 1)

abbrev pub record_of_post : Post → Record
record_of_post p = record {
  id = p.id;
  slug = p.slug;
  title = p.title;
  body = p.body;
  published_at = p.published_at;
}

abbrev pub record_of_page : Page → Record
record_of_page p = record {
  id = p.id;
  slug = p.slug;
  title = p.title;
  body = p.body;
  published_at = p.published_at;
}

abbrev pub map_result : {A B : Type 0} → (A → B) → Result A → Result B
map_result f (ok a) = ok (f a)
map_result f (err e) = err e

-- The fields of the record laid over the stored row.
unfoldable pub merge_post : Post → Record → Bool → Post
merge_post p r with_date = record p {
  slug = r.slug;
  title = r.title;
  body = r.body;
  published_at = if with_date then r.published_at else p.published_at;
}

unfoldable pub merge_page : Page → Record → Bool → Page
merge_page p r with_date = record p {
  slug = r.slug;
  title = r.title;
  body = r.body;
  published_at = if with_date then r.published_at else p.published_at;
}

module _ (s : Store) where
  open s use {State, post_by_id, page_by_id, create_post, create_page, update_post, update_page}

  unfoldable pub posts : Resource State
  unfolding merge_post
  posts = record {
    kind = codes "post";
    nav = nav_posts;
    by_id = λ st id. map_result record_of_post (post_by_id st id author);
    create = λ st r.
        let (st', stored) = create_post st (record {
          id = 0;
          slug = r.slug;
          title = r.title;
          body = r.body;
          published_at = r.published_at;
          created_at = zero_time;
          updated_at = zero_time;
        }) in
        (st', map_result (λ p. record r { id = p.id }) stored);
    update = λ between st r with_date. elim (post_by_id st r.id author) [
      | err e ↦ (st, err e)
      | ok p ↦
          let (st', stored) = update_post (between st) (merge_post p r with_date) in
          (st', map_result (λ q. r) stored)
    ];
  }

  unfoldable pub pages : Resource State
  unfolding merge_page
  pages = record {
    kind = codes "page";
    nav = nav_pages;
    by_id = λ st id. map_result record_of_page (page_by_id st id author);
    create = λ st r.
        let (st', stored) = create_page st (record {
          id = 0;
          slug = r.slug;
          title = r.title;
          body = r.body;
          published_at = r.published_at;
          created_at = zero_time;
          updated_at = zero_time;
        }) in
        (st', map_result (λ p. record r { id = p.id }) stored);
    update = λ between st r with_date. elim (page_by_id st r.id author) [
      | err e ↦ (st, err e)
      | ok p ↦
          let (st', stored) = update_page (between st) (merge_page p r with_date) in
          (st', map_result (λ q. r) stored)
    ];
  }
