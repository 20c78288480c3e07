-- ===== src/Tests/Store.antt =====
-- A store of one Post, which keeps the laws that the editor relies on.
use go_personal_web.Prelude.{
  ◌≡◌, refl, sym, ap, ◌∙◌, none, some, int_laws, Option, [], ◌∷◌, codes, pos, ◌==◌, if◌then◌else◌,
  arith,
}
use go_personal_web.GoStd.Time.{Time}
use go_personal_web.Content.{UuidNumber, Post}
use go_personal_web.Content.Errors.{Result, ok, err, refused, not_found}
use go_personal_web.Admin.Store.{Store}
use go_personal_web.Admin.Writing.Resources.{posts}
use go_personal_web.Admin.Writing.Laws.{IsKept, KeepsPosts, map_date, posts-IsKept}

abbrev missing : {A : Type 0} → Result A
missing = err (refused [] not_found)

abbrev by_id : Post → UuidNumber → Result Post
by_id p id = if p.id == id then ok p else missing

abbrev updated : Post → Post → Post × Result Post
updated p q = if p.id == q.id then (q, ok q) else (p, missing)

abbrev pub one_post : Store
one_post = record {
  State = Post;
  find_posts = λ p aud l. ok (p ∷ []);
  find_pages = λ p aud l. ok [];
  post_by_id = λ p id aud. by_id p id;
  page_by_id = λ p id aud. missing;
  create_post = λ p q. (q, ok q);
  update_post = updated;
  create_page = λ p q. (p, ok q);
  update_page = λ p q. (p, missing);
}

-- This store keeps dates whole.
kept_whole : (date : Option Time) → map_date (λ t. t) date ≡ date
kept_whole none = refl
kept_whole (some t) = refl

same_row : (p q r : Post) → (updated p q).1 ≡ ok r → by_id (updated p q).0 q.id ≡ ok q
same_row p q r h = ground arith

pub one_post-KeepsPosts : KeepsPosts one_post
one_post-KeepsPosts = record {
  keep = λ t. t;
  keep_close = λ t. (omega int_laws, omega int_laws);
  kept_date = λ p id q h. kept_whole q.published_at;
  found_id = λ p id q h. ground arith;
  update_other = λ p q id ne. ground arith;
  update_same = λ p q r there h done. (
    q.updated_at,
    same_row p q r done
        ∙ ap (λ d. ok (record q { published_at = d })) (sym (kept_whole q.published_at)),
  );
  update_failed = λ p q e id h. ground arith;
}

posts-IsKept_example : IsKept (posts one_post)
posts-IsKept_example = posts-IsKept one_post one_post-KeepsPosts

pub kept : IsKept (posts one_post)
kept = posts-IsKept one_post one_post-KeepsPosts

abbrev pub stored : Option Time → Post
stored date = record {
  id = 4;
  slug = codes "hello";
  title = codes "Hello";
  body = codes "Text";
  published_at = date;
  created_at = pos 0;
  updated_at = pos 0;
}
