-- ===== src/Tests/Screens.antt =====
-- The lists, their links, and the routes.
use go_personal_web.Prelude.{
  ℕ, zero, suc, ◌*◌, ◌≡◌, ◌≢◌, ◌⊎◌, refl, true, false, none, some, List, [], ◌∷◌, ◌++◌, Bytes,
  codes, ℤ, pos, take, drop, length, leb, if◌then◌else◌, arith,
}
use go_personal_web.GoStd.Time.{Time}
use go_personal_web.GoStd.Urls.{parse_query, raw_query}
use go_personal_web.GoStd.Decimal.{parse_int}
use go_personal_web.Http.{Request, get, find_pair, form_value}
use go_personal_web.View.{Form, list_url, index_path, save_path, autosave_path}
use go_personal_web.Content.{Post}
use go_personal_web.Content.Errors.{ok, err, refused, not_found}
use go_personal_web.Admin.Session.{verify}
use go_personal_web.Admin.Render.{render}
use go_personal_web.Admin.Store.{Store}
use go_personal_web.Admin.Lists.{page_of, listing_from, post_screen, list_posts}
use go_personal_web.Admin.Lists.Paging.{IsPaged, list_posts_paged}
use go_personal_web.Admin.Lists.Browsing.{Browsed, thinned, browsing_ends}
use go_personal_web.Admin.Lists.Reload.{listing_from-list_url}
use go_personal_web.Admin.Writing.{edit_path}
use go_personal_web.Admin.Auth.{reject_unauthenticated}
use go_personal_web.Admin.Assets.{secured}
use go_personal_web.Admin.Routes.{
  post, list, create, update, draft, edit_form, matched, guarded_match, Surface, is_login_form,
  is_login, is_asset, serve,
}
use go_personal_web.Admin.Routes.Table.{word, links_routed}
use go_personal_web.Admin.Routes.Safety.{store_needs_session, only_post_writes}
use go_personal_web.Admin.Routes.Histories.{Visit, after, nothing_without_password}
use go_personal_web.Admin.Password.{verify_password, parse_hash, parse_parts}
use go_personal_web.GoStd.Strings.{split}
use go_personal_web.Tests.Data.{mac, derive, sessions, logins, request, at}
use go_personal_web.Tests.Store.{one_post, stored}
use go_personal_web.Tests.Writing.{zone, editor}

-- A store of 52 Posts: 50 of one kind, one that is different, and one more.
abbrev repeat : ℕ → Post → List Post
repeat zero p = []
repeat (suc n) p = p ∷ repeat n p

abbrev before : List Post
before = repeat 50 (stored none)

abbrev behind : List Post
behind = stored none ∷ []

abbrev lost : Post
lost = stored (some (pos 5))

abbrev rows : ℕ → Bytes → List Post
rows st text = before ++ lost ∷ behind

abbrev shelf_page : ℕ → ℤ → ℤ → List Post
shelf_page st (pos (suc p)) (pos n) = take n (drop (p * n) (rows st []))
shelf_page st page n = []

abbrev shelf : Store
shelf = record {
  State = ℕ;
  find_posts = λ st aud l. ok (shelf_page st l.page l.per_page);
  find_pages = λ st aud l. ok [];
  post_by_id = λ st id aud. err (refused [] not_found);
  page_by_id = λ st id aud. err (refused [] not_found);
  create_post = λ st p. (st, ok p);
  update_post = λ st p. (st, ok p);
  create_page = λ st p. (st, ok p);
  update_page = λ st p. (st, ok p);
}

paged : IsPaged shelf rows
paged = record { found = λ st text p n h k. refl }

abbrev first_page : Request
first_page = request (codes "GET") (codes "/admin/posts") [] none

asks_first : page_of (parse_int (get (codes "page") first_page.query)) ≡ pos 1
unfolding page_of parse_int get find_pair
asks_first = refl

list_posts_paged_example :
    list_posts shelf zone (pos 9) first_page 0
    ≡ render first_page (
        post_screen
          (pos 1)
          (record {
            list = record {
              query = get (codes "q") first_page.query;
              next_page = if leb (length (drop (0 * 51) (rows 0 []))) 50 then pos 0 else pos 2;
              zone = zone;
            };
            posts = take 50 (drop (0 * 51) (rows 0 []));
          })
          (pos 9))
list_posts_paged_example =
    list_posts_paged shelf rows paged zone (pos 9) first_page 0 0 asks_first (omega arith)

browsing_ends_example :
    Browsed shelf zone 0 [] first_page (λ p. pos 9) (pos 1) (thinned 50 (rows 0 []))
browsing_ends_example =
    browsing_ends shelf rows paged zone 0 [] tt first_page (λ p. pos 9) (omega arith)

abbrev following : Request
following = record first_page {
  query = parse_query (raw_query (list_url (codes "/admin/posts") (codes "a&b") (pos 3)));
}

listing_from-list_url_example :
    listing_from following ≡ record { text = codes "a&b"; page = pos 3; per_page = pos 51 }
listing_from-list_url_example =
    listing_from-list_url following (codes "/admin/posts") (codes "a&b") 3
      (unfold codes in omega arith) (unfold codes in omega arith) (omega arith) (omega arith) refl

abbrev surface : Surface
surface = record {
  store = one_post;
  sessions = sessions;
  hash = [];
  editor = editor;
  hmac = mac;
  id_key = derive;
}

abbrev clock : ℕ → Time
clock n = at n

abbrev stranger : Request
stranger = request (codes "POST") (codes "/admin/posts/4") [] none

store_needs_session_example :
    ((serve surface (λ i t. t) clock stranger (logins 3) (stored none)).state ≡ stored none)
    × ((is_login_form stranger ≡ true)
        ⊎ (is_login stranger ≡ true)
        ⊎ (is_asset stranger ≡ true)
        ⊎ (serve surface (λ i t. t) clock stranger (logins 3) (stored none) ≡ record {
          logins = logins 3;
          state = stored none;
          reply = secured (reject_unauthenticated stranger);
          effects = [];
        }))
store_needs_session_example =
    store_needs_session surface (λ i t. t) clock stranger (logins 3) (stored none)
      (unfold verify find_pair in refl)

-- A stranger posts, and then asks for the list.
abbrev visits : List (Visit surface)
visits =
    record { request = first_page; clock = clock; others = λ i t. t }
    ∷ record { request = stranger; clock = clock; others = λ i t. t }
    ∷ []

unusable : (password : Bytes) → verify_password derive [] password ≢ some true
unfolding verify_password parse_hash parse_parts split
unusable password = λ e. cc

nothing_without_password_example :
    ((after surface (logins 3) (stored none) visits).state ≡ stored none)
    × ((after surface (logins 3) (stored none) visits).issued ≡ [])
unfolding verify find_pair
nothing_without_password_example =
    nothing_without_password surface (logins 3) (stored none) visits
      ((λ sess e. absurd (cc)), ((λ sess e. absurd (cc)), tt))
      (
        unusable (form_value first_page (codes "password")),
        (unusable (form_value stranger (codes "password")), tt),
      )

only_post_writes_example :
    (serve surface (λ i t. t) clock first_page (logins 3) (stored none)).state ≡ stored none
only_post_writes_example =
    only_post_writes surface (λ i t. t) clock first_page (logins 3) (stored none)
      (unfold codes in λ e. ground (arith, e))

abbrev form : Form
form = record {
  id = 4 ∷ [];
  slug = [];
  title = [];
  body = [];
  published_at = [];
  errors = [];
  zone = [];
  autosave = false;
  kind = word post;
}

links_routed_example :
    (guarded_match (codes "GET") (index_path (word post)) ≡ matched (list post))
    × (guarded_match (codes "POST") (save_path (record form { id = [] })) ≡ matched (create post))
    × (guarded_match (codes "POST") (save_path form) ≡ matched (update post (4 ∷ [])))
    × (guarded_match (codes "POST") (autosave_path form) ≡ matched (draft post (4 ∷ [])))
    × (guarded_match (codes "GET") (
          edit_path editor
            (word post)
            (record { id = 4; slug = []; title = []; body = []; published_at = none }))
        ≡ matched (edit_form post (4 ∷ [])))
links_routed_example =
    links_routed editor post form
      (record { id = 4; slug = []; title = []; body = []; published_at = none }) refl (λ e. cc)
      (omega arith) refl
