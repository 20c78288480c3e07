-- ===== src/Tests/Markup.antt =====
-- Pages as they are printed and read back.
use go_personal_web.Prelude.{
  ℕ, ◌≡◌, ◌≢◌, refl, Bool, false, true, Option, none, some, [], ◌∷◌, ◌++◌, Bytes, codes, ◌=ᵇ◌, pos,
  ltb_ℤ, map, if◌then◌else◌, ◌==◌, arith,
}
use go_personal_web.GoStd.Html
use go_personal_web.Http.{Request}
use go_personal_web.Content.{UuidNumber, Post}
use go_personal_web.View.{PostListing, Form, post_rows, list_url}
use go_personal_web.View.Markup.{Templ, print, join}
use go_personal_web.View.Markup.Lists
use go_personal_web.View.Markup.Layout.{markup}
use go_personal_web.View.Markup.Editing
use go_personal_web.View.Reader.{read_page, Token, content}
use go_personal_web.View.Reader.Meaning.{IsEscaping, meaning}
use go_personal_web.View.Reader.Screens.{read_page-markup}
use go_personal_web.View.Reader.Picking.{picks, link, button_load}
use go_personal_web.View.Reader.Rows.{post_link, post_rows_links}
use go_personal_web.View.Reader.Submission.{to_crlf, submission}
use go_personal_web.Admin.Writing.{form_of, submitted}
use go_personal_web.Admin.Writing.Resources.{Resource, posts, record_of_post}
use go_personal_web.Admin.Writing.Browser.{IsPosted, browser_drops_newline}
use go_personal_web.Tests.Data.{request}
use go_personal_web.Tests.Store.{one_post, stored}
use go_personal_web.Tests.Writing.{zone, editor}

abbrev templ : Templ
templ = record { escape_string = Html.escape_string; resolve_attribute_value = Html.escape_string }

escaping : IsEscaping templ
escaping = record { in_text = λ s. refl; in_attribute = λ s. refl }

marker_printed :
    print templ Editing.published_marker
    ≡ codes "<span id=\"autosave\" class=\"ml-auto text-xs text-stone-400\">Published "
      ++ (0xe2 ∷ 0x80 ∷ 0x94 ∷ codes " saved only when you ask</span>")
unfolding print Editing.published_marker join codes
marker_printed = refl

error_printed :
    print templ (Editing.field_error (codes "<b>"))
    ≡ codes "<p class=\"mt-1 text-sm text-red-700\">&lt;b&gt;</p>"
unfolding print Editing.field_error join codes Html.escape_string ◌=ᵇ◌
error_printed = refl

error_read :
    read_page (codes "<p class=\"a&amp;b\">&lt;</p>")
    ≡ Token.start_tag (codes "p") ((codes "class", codes "a&b") ∷ [])
      ∷ Token.character b'<'
      ∷ Token.end_tag (codes "p")
      ∷ []
unfolding read_page codes ◌=ᵇ◌
error_read = refl

abbrev print_id : UuidNumber → Bytes
print_id n = n ∷ []

-- A list whose title would be markup.
abbrev listing : PostListing
listing = record {
  list = record { query = codes "a b"; next_page = pos 2; zone = zone };
  posts = record (stored none) { title = codes "<a href=\"/x\">" } ∷ [];
}

read_page-markup_example :
    read_page (print templ (markup print_id zone (post_rows listing (pos 9))))
    ≡ meaning content (markup print_id zone (post_rows listing (pos 9)))
read_page-markup_example = read_page-markup print_id zone templ escaping (post_rows listing (pos 9))

post_rows_links_example :
    (picks link (read_page (print templ (Lists.post_rows print_id zone listing (pos 9))))
      ≡ map (post_link print_id zone) listing.posts)
    × (picks button_load (read_page (print templ (Lists.post_rows print_id zone listing (pos 9))))
        ≡ (if ltb_ℤ (pos 0) (pos 2)
            then list_url (codes "/admin/posts") (codes "a b") (pos 2) ∷ []
            else []))
post_rows_links_example = post_rows_links print_id zone templ escaping listing (pos 9)

-- A step fails behind the first write.
abbrev broken_pipe : ℕ → Option Bytes
broken_pipe i = if i == 2 then some (codes "broken pipe") else none

-- The form of the stored Post, read at a date field that keeps every value.
abbrev res : Resource Post
res = posts one_post

abbrev kept_date : Bytes → Bytes
kept_date s = s

abbrev form : Post → Form
form p = form_of editor res (record_of_post p) (pos 9)

-- A browser to which every text matches.
abbrev matching : (pattern value : Bytes) → Bool
matching pattern value = true

abbrev posted : Post → Request
posted p =
    record (request (codes "POST") (codes "/admin/posts/4") [] (
      some (
        submission kept_date (codes "action") (codes "save")
          (read_page (print templ (Editing.editor_form (form p))))))) { path_id = 4 ∷ [] }

posted_back :
    (p : Post)
    → p.id ≡ 4
    → IsPosted templ kept_date editor res (record_of_post p) (pos 9) (posted p)
posted_back p e = record { escaping = escaping; id_read = rw (e) refl; form = refl }

-- A body that begins with an empty line.
abbrev spaced : Post
spaced = record (stored none) { body = to_crlf (b'\n' ∷ codes "Text") }

browser_drops_newline_example :
    ((submitted editor (posted spaced) res false (pos 9)).rec.body ≡ to_crlf (codes "Text"))
    × ((submitted editor (posted spaced) res false (pos 9)).rec.body ≢ spaced.body)
browser_drops_newline_example =
    browser_drops_newline templ kept_date editor res (record_of_post spaced) (pos 9) (posted spaced)
      (posted_back spaced refl) (pos 9) (codes "Text") refl (unfold codes in omega arith)

abbrev asking : Request
asking = record (request (codes "POST") (codes "/admin/posts/4/autosave") [] (some [])) {
  path_id = 4 ∷ [];
  headers = (codes "HX-Request", codes "true") ∷ [];
}
